-- ===== src/Command/State.antt =====
-- The process as one state: the embedder, the vector store and the files; and the implementations of the
-- interfaces over it.
use go_tahu_okf_semantic_mcp.Prelude.{ℤ, none, Bytes}
use go_tahu_okf_semantic_mcp.Exec.{ok, Exec}
use go_tahu_okf_semantic_mcp.Go.Float.{Floats, Arithmetic}
use go_tahu_okf_semantic_mcp.Go.Map.{Map}
use go_tahu_okf_semantic_mcp.Domain.Types.{Time}
use go_tahu_okf_semantic_mcp.Domain.Interfaces.{
  Embedder, VectorStore, NodeRepository, BundleRepository,
}
use go_tahu_okf_semantic_mcp.UseCase.Bundle.{Disk}
use go_tahu_okf_semantic_mcp.Mcp.Request.{Services}
use go_tahu_okf_semantic_mcp.Okf.Document.{Yaml}
use go_tahu_okf_semantic_mcp.Okf.Linker.{Markdown}
use go_tahu_okf_semantic_mcp.Okf.Repository.{FileSystem}
use go_tahu_okf_semantic_mcp.Okf.Repository.Concepts.{file_node_repository}
use go_tahu_okf_semantic_mcp.Embedding.Bm25.{Bm25}
use go_tahu_okf_semantic_mcp.Embedding.Bm25.Scores.{embed}
use go_tahu_okf_semantic_mcp.VectorStore.{Hnsw, HnswStore, upsert, search, delete}
use go_tahu_okf_semantic_mcp.VectorStore.Files.{IndexFiles, Decoders, persist, load}
use go_tahu_okf_semantic_mcp.Registry

-- The libraries and the system calls, over the files `T`.
pub record Platform (T G F D N : Type 0) : Type 0 where
  pub floats : Floats F D
  pub arithmetic : Arithmetic F D
  pub graph : Hnsw G F
  pub parametrized : ℤ → ℤ → G
  pub index_files : IndexFiles T G F
  pub decoders : Decoders G F
  pub os : Registry.Os T
  pub registry_yaml : Registry.Yaml
  pub file_system : FileSystem T
  pub frontmatter_yaml : Yaml N
  pub markdown : Markdown
  pub disk : Disk T
  pub now : Exec T Time
  pub format_time : Time → Bytes

pub record Process (T G F D : Type 0) : Type 0 where
  pub bm25 : Bm25 D
  pub index : HnswStore G F
  pub files : T

module _ {T G F D : Type 0} where
  -- A call on one part of the state.
  abbrev pub on_files : {A : Type 0} → Exec T A → Exec (Process T G F D) A
  on_files m p = let (r, t) = m p.files in (r, record p { files = t })

  abbrev pub on_bm25 : {A : Type 0} → Exec (Bm25 D) A → Exec (Process T G F D) A
  on_bm25 m p = let (r, e) = m p.bm25 in (r, record p { bm25 = e })

  abbrev pub on_index : {A : Type 0} → Exec (HnswStore G F) A → Exec (Process T G F D) A
  on_index m p = let (r, s) = m p.index in (r, record p { index = s })

  abbrev pub on_both : {A : Type 0} → Exec (HnswStore G F × T) A → Exec (Process T G F D) A
  on_both m p = let (r, (s, t)) = m (p.index, p.files) in (r, record p { index = s; files = t })

  -- A new embedder, and a new store.
  abbrev pub with_embedder : Bm25 D → Exec (Process T G F D) (Unit {0})
  with_embedder e p = (ok tt, record p { bm25 = e })

  abbrev pub with_index : HnswStore G F → Exec (Process T G F D) (Unit {0})
  with_index s p = (ok tt, record p { index = s })

module _ {T G F D N : Type 0} (platform : Platform T G F D N) where
  abbrev pub bundle_repository : Bytes → BundleRepository (Process T G F D)
  bundle_repository path = record {
    get = λ alias. on_files (Registry.get platform.os platform.registry_yaml path alias);
    put = λ entry. on_files (Registry.put platform.os platform.registry_yaml path entry);
    delete = λ alias. on_files (Registry.delete platform.os platform.registry_yaml path alias);
    list = on_files (Registry.list platform.os platform.registry_yaml path);
  }

  abbrev pub node_repository : Map Bytes → NodeRepository (Process T G F D)
  node_repository roots =
      let repo =
        file_node_repository platform.file_system roots platform.frontmatter_yaml
          platform.markdown in
      record {
        get = λ ref. on_files (repo.get ref);
        put = λ ref c. on_files (repo.put ref c);
        list = λ alias sub_path. on_files (repo.list alias sub_path);
        list_types = λ alias. on_files (repo.list_types alias);
        read_reserved = λ alias path. on_files (repo.read_reserved alias path);
        write_reserved = λ alias path text. on_files (repo.write_reserved alias path text);
      }

  -- Dims() is the capacity of the embedder that New makes.
  abbrev pub embedder : Embedder (Process T G F D) F
  embedder = record {
    embed = λ texts. on_bm25 (embed platform.floats platform.arithmetic texts);
    dims = 4096;
  }

  abbrev pub vector_store : Bytes → VectorStore (Process T G F D) F
  vector_store path = record {
    upsert = λ cs. on_index (upsert platform.floats platform.graph cs);
    search =
        λ query scope top_k. on_index (search platform.floats platform.graph query scope top_k);
    delete = λ ids. on_index (delete platform.floats platform.graph ids);
    persist = λ p. on_files (persist platform.index_files path p.index) p;
    load = on_both (load platform.index_files platform.graph platform.decoders path);
  }

  abbrev pub disk_of : Disk (Process T G F D)
  disk_of = record {
    stat = λ path. on_files (platform.disk.stat path);
    walk = λ path. on_files (platform.disk.walk path);
  }

  -- The services over the registry, the index and the roots that were read at the start.
  abbrev pub services : Bytes → Bytes → Map Bytes → Services (Process T G F D) F
  services path index_path roots = record {
    bundle = record {
      bundle_repository = bundle_repository path;
      node_repository = node_repository roots;
      disk = disk_of;
      now = on_files platform.now;
    };
    concept = record {
      node_repository = node_repository roots;
      now = on_files platform.now;
      format_time = platform.format_time;
    };
    search = record {
      embedder = embedder;
      keyword_embedder = none;
      vector_store = vector_store index_path;
    };
    embedder = embedder;
    vector_store = vector_store index_path;
  }
