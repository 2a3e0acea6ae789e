-- ===== src/Tests/Built.antt =====
-- A reindex in the process that buildServices makes, over an index with one chunk.
use go_tahu_okf_semantic_mcp.Prelude.{◌≡◌, refl, ℕ, pos, [], ◌∷◌, some, Bytes, codes, str_eq}
use go_tahu_okf_semantic_mcp.Exec.{ok}
use go_tahu_okf_semantic_mcp.Go.Map.{Map, lookup}
use go_tahu_okf_semantic_mcp.Domain.Types.{EmbeddingChunk}
use go_tahu_okf_semantic_mcp.Mcp.Request.{Services}
use go_tahu_okf_semantic_mcp.UseCase.Reindex.{reindex_bundle}
use go_tahu_okf_semantic_mcp.Config.{Config}
use go_tahu_okf_semantic_mcp.Embedding.Bm25.{zeros}
use go_tahu_okf_semantic_mcp.Go.Strings.{has_prefix, split, join}
use go_tahu_okf_semantic_mcp.Go.Path.{dir, join_path, clean, is_abs, but_last, ascend}
use go_tahu_okf_semantic_mcp.VectorStore.Files.{new_store, load}
use go_tahu_okf_semantic_mcp.Command.{build_services, index_path, roots_of}
use go_tahu_okf_semantic_mcp.Command.State.{Platform, Process, services}
use go_tahu_okf_semantic_mcp.Command.Built.{reindex_bundle_adds_nothing}
use go_tahu_okf_semantic_mcp.Registry
use go_tahu_okf_semantic_mcp.Tests.Store.{intro_chunk}
use go_tahu_okf_semantic_mcp.Tests.Index.{one_decoder}
use go_tahu_okf_semantic_mcp.Tests.Wiring.{in_maps, small}

-- A chunk of the dimension of the store.
abbrev wide_chunk : EmbeddingChunk ℕ
wide_chunk = record intro_chunk { embedding = zeros 1 4096 }

abbrev wide : Platform (Map Bytes) Bytes ℕ ℕ Bytes
wide = record in_maps {
  decoders = record one_decoder { decode = λ text m. (ok tt, (intro_chunk.id, wide_chunk) ∷ []) };
}

abbrev cfg : Config
cfg = record {
  transport = codes "stdio";
  port = pos 3000;
  bind_addr = codes "127.0.0.1";
  bundle_registry = codes "/r.yaml";
  embedding_model = codes "bm25";
  embedding_batch_size = pos 1;
  hnsw_ef_construction = pos 200;
  hnsw_m = pos 16;
  log_level = codes "info";
}

abbrev on_disk : Map Bytes
on_disk = (codes "/hnsw.index", 1 ∷ []) ∷ (codes "/hnsw.index.meta", 2 ∷ []) ∷ []

abbrev before : Process (Map Bytes) Bytes ℕ ℕ
before = record {
  bm25 = small;
  index = record { graph = []; chunks = []; dims = 0 };
  files = on_disk;
}

abbrev after : Process (Map Bytes) Bytes ℕ ℕ
after = (build_services wide cfg before).1

abbrev wired : Services (Process (Map Bytes) Bytes ℕ ℕ) ℕ
wired = services wide (codes "/r.yaml") (index_path cfg) (roots_of [])

wired-built : build_services wide cfg before ≡ (ok wired, after)
unfolding build_services lookup str_eq Registry.list new_store load zeros dir join_path clean is_abs
    has_prefix split join but_last ascend
wired-built = refl

chunk-kept :
    lookup intro_chunk.id
      (reindex_bundle wired.bundle wired.embedder wired.vector_store
        (codes "kb")
        after).1.index.chunks
    ≡ some wide_chunk
unfolding build_services lookup str_eq Registry.list new_store load zeros dir join_path clean is_abs
    has_prefix split join but_last ascend reindex_bundle Registry.get
chunk-kept = refl

reindex_bundle_adds_nothing_example : lookup intro_chunk.id after.index.chunks ≡ some wide_chunk
reindex_bundle_adds_nothing_example =
    reindex_bundle_adds_nothing wide cfg before after wired (codes "kb") intro_chunk.id wide_chunk
      refl wired-built chunk-kept
