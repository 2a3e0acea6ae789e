-- ===== src/Command.antt =====
-- cmd/tahu/main.go: the wiring of the services and the commands. Flags are read by a library, and what is
-- printed is returned.
pub mod State
pub mod Unindexed
pub mod Reindex
pub mod Built
pub mod Printed
pub mod Listed
pub mod Refs
pub mod Levels
use go_tahu_okf_semantic_mcp.Prelude.{
  Bool, true, false, not, Option, none, some, ℕ, [], ◌∷◌, ◌++◌, List, foldl, if◌then◌else◌, Bytes,
  codes, str_eq, ℤ, pos,
}
use go_tahu_okf_semantic_mcp.Exec.{
  Error, other, Result, ok, err, Exec, pure, fail, lift, attempt, continue, ◌>>=◌, ◌>>◌,
}
use go_tahu_okf_semantic_mcp.Go.Strings.{cut_byte}
use go_tahu_okf_semantic_mcp.Go.Path.{dir, join_path}
use go_tahu_okf_semantic_mcp.Go.Map.{Map, insert}
use go_tahu_okf_semantic_mcp.Domain.Scope.{parse_scope}
use go_tahu_okf_semantic_mcp.Domain.Ref.{ConceptRef}
use go_tahu_okf_semantic_mcp.Domain.Types.{BundleEntry, Concept, ScoredChunk}
use go_tahu_okf_semantic_mcp.Domain.Interfaces.{BundleRepository}
use go_tahu_okf_semantic_mcp.UseCase.Bundle.{BundleService, add_bundle}
use go_tahu_okf_semantic_mcp.UseCase.Reindex.{reindex_bundle}
use go_tahu_okf_semantic_mcp.UseCase.Search.{rag_search}
use go_tahu_okf_semantic_mcp.UseCase.Concept.{read_concept}
use go_tahu_okf_semantic_mcp.Mcp.Request.{Services}
use go_tahu_okf_semantic_mcp.Config.{Config, Environment, load_from_path, load_default}
use go_tahu_okf_semantic_mcp.Embedding.Bm25.{new_default}
use go_tahu_okf_semantic_mcp.VectorStore.{HnswStore}
use go_tahu_okf_semantic_mcp.VectorStore.Files.{new_store}
use go_tahu_okf_semantic_mcp.Command.Printed.{Format, printed_bundles}
use go_tahu_okf_semantic_mcp.Command.State.{
  Platform, Process, with_embedder, with_index, bundle_repository, node_repository, vector_store,
  services,
}

-- The server that the serve command starts: on HTTP at an address and a port, or on stdio.
pub data Server : Type 0 where
  http : Bytes → ℤ → Server
  stdio : Server

-- The flags of serve that were given.
pub record ServeFlags : Type 0 where
  pub transport : Option Bytes
  pub port : Option ℤ
  pub bind : Option Bytes
  pub config_path : Bytes

abbrev given : {A : Type 0} → Option A → A → A
given none a = a
given (some b) a = b

-- The flags that were given win over the configuration.
unfoldable pub overridden : ServeFlags → Config → Config
overridden flags cfg = record cfg {
  transport = given flags.transport cfg.transport;
  port = given flags.port cfg.port;
  bind_addr = given flags.bind cfg.bind_addr;
}

unfoldable pub server_of : Config → Server
server_of cfg = if str_eq cfg.transport (codes "http") then http cfg.bind_addr cfg.port else stdio

-- The text up to the first colon that is not its first byte, and the text behind it.
abbrev pub ref_at : ℕ → Option (Bytes × Bytes) → Result ConceptRef
ref_at c none = err (other "invalid concept ref")
ref_at c (some (u, v)) = ok (record { bundle_alias = c ∷ u; relative_path = v })

unfoldable pub parse_ref_argument : Bytes → Result ConceptRef
parse_ref_argument [] = err (other "invalid concept ref")
parse_ref_argument (c ∷ s) = ref_at c (cut_byte s b':')

-- roots[b.Alias] = b.RootPath
unfoldable pub roots_of : List BundleEntry → Map Bytes
roots_of bundles = foldl (λ m (b : BundleEntry). insert b.alias b.root_path m) [] bundles

-- The file of the vector index, beside the registry.
unfoldable pub index_path : Config → Bytes
index_path cfg = join_path (dir cfg.bundle_registry) (codes "hnsw.index")

module _ {T G F D N : Type 0} (platform : Platform T G F D N) where
  -- buildServices
  unfoldable pub build_services : Config → Exec (Process T G F D) (Services (Process T G F D) F)
  unfolding roots_of index_path
  build_services cfg =
      let path = cfg.bundle_registry in
      let after_model = do
        store ← lift (
            new_store platform.parametrized
              (pos (new_default platform.floats platform.arithmetic).max_dims)
              cfg.hnsw_ef_construction cfg.hnsw_m)
        with_embedder (new_default platform.floats platform.arithmetic)
        with_index store
        (vector_store platform (index_path cfg)).load
      in do
        bundles ← (bundle_repository platform path).list
        if str_eq cfg.embedding_model (codes "bm25")
            then after_model
            else fail (other "embedding_model")
        pure (services platform path (index_path cfg) (roots_of bundles))

  module _ (env : Environment) where
    -- The RunE functions. What they print is their result.
    unfoldable pub bundle_list_command : Format → Exec (Process T G F D) Bytes
    unfolding printed_bundles
    bundle_list_command format = do
      cfg ← lift (load_default env)
      bundles ← (bundle_repository platform cfg.bundle_registry).list
      pure (printed_bundles format bundles)

    unfoldable pub bundle_add_command : Bytes → Bytes → Exec (Process T G F D) BundleEntry
    bundle_add_command alias root_path = do
      cfg ← lift (load_default env)
      add_bundle (services platform cfg.bundle_registry [] []).bundle alias root_path [] []

    -- The error of Persist is only logged.
    abbrev logged : Exec (Process T G F D) (Unit {0}) → Exec (Process T G F D) (Unit {0})
    logged m p = (ok tt, (m p).1)

    unfoldable pub bundle_reindex_command : Bytes → Exec (Process T G F D) (Unit {0})
    unfolding build_services
    bundle_reindex_command alias = do
      cfg ← lift (load_default env)
      svc ← build_services cfg
      reindex_bundle svc.bundle svc.embedder svc.vector_store alias
      logged svc.vector_store.persist

    unfoldable pub search_command :
        Bytes → Bytes → ℤ → Exec (Process T G F D) (List (ScoredChunk F))
    unfolding build_services
    search_command query scope top_k = do
      cfg ← lift (load_default env)
      svc ← build_services cfg
      sc ← lift (parse_scope scope)
      rag_search platform.floats svc.search query sc top_k platform.arithmetic.zero32

    unfoldable pub concept_read_command : Bytes → Exec (Process T G F D) Concept
    unfolding build_services parse_ref_argument
    concept_read_command text = do
      cfg ← lift (load_default env)
      svc ← build_services cfg
      ref ← lift (parse_ref_argument text)
      read_concept svc.concept ref

    -- serve: `listen` runs the server until it ends, and the index is persisted after that.
    abbrev persisted_after :
        Exec (Process T G F D) (Unit {0})
        → Exec (Process T G F D) (Unit {0})
        → Exec (Process T G F D) (Unit {0})
    persisted_after persist m p = let (r, p') = m p in (r, (persist p').1)

    unfoldable pub serve_command :
        (Server → Services (Process T G F D) F → Exec (Process T G F D) (Unit {0}))
        → ServeFlags
        → Exec (Process T G F D) (Unit {0})
    unfolding overridden server_of build_services
    serve_command listen flags = do
      cfg ← lift (load_from_path env flags.config_path)
      svc ← build_services (overridden flags cfg)
      persisted_after svc.vector_store.persist (listen (server_of (overridden flags cfg)) svc)
