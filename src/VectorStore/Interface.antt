-- ===== src/VectorStore/Interface.antt =====
-- The store as the VectorStore of the use cases.
use go_tahu_okf_semantic_mcp.Prelude.{◌≡◌, ◌≤◌, ap, sym, ◌∙◌, subst, List, length}
use go_tahu_okf_semantic_mcp.Exec.{Result, Exec, ok_injective}
use go_tahu_okf_semantic_mcp.Go.Float.{Floats}
use go_tahu_okf_semantic_mcp.Domain.Types.{ScoredChunk}
use go_tahu_okf_semantic_mcp.Domain.Interfaces.{VectorStore, IsBounded}
use go_tahu_okf_semantic_mcp.VectorStore.{Hnsw, HnswStore, upsert, search, delete}
use go_tahu_okf_semantic_mcp.VectorStore.Order.{Asymmetric}
use go_tahu_okf_semantic_mcp.VectorStore.Results.{search-IsAnswer}

module _ {G F D : Type 0} (fl : Floats F D) (lib : Hnsw G F)
    (persist load : Exec (HnswStore G F) (Unit {0})) where
  abbrev pub vector_store : VectorStore (HnswStore G F) F
  vector_store = record {
    upsert = upsert fl lib;
    search = search fl lib;
    delete = delete fl lib;
    persist = persist;
    load = load;
  }

  pub vector_store-IsBounded : Asymmetric fl → IsBounded vector_store
  vector_store-IsBounded asymmetric v scope k t t' rs h =
      let (qs, e, answer) = search-IsAnswer fl lib t asymmetric v scope k in
      let same : qs ≡ rs =
        ok_injective qs rs
          (ap (λ (m : Result (List (ScoredChunk F)) × HnswStore G F). m.0) (sym e ∙ h)) in
      subst (λ xs. length xs ≤ k) same answer.0
