-- ===== src/UseCase/Search.antt =====
-- SearchService of internal/usecase/search.go.
pub mod Threshold
pub mod Bounds
use go_tahu_okf_semantic_mcp.Prelude.{Option, none, some, [], ◌∷◌, List, if◌then◌else◌, Bytes, ℤ}
use go_tahu_okf_semantic_mcp.Exec.{Exec, pure, fail, other, ◌>>=◌}
use go_tahu_okf_semantic_mcp.Go.Float.{Floats}
use go_tahu_okf_semantic_mcp.Domain.Scope.{Scope}
use go_tahu_okf_semantic_mcp.Domain.Types.{ScoredChunk}
use go_tahu_okf_semantic_mcp.Domain.Interfaces.{Embedder, VectorStore}

pub record SearchService (S F : Type 0) : Type 0 where
  pub embedder : Embedder S F
  -- nil if there is no embedder of its own for keywords
  pub keyword_embedder : Option (Embedder S F)
  pub vector_store : VectorStore S F

module _ {S F : Type 0} (s : SearchService S F) where
  abbrev pub first_vector : List (List F) → Scope → ℤ → Exec S (List (ScoredChunk F))
  first_vector [] scope top_k = fail (other "embedder returned no vectors")
  first_vector (v ∷ vs) scope top_k = s.vector_store.search v scope top_k

  -- The embedding of a query by an embedder, and the search for it.
  unfoldable pub search_with : Embedder S F → Bytes → Scope → ℤ → Exec S (List (ScoredChunk F))
  search_with emb query scope top_k = do
    vecs ← emb.embed (query ∷ [])
    first_vector vecs scope top_k

  unfoldable pub semantic_search : Bytes → Scope → ℤ → Exec S (List (ScoredChunk F))
  unfolding search_with
  semantic_search = search_with s.embedder

  unfoldable pub keyword_search : Bytes → Scope → ℤ → Exec S (List (ScoredChunk F))
  unfolding search_with
  keyword_search = search_with (elim s.keyword_embedder [ none ↦ s.embedder | some e ↦ e ])

module _ {F D : Type 0} (fl : Floats F D) where
  -- The chunks of score `min_score` or more, in their order.
  unfoldable pub keep_scored : F → List (ScoredChunk F) → List (ScoredChunk F)
  keep_scored min_score [] = []
  keep_scored min_score (c ∷ cs) =
      let rest = keep_scored min_score cs in if fl.ge c.score min_score then c ∷ rest else rest

module _ {S F D : Type 0} (fl : Floats F D) (s : SearchService S F) where
  unfoldable pub rag_search : Bytes → Scope → ℤ → F → Exec S (List (ScoredChunk F))
  rag_search query scope top_k min_score = do
    all ← semantic_search s query scope top_k
    pure (keep_scored fl min_score all)
