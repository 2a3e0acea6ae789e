-- ===== src/UseCase/Search/Threshold.antt =====
-- RAGSearch against the semantic search that it filters.
use go_tahu_okf_semantic_mcp.Prelude.{
  ◌≡◌, ◌≤◌, refl, true, false, [], ◌∷◌, List, arith, Bytes, ℤ, length, All, Bool-cases, inl, inr,
}
use go_tahu_okf_semantic_mcp.Exec.{Result, ok, err, continue}
use go_tahu_okf_semantic_mcp.Go.Float.{Floats}
use go_tahu_okf_semantic_mcp.Domain.Scope.{Scope}
use go_tahu_okf_semantic_mcp.Domain.Types.{ScoredChunk}
use go_tahu_okf_semantic_mcp.UseCase.Search.{
  SearchService, semantic_search, keep_scored, rag_search,
}

module _ {F D : Type 0} (fl : Floats F D) (min_score : F) where
  abbrev pub Passes : ScoredChunk F → Type 0
  Passes c = fl.ge c.score min_score ≡ true

  -- `rs` is `all` without the chunks below the threshold, in the same order.
  pub data Filtered : List (ScoredChunk F) → List (ScoredChunk F) → Type 0 where
    done : Filtered [] []
    keep :
        {c : ScoredChunk F} {rs all : List (ScoredChunk F)}
        → Passes c
        → Filtered rs all
        → Filtered (c ∷ rs) (c ∷ all)
    skip :
        {c : ScoredChunk F} {rs all : List (ScoredChunk F)}
        → fl.ge c.score min_score ≡ false
        → Filtered rs all
        → Filtered rs (c ∷ all)

  keep_scored-Filtered : (all : List (ScoredChunk F)) → Filtered (keep_scored fl min_score all) all
  unfolding keep_scored
  keep_scored-Filtered [] = done
  keep_scored-Filtered (c ∷ all) = elim (Bool-cases (fl.ge c.score min_score)) [
    | inl e ↦ rw e (keep e (keep_scored-Filtered all))
    | inr n ↦ rw n (skip n (keep_scored-Filtered all))
  ]

  -- The result of the filter is determined, passes throughout, and is no longer than its input.
  pub Filtered-length : {rs all : List (ScoredChunk F)} → Filtered rs all → length rs ≤ length all
  Filtered-length done = omega arith
  Filtered-length (keep p f) = omega (arith, Filtered-length f)
  Filtered-length (skip p f) = omega (arith, Filtered-length f)

  pub Filtered-Passes : {rs all : List (ScoredChunk F)} → Filtered rs all → All Passes rs
  Filtered-Passes done = tt
  Filtered-Passes (keep p f) = (p, Filtered-Passes f)
  Filtered-Passes (skip p f) = Filtered-Passes f

module _ {S F D : Type 0} (fl : Floats F D) (s : SearchService S F) where
  -- RAGSearch succeeds or fails as the semantic search does, with its error and its state, and its
  -- chunks are those of the semantic search that reach the threshold, in their order.
  abbrev pub IsThreshold :
      F → Result (List (ScoredChunk F)) → Result (List (ScoredChunk F)) → Type 0
  IsThreshold m (ok rs) (ok all) = Filtered fl m rs all
  IsThreshold m (ok rs) (err e) = ⊥
  IsThreshold m (err d) (ok all) = ⊥
  IsThreshold m (err d) (err e) = d ≡ e

  filtered_step :
      (m : F) (r : Result (List (ScoredChunk F)) × S)
      → IsThreshold m (continue r.0 (λ all s'. (ok (keep_scored fl m all), s')) r.1).0 r.0
        × ((continue r.0 (λ all s'. (ok (keep_scored fl m all), s')) r.1).1 ≡ r.1)
  filtered_step m (ok all, t) = (keep_scored-Filtered fl m all, refl)
  filtered_step m (err e, t) = (refl, refl)

  pub rag_search-IsThreshold :
      (query : Bytes) (scope : Scope) (top_k : ℤ) (m : F) (t : S)
      → IsThreshold m
          (rag_search fl s query scope top_k m t).0
          (semantic_search s query scope top_k t).0
        × ((rag_search fl s query scope top_k m t).1 ≡ (semantic_search s query scope top_k t).1)
  rag_search-IsThreshold query scope top_k m t =
      unfold rag_search in filtered_step m (semantic_search s query scope top_k t)
