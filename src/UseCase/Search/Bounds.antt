-- ===== src/UseCase/Search/Bounds.antt =====
-- How many chunks the searches return.
use go_tahu_okf_semantic_mcp.Prelude.{
  ◌≡◌, ◌≤◌, refl, subst, List, [], ◌∷◌, ℕ, pos, arith, Bytes, length, All,
}
use go_tahu_okf_semantic_mcp.Exec.{Result, ok, err, continue-ok}
use go_tahu_okf_semantic_mcp.Go.Float.{Floats}
use go_tahu_okf_semantic_mcp.Domain.Scope.{Scope}
use go_tahu_okf_semantic_mcp.Domain.Types.{ScoredChunk}
use go_tahu_okf_semantic_mcp.Domain.Interfaces.{IsBounded}
use go_tahu_okf_semantic_mcp.UseCase.Search.{
  SearchService, first_vector, search_with, semantic_search, rag_search,
}
use go_tahu_okf_semantic_mcp.UseCase.Search.Threshold.{
  Passes, IsThreshold, Filtered-length, Filtered-Passes, rag_search-IsThreshold,
}

module _ {S F D : Type 0} (fl : Floats F D) (s : SearchService S F)
    (bounded : IsBounded s.vector_store) where
  first_vector-bounded :
      (vs : List (List F)) (scope : Scope) (k : ℕ) (t t' : S) (cs : List (ScoredChunk F))
      → first_vector s vs scope (pos k) t ≡ (ok cs, t')
      → length cs ≤ k
  first_vector-bounded [] scope k t t' cs h = absurd (cc h)
  first_vector-bounded (v ∷ vs) scope k t t' cs h = bounded v scope k t t' cs h

  semantic_search-bounded :
      (query : Bytes) (scope : Scope) (k : ℕ) (t t' : S) (cs : List (ScoredChunk F))
      → semantic_search s query scope (pos k) t ≡ (ok cs, t')
      → length cs ≤ k
  unfolding semantic_search search_with
  semantic_search-bounded query scope k t t' cs h =
      let (vs, embedded, h₁) = continue-ok (s.embedder.embed (query ∷ []) t).0 _ _ cs t' h in
      first_vector-bounded vs scope k _ t' cs h₁

  threshold_bounded :
      (m : F) (k : ℕ) (rs : List (ScoredChunk F)) (a : Result (List (ScoredChunk F)) × S)
      → ((t' : S) (cs : List (ScoredChunk F)) → a ≡ (ok cs, t') → length cs ≤ k)
      → IsThreshold fl s m (ok rs) a.0
      → (length rs ≤ k) × All (Passes fl m) rs
  threshold_bounded m k rs (ok cs, t) b h =
      let shorter = Filtered-length fl m h in
      let most = b t cs refl in (omega (arith, shorter, most), Filtered-Passes fl m h)
  threshold_bounded m k rs (err e, t) b h = absurd h

  -- RAGSearch for `k` chunks returns at most `k`, each of which reaches the threshold.
  pub rag_search-bounded :
      (query : Bytes) (scope : Scope) (k : ℕ) (m : F) (t : S) (rs : List (ScoredChunk F))
      → (rag_search fl s query scope (pos k) m t).0 ≡ ok rs
      → (length rs ≤ k) × All (Passes fl m) rs
  rag_search-bounded query scope k m t rs h =
      let (same, left) = rag_search-IsThreshold fl s query scope (pos k) m t in
      let a = semantic_search s query scope (pos k) t in
      threshold_bounded m k rs a (λ u cs e. semantic_search-bounded query scope k t u cs e)
        (subst (λ r. IsThreshold fl s m r a.0) h same)
