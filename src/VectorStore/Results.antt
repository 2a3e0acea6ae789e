-- ===== src/VectorStore/Results.antt =====
-- What Search returns.
use go_tahu_okf_semantic_mcp.Prelude.{
  ◌≡◌, ◌≤◌, refl, ap, false, some, [], ◌∷◌, List, map, arith, Bool-cases, Option-cases, inl, inr,
  length, take, length-take-le, length-map, All, All-take, Bytes, ℕ, zero, suc, pos, ◌==◌,
}
use go_tahu_okf_semantic_mcp.Exec.{ok}
use go_tahu_okf_semantic_mcp.Go.Float.{Floats}
use go_tahu_okf_semantic_mcp.Go.Map.{lookup}
use go_tahu_okf_semantic_mcp.Domain.Scope.{Scope}
use go_tahu_okf_semantic_mcp.Domain.Types.{EmbeddingChunk, ScoredChunk}
use go_tahu_okf_semantic_mcp.VectorStore.{
  Hnsw, HnswStore, candidate, candidates, place, sort_stable, scored, search, ranked, found_nodes,
}
use go_tahu_okf_semantic_mcp.VectorStore.Matching.{InScope, chunk_matches_scope_iff}
use go_tahu_okf_semantic_mcp.VectorStore.Order.{
  Descending, scores, Asymmetric, sort_stable-Descending,
}

module _ {G F D : Type 0} (fl : Floats F D) (lib : Hnsw G F) (s : HnswStore G F) where
  -- A candidate is a stored chunk in scope, with a score that is a number.
  pub record IsCandidate (scope : Scope) (c : EmbeddingChunk F × F) : Type 0 where
    pub key : Bytes
    pub stored : lookup key s.chunks ≡ some c.0
    pub in_scope : InScope c.0 scope
    pub number : fl.is_nan c.1 ≡ false

  candidate-IsCandidate :
      (query : List F) (scope : Scope) (key : Bytes) (value : List F) (d : EmbeddingChunk F × F)
      → candidate fl lib s query scope key value ≡ some d
      → IsCandidate scope d
  unfolding candidate
  candidate-IsCandidate query scope key value d h = record {
    key = key;
    stored = ground arith;
    in_scope = (chunk_matches_scope_iff d.0 scope).0 (ground arith);
    number = ground arith;
  }

  candidates-IsCandidate :
      (query : List F) (scope : Scope) (nodes : List (Bytes × List F))
      → All (IsCandidate scope) (candidates fl lib s query scope nodes)
  unfolding candidates
  candidates-IsCandidate query scope [] = tt
  candidates-IsCandidate query scope ((key, value) ∷ nodes) =
      elim (Option-cases (candidate fl lib s query scope key value)) [
        | inl e ↦ rw e (candidates-IsCandidate query scope nodes)
        | inr (d, e) ↦ rw e (
          candidate-IsCandidate query scope key value d e,
          candidates-IsCandidate query scope nodes,
        )
      ]

  place-All :
      (P : EmbeddingChunk F × F → Type 0) (c : EmbeddingChunk F × F)
      (ds : List (EmbeddingChunk F × F))
      → P c
      → All P ds
      → All P (place fl c ds)
  unfolding place
  place-All P c [] p h = (p, tt)
  place-All P c (d ∷ ds) p (q, h) = elim (Bool-cases (fl.gt d.1 c.1)) [
    | inl g ↦ rw g (q, place-All P c ds p h)
    | inr n ↦ rw n (p, (q, h))
  ]

  sort_stable-All :
      (P : EmbeddingChunk F × F → Type 0) (cs : List (EmbeddingChunk F × F))
      → All P cs
      → All P (sort_stable fl cs)
  unfolding sort_stable
  sort_stable-All P [] h = tt
  sort_stable-All P (c ∷ cs) (p, h) = place-All P c _ p (sort_stable-All P cs h)

  -- A result shows a stored chunk in scope.
  pub record IsHit (scope : Scope) (r : ScoredChunk F) : Type 0 where
    pub candidate : EmbeddingChunk F × F
    pub fits : IsCandidate scope candidate
    pub shown : r ≡ scored candidate

  -- The scores of results, in their order.
  abbrev result_scores : List (ScoredChunk F) → List F
  result_scores = map (λ (r : ScoredChunk F). r.score)

  abbrev pub IsAnswer : Scope → ℕ → List (ScoredChunk F) → Type 0
  IsAnswer scope k rs = (length rs ≤ k) × All (IsHit scope) rs × Descending fl (result_scores rs)

  shown-IsHit :
      (scope : Scope) (cs : List (EmbeddingChunk F × F))
      → All (IsCandidate scope) cs
      → All (IsHit scope) (map scored cs)
  shown-IsHit scope [] h = tt
  shown-IsHit scope (c ∷ cs) (f, h) =
      (record { candidate = c; fits = f; shown = refl }, shown-IsHit scope cs h)

  take-Descending : (k : ℕ) (xs : List F) → Descending fl xs → Descending fl (take k xs)
  take-Descending zero xs h = tt
  take-Descending (suc k) [] h = tt
  take-Descending (suc zero) (x ∷ []) h = tt
  take-Descending (suc (suc k)) (x ∷ []) h = tt
  take-Descending (suc zero) (x ∷ y ∷ xs) (h, hs) = tt
  take-Descending (suc (suc k)) (x ∷ y ∷ xs) (h, hs) = (h, take-Descending (suc k) (y ∷ xs) hs)

  scores-take :
      (k : ℕ) (cs : List (EmbeddingChunk F × F))
      → result_scores (map scored (take k cs)) ≡ take k (scores fl cs)
  unfolding scored
  scores-take zero cs = refl
  scores-take (suc k) [] = refl
  scores-take (suc k) (c ∷ cs) = ap (λ t. c.1 ∷ t) (scores-take k cs)

  module _ (asymmetric : Asymmetric fl) where
    ranked-IsAnswer :
        (scope : Scope) (k : ℕ) (cs : List (EmbeddingChunk F × F))
        → All (IsCandidate scope) cs
        → IsAnswer scope k (map scored (take k (sort_stable fl cs)))
    ranked-IsAnswer scope k cs h = (
      rw (length-map scored) (length-take-le k _),
      shown-IsHit scope _ (All-take _ k _ (sort_stable-All _ cs h)),
      rw (scores-take k (sort_stable fl cs))
          (take-Descending k _ (sort_stable-Descending fl asymmetric cs)),
    )

    -- If `>` does not hold both ways, a search for at most `k` chunks succeeds, changes nothing, and returns at most `k` results. Each
    -- shows a stored chunk of the scope under a score that is not NaN, and the scores descend.
    pub search-IsAnswer :
        (query : List F) (scope : Scope) (k : ℕ)
        → (rs : List (ScoredChunk F)) × (search fl lib query scope (pos k) s ≡ (ok rs, s))
          × IsAnswer scope k rs
    unfolding search
    search-IsAnswer query scope zero = ([], refl, (omega arith, tt, tt))
    search-IsAnswer query scope (suc k) = elim (Bool-cases (lib.len s.graph == 0)) [
      | inl e ↦ ([], rw e, (omega arith, tt, tt))
      | inr n ↦
          let nodes = found_nodes fl lib s query scope (suc k) in
          (
            ranked fl lib s query scope (suc k),
            rw n,
            ranked-IsAnswer scope (suc k) (candidates fl lib s query scope nodes)
                (candidates-IsCandidate query scope nodes),
          )
    ]
