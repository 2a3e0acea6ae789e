-- ===== src/Embedding/Bm25/Vocabulary.antt =====
-- The numbering of the vocabulary: every number is a place in a vector.
use go_tahu_okf_semantic_mcp.Prelude.{
  ◌≡◌, ◌≤◌, ◌<◌, refl, false, ℕ, suc, ◌+◌, [], ◌∷◌, List, arith, Bytes, length, take,
  length-take-le, length-map, All, Bool-cases, inl, inr,
}
use go_tahu_okf_semantic_mcp.Go.Map.{Map, insert, All-insert}
use go_tahu_okf_semantic_mcp.Go.Float.{Floats, Arithmetic}
use go_tahu_okf_semantic_mcp.Embedding.Bm25.{
  Bm25, numbered, terms_of, sort_terms, positive, build_vocab, ready,
}

abbrev pub Below : ℕ → Bytes × ℕ → Type 0
Below n (t, i) = i < n

Below-numbered :
    (n i : ℕ) (ts : List Bytes) (m : Map ℕ)
    → i + length ts ≤ n
    → All (Below n) m
    → All (Below n) (numbered i ts m)
unfolding numbered
Below-numbered n i [] m le h = h
Below-numbered n i (t ∷ ts) m le h =
    Below-numbered n (suc i) ts (insert t i m) (omega (arith, le))
      (All-insert (Below n) t i m (omega (arith, le)) h)

-- A vocabulary that is up to date has its numbers below the dimension.
abbrev pub IsNumbered : {D : Type 0} → Bm25 D → Type 0
IsNumbered e = e.dirty ≡ false → All (Below e.max_dims) e.vocab_idx

module _ {F D : Type 0} (fl : Floats F D) (ar : Arithmetic F D) where
  build_vocab-Below : (e : Bm25 D) → All (Below e.max_dims) (build_vocab fl ar e).vocab_idx
  unfolding build_vocab
  build_vocab-Below e =
      let terms = take e.max_dims (sort_terms (positive e.df)) in
      let few = length-take-le e.max_dims (sort_terms (positive e.df)) in
      let same = length-map (λ (t : Bytes × _). t.0) terms in
      Below-numbered e.max_dims 0 (terms_of terms) [] (omega (arith, few, same)) tt

  build_vocab-max_dims : (e : Bm25 D) → (build_vocab fl ar e).max_dims ≡ e.max_dims
  unfolding build_vocab
  build_vocab-max_dims e = refl

  pub ready-max_dims : (e : Bm25 D) → (ready fl ar e).max_dims ≡ e.max_dims
  unfolding build_vocab
  ready-max_dims e = elim (Bool-cases e.dirty) [
    | inl d ↦ rw d (build_vocab-max_dims e)
    | inr n ↦ rw n refl
  ]

  pub ready-Below : (e : Bm25 D) → IsNumbered e → All (Below e.max_dims) (ready fl ar e).vocab_idx
  unfolding build_vocab
  ready-Below e h = elim (Bool-cases e.dirty) [
    | inl d ↦ rw d (build_vocab-Below e)
    | inr n ↦ rw n (h n)
  ]
