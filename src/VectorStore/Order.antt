-- ===== src/VectorStore/Order.antt =====
-- The stable sort of Search: descending scores, the candidates kept, ties in their order.
use mathlib.Core.List.{Perm}
use mathlib.Core.List.Perm
use go_tahu_okf_semantic_mcp.Prelude.{◌≡◌, true, false, [], ◌∷◌, List, map, Bool-cases, inl, inr}
use go_tahu_okf_semantic_mcp.Go.Float.{Floats}
use go_tahu_okf_semantic_mcp.Domain.Types.{EmbeddingChunk}
use go_tahu_okf_semantic_mcp.VectorStore.{place, sort_stable}

module _ {F D : Type 0} (fl : Floats F D) where
  -- No score is greater than the one before it.
  abbrev pub Descending : List F → Type 0
  Descending [] = Unit
  Descending (x ∷ []) = Unit
  Descending (x ∷ y ∷ ys) = (fl.gt y x ≡ false) × Descending (y ∷ ys)

  abbrev pub scores : List (EmbeddingChunk F × F) → List F
  scores = map (λ (c : EmbeddingChunk F × F). c.1)

  -- `x > y` and `y > x` do not hold together.
  abbrev pub Asymmetric : Type 0
  Asymmetric = (x y : F) → fl.gt x y ≡ true → fl.gt y x ≡ false

  module _ (asymmetric : Asymmetric) where
    place-Descending :
        (c : EmbeddingChunk F × F) (ds : List (EmbeddingChunk F × F))
        → Descending (scores ds)
        → Descending (scores (place fl c ds))
    unfolding place
    place-Descending c [] h = tt
    place-Descending c (d ∷ []) h = elim (Bool-cases (fl.gt d.1 c.1)) [
      | inl g ↦ rw g (asymmetric d.1 c.1 g, tt)
      | inr n ↦ rw n (n, tt)
    ]
    place-Descending c (d ∷ e ∷ ds) (h, hs) = elim (Bool-cases (fl.gt d.1 c.1)) [
      | inl g ↦ elim (Bool-cases (fl.gt e.1 c.1)) [
        | inl f ↦ rw (g, f) (h, rw f at (place-Descending c (e ∷ ds) hs))
        | inr m ↦ rw (g, m) (asymmetric d.1 c.1 g, (m, hs))
      ]
      | inr n ↦ rw n (n, (h, hs))
    ]

    pub sort_stable-Descending :
        (cs : List (EmbeddingChunk F × F)) → Descending (scores (sort_stable fl cs))
    unfolding sort_stable
    sort_stable-Descending [] = tt
    sort_stable-Descending (c ∷ cs) = place-Descending c _ (sort_stable-Descending cs)

  place-perm :
      (c : EmbeddingChunk F × F) (ds : List (EmbeddingChunk F × F)) → Perm (place fl c ds) (c ∷ ds)
  unfolding place
  place-perm c [] = Perm.refl (c ∷ [])
  place-perm c (d ∷ ds) = elim (Bool-cases (fl.gt d.1 c.1)) [
    | inl g ↦ rw g (Perm.trans (Perm.cons d (place-perm c ds)) (Perm.swap c d ds))
    | inr n ↦ rw n (Perm.refl (c ∷ d ∷ ds))
  ]

  pub sort_stable-perm : (cs : List (EmbeddingChunk F × F)) → Perm (sort_stable fl cs) cs
  unfolding sort_stable
  sort_stable-perm [] = Perm.refl []
  sort_stable-perm (c ∷ cs) =
      Perm.trans (place-perm c (sort_stable fl cs)) (Perm.cons c (sort_stable-perm cs))
