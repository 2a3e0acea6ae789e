-- ===== src/Embedding/Chunks/Windows.antt =====
-- The windows of a paragraph.
use go_tahu_okf_semantic_mcp.Prelude.{
  ◌≡◌, ◌≤◌, refl, ap, sym, ◌∙◌, true, Bool-cases, inl, inr, ℕ, zero, suc, ◌+◌, ◌-◌, ltb, [], ◌∷◌,
  ◌++◌, List, arith, length, take, drop, append-nil, All,
}
use go_tahu_okf_semantic_mcp.Embedding.Chunks.{max_chunk_runes, slice, window_end, windows}

abbrev pub joined {ℓ} : {A : Type ℓ} → List (List A) → List A
joined [] = []
joined (xs ∷ xss) = xs ++ joined xss

take-drop {ℓ} : {A : Type ℓ} (n : ℕ) (xs : List A) → take n xs ++ drop n xs ≡ xs
take-drop zero xs = refl
take-drop (suc n) [] = refl
take-drop (suc n) (x ∷ xs) = ap (λ ys. x ∷ ys) (take-drop n xs)

drop-nil {ℓ} : {A : Type ℓ} (n : ℕ) → ◌≡◌ {A = List A} (drop n []) []
drop-nil zero = refl
drop-nil (suc n) = refl

drop-drop {ℓ} : {A : Type ℓ} (m n : ℕ) (xs : List A) → drop n (drop m xs) ≡ drop (m + n) xs
drop-drop zero n xs = let sum : n ≡ 0 + n = omega arith in ap (λ k. drop k xs) sum
drop-drop (suc m) n [] = drop-nil n ∙ sym (drop-nil (suc m + n))
drop-drop (suc m) n (x ∷ xs) =
    let sum : suc (m + n) ≡ suc m + n = omega arith in
    drop-drop m n xs ∙ ap (λ k. drop k (x ∷ xs)) sum

drop-all {ℓ} : {A : Type ℓ} (n : ℕ) (xs : List A) → length xs ≤ n → drop n xs ≡ []
drop-all zero [] h = refl
drop-all zero (x ∷ xs) h = absurd (omega (arith, h))
drop-all (suc n) [] h = refl
drop-all (suc n) (x ∷ xs) h = drop-all n xs (omega (arith, h))

take-all {ℓ} : {A : Type ℓ} (n : ℕ) (xs : List A) → length xs ≤ n → take n xs ≡ xs
take-all zero [] h = refl
take-all zero (x ∷ xs) h = absurd (omega (arith, h))
take-all (suc n) [] h = refl
take-all (suc n) (x ∷ xs) h = ap (λ ys. x ∷ ys) (take-all n xs (omega (arith, h)))

length-drop {ℓ} : {A : Type ℓ} (n : ℕ) (xs : List A) → length (drop n xs) ≡ length xs - n
length-drop zero xs = omega arith
length-drop (suc n) [] = omega arith
length-drop (suc n) (x ∷ xs) = omega (arith, length-drop n xs)

-- A window and what is behind it are what is behind its start.
slice-drop :
    (start : ℕ) (runes : List ℕ)
    → slice start (window_end start (length runes)) runes ++ drop (start + max_chunk_runes) runes
      ≡ drop start runes
slice-drop start runes = elim (Bool-cases (ltb (length runes) (start + max_chunk_runes))) [
  | inl last ↦
      let size = length-drop start runes in
      rw
        (
          last,
          take-all (length runes - start) (drop start runes) (omega (arith, size)),
          drop-all (start + max_chunk_runes) runes (ground (arith, last)),
          append-nil,
        )
        refl
  | inr more ↦
      let width : start + max_chunk_runes - start ≡ max_chunk_runes = omega arith in
      rw (more, width, ← drop-drop start max_chunk_runes runes)
        (take-drop max_chunk_runes (drop start runes))
]

length-take {ℓ} : {A : Type ℓ} (n : ℕ) (xs : List A) → n ≤ length xs → length (take n xs) ≡ n
length-take zero xs h = refl
length-take (suc n) [] h = absurd (omega (arith, h))
length-take (suc n) (x ∷ xs) h = ap suc (length-take n xs (omega (arith, h)))

abbrev pub IsWindow : List ℕ → Type 0
IsWindow w = (1 ≤ length w) × (length w ≤ max_chunk_runes)

-- The rounds of the loop are enough where there is one for each rune: the windows are the runes from `start` on.
pub joined-windows :
    (fuel start : ℕ) (runes : List ℕ)
    → length runes ≤ start + fuel
    → joined (windows fuel start runes) ≡ drop start runes
unfolding windows
joined-windows zero start runes h = sym (drop-all start runes (omega (arith, h)))
joined-windows (suc fuel) start runes h = elim (Bool-cases (ltb start (length runes))) [
  | inr n ↦ rw n (sym (drop-all start runes (ground (arith, n))))
  | inl m ↦
      rw (m, joined-windows fuel (start + max_chunk_runes) runes (omega (arith, h)))
        (slice-drop start runes)
]

slice-IsWindow :
    (start : ℕ) (runes : List ℕ)
    → ltb start (length runes) ≡ true
    → IsWindow (slice start (window_end start (length runes)) runes)
slice-IsWindow start runes m = elim (Bool-cases (ltb (length runes) (start + max_chunk_runes))) [
  | inl last ↦
      let size = length-drop start runes in
      let width = length-take (length runes - start) (drop start runes) (omega (arith, size)) in
      rw (last, width) (ground (arith, m), ground (arith, last))
  | inr more ↦
      let size = length-drop start runes in
      let width =
        length-take (start + max_chunk_runes - start) (drop start runes)
          (ground (arith, size, more)) in
      rw (more, width) (omega arith, omega arith)
]

-- Each window has a rune, and no more than the limit.
pub windows-IsWindow : (fuel start : ℕ) (runes : List ℕ) → All IsWindow (windows fuel start runes)
unfolding windows
windows-IsWindow zero start runes = tt
windows-IsWindow (suc fuel) start runes = elim (Bool-cases (ltb start (length runes))) [
  | inr n ↦ rw n tt
  | inl m ↦
      rw m (slice-IsWindow start runes m, windows-IsWindow fuel (start + max_chunk_runes) runes)
]
