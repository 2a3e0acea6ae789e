-- ===== src/Exec.antt =====
-- Errors (internal/domain/errors.go), and code that returns `(T, error)` and changes a state.
-- An error is what `errors.Is` sees through the wrappings: a sentinel, or an error of another kind
-- with a label for the place that made it. The message texts are not modelled.
pub mod Try
pub mod Keeps
pub mod Maintains
use go_tahu_okf_semantic_mcp.Prelude.{String, ◌≡◌, refl, ap, Bool, true, false}

pub data Error : Type 0 where
  not_found reserved_path missing_type path_escape : Error
  input_too_large duplicate_alias duplicate_path : Error
  -- os.ErrNotExist, and a run-time panic
  not_exist panic : Error
  other : String → Error

pub data Result {ℓ} (A : Type ℓ) : Type ℓ where
  ok : A → Result A
  err : Error → Result A

-- `errors.Is(err, domain.ErrNotFound)`
abbrev pub is_not_found : Error → Bool
is_not_found not_found = true
is_not_found _ = false

abbrev pub Exec : Type 0 → Type 0 → Type 0
Exec S A = S → Result A × S

module _ {S A : Type 0} where
  abbrev pub pure : A → Exec S A
  pure a s = (ok a, s)

  abbrev pub fail : Error → Exec S A
  fail e s = (err e, s)

  abbrev pub lift : Result A → Exec S A
  lift r s = (r, s)

module _ {S A B : Type 0} where
  abbrev pub continue : Result A → (A → Exec S B) → Exec S B
  continue (ok a) f s = f a s
  continue (err e) f s = (err e, s)

  infixl 10 ◌>>=◌ ◌>>◌
  abbrev pub ◌>>=◌ : Exec S A → (A → Exec S B) → Exec S B
  ◌>>=◌ m f s = let (r, s') = m s in continue r f s'

  abbrev pub ◌>>◌ : Exec S A → Exec S B → Exec S B
  ◌>>◌ m n s = let (r, s') = m s in continue r (λ _. n) s'

  -- `r, err := m(); if err != nil { … }` where the error is looked at and not returned.
  abbrev pub attempt : Exec S A → (Result A → Exec S B) → Exec S B
  attempt m f s = let (r, s') = m s in f r s'

pub ok_injective {ℓ} : {A : Type ℓ} (a b : A) → ok a ≡ ok b → a ≡ b
ok_injective a b h = cc

pub ok-ne-err {ℓ} : {A : Type ℓ} (a : A) (e : Error) → ok a ≡ err e → ⊥
ok-ne-err a e h = cc

-- What a chain that succeeds went through, and that one that fails at its first step stops there.
module _ {S A B : Type 0} where
  pub continue-ok :
      (r : Result A) (f : A → Exec S B) (s : S) (b : B) (t : S)
      → continue r f s ≡ (ok b, t)
      → (a : A) × (r ≡ ok a) × (f a s ≡ (ok b, t))
  continue-ok (ok a) f s b t h = (a, refl, h)
  continue-ok (err e) f s b t h = absurd (cc h)

  pub continue-err :
      (r : Result A) (f : A → Exec S B) (s : S) (e : Error)
      → r ≡ err e
      → continue r f s ≡ (err e, s)
  continue-err r f s e h = rw h refl

  -- The same with the states between the steps.
  pub bind-ok :
      (m : Exec S A) (f : A → Exec S B) (s t : S) (b : B)
      → (m >>= f) s ≡ (ok b, t)
      → (a : A) × (s₁ : S) × (m s ≡ (ok a, s₁)) × (f a s₁ ≡ (ok b, t))
  bind-ok m f s t b h =
      let (a, e, k) = continue-ok (m s).0 f (m s).1 b t h in
      (a, (m s).1, ap (λ (r : Result A). (r, (m s).1)) e, k)

  pub then-ok :
      (m : Exec S A) (n : Exec S B) (s t : S) (b : B)
      → (m >> n) s ≡ (ok b, t)
      → (a : A) × (s₁ : S) × (m s ≡ (ok a, s₁)) × (n s₁ ≡ (ok b, t))
  then-ok m n s t b h = bind-ok m (λ _. n) s t b h
