-- ===== src/Exec/Maintains.antt =====
-- Code that keeps a predicate of the state, whether it succeeds or fails.
use go_tahu_okf_semantic_mcp.Exec.{Result, ok, err, Exec, continue, ◌>>=◌, ◌>>◌, lift}

module _ {S : Type 0} (P : S → Type 0) where
  abbrev pub Maintains : {A : Type 0} → Exec S A → Type 0
  Maintains m = (s : S) → P s → P (m s).1

  pub Maintains-lift : {A : Type 0} (r : Result A) → Maintains (lift r)
  Maintains-lift r s h = h

  Maintains-continue :
      {A B : Type 0} (r : Result A) (f : A → Exec S B) (s : S)
      → ((a : A) → Maintains (f a))
      → P s
      → P (continue r f s).1
  Maintains-continue (ok a) f s k h = k a s h
  Maintains-continue (err e) f s k h = h

  pub Maintains-bind :
      {A B : Type 0} (m : Exec S A) (f : A → Exec S B)
      → Maintains m
      → ((a : A) → Maintains (f a))
      → Maintains (m >>= f)
  Maintains-bind m f h k s p = Maintains-continue (m s).0 f (m s).1 k (h s p)

  pub Maintains-then :
      {A B : Type 0} (m : Exec S A) (n : Exec S B) → Maintains m → Maintains n → Maintains (m >> n)
  Maintains-then m n h k = Maintains-bind m (λ _. n) h (λ _. k)
