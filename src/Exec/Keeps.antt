-- ===== src/Exec/Keeps.antt =====
-- Code that leaves a part of the state as it was, whether it succeeds or fails.
use go_tahu_okf_semantic_mcp.Prelude.{◌≡◌, refl, ◌∙◌}
use go_tahu_okf_semantic_mcp.Exec.{Result, ok, err, Exec, continue, ◌>>=◌, attempt, lift}

module _ {S V : Type 0} (view : S → V) where
  abbrev pub Keeps : {A : Type 0} → Exec S A → Type 0
  Keeps m = (s : S) → view (m s).1 ≡ view s

  pub Keeps-lift : {A : Type 0} (r : Result A) → Keeps (lift r)
  Keeps-lift r s = refl

  Keeps-continue :
      {A B : Type 0} (r : Result A) (f : A → Exec S B) (s : S)
      → ((a : A) → Keeps (f a))
      → view (continue r f s).1 ≡ view s
  Keeps-continue (ok a) f s h = h a s
  Keeps-continue (err e) f s h = refl

  pub Keeps-bind :
      {A B : Type 0} (m : Exec S A) (f : A → Exec S B)
      → Keeps m
      → ((a : A) → Keeps (f a))
      → Keeps (m >>= f)
  Keeps-bind m f h k s = Keeps-continue (m s).0 f (m s).1 k ∙ h s

  pub Keeps-attempt :
      {A B : Type 0} (m : Exec S A) (f : Result A → Exec S B)
      → Keeps m
      → ((r : Result A) → Keeps (f r))
      → Keeps (attempt m f)
  Keeps-attempt m f h k s = k (m s).0 (m s).1 ∙ h s
