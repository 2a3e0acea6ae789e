-- ===== src/Okf/Resolver/Symlinks.antt =====
-- What symGuardNew accepts: no symbolic link on the way.
use go_tahu_okf_semantic_mcp.Prelude.{
  ◌≡◌, ◌↔◌, ◌⊎◌, refl, Bool, true, false, inl, inr, Option, none, some, List, [], ◌∷◌, Bytes, subst,
}
use go_tahu_okf_semantic_mcp.Exec.{not_exist, Result, ok, err}
use go_tahu_okf_semantic_mcp.Go.Strings.{split}
use go_tahu_okf_semantic_mcp.Go.Path.{slash, join_path, rel}
use go_tahu_okf_semantic_mcp.Okf.Resolver.{
  Links, guard_step, guard_components, guard_relative, sym_guard_new,
}

module _ (fs : Links) where
  -- The paths of the walk from a directory along components: each behind ones that exist and are no
  -- symbolic links.
  pub data Reached : Bytes → List Bytes → Bytes → Type 0 where
    first : {d c : Bytes} {cs : List Bytes} → Reached d (c ∷ cs) (join_path d c)
    later :
        {d c p : Bytes} {cs : List Bytes}
        → fs.lstat (join_path d c) ≡ ok false
        → Reached (join_path d c) cs p
        → Reached d (c ∷ cs) p

  -- A path is there and no symbolic link, or it is not there.
  abbrev pub NoLink : Bytes → Type 0
  NoLink p = (fs.lstat p ≡ ok false) ⊎ (fs.lstat p ≡ err not_exist)

  abbrev pub NoLinks : Bytes → List Bytes → Type 0
  NoLinks d cs = (p : Bytes) → Reached d cs p → NoLink p

  Reached-step :
      (d c : Bytes) (cs : List Bytes) (p : Bytes)
      → Reached d (c ∷ cs) p
      → (p ≡ join_path d c) ⊎ ((fs.lstat (join_path d c) ≡ ok false) × Reached (join_path d c) cs p)
  Reached-step d c cs p first = inl refl
  Reached-step d c cs p (later e r) = inr (e, r)

  Reached-nil : (d p : Bytes) → Reached d [] p → ⊥
  Reached-nil d p r = elim r [ ]

  guard_step_iff :
      (d c : Bytes) (cs : List Bytes) (r : Result Bool)
      → fs.lstat (join_path d c) ≡ r
      → (guard_components fs (join_path d c) cs ≡ ok tt) ↔ NoLinks (join_path d c) cs
      → (guard_step fs r (guard_components fs (join_path d c) cs) ≡ ok tt) ↔ NoLinks d (c ∷ cs)
  guard_step_iff d c cs (ok false) h rest = (
    λ g p r. elim (Reached-step d c cs p r) [ inl e ↦ rw e (inl h) | inr (e, q) ↦ rest.0 g p q ],
    λ f. rest.1 λ p r. f p (later h r),
  )
  guard_step_iff d c cs (ok true) h rest = (
    λ g. absurd (cc g),
    λ f. elim (f (join_path d c) first) [ inl e ↦ absurd (cc (h, e)) | inr e ↦ absurd (cc (h, e)) ],
  )
  guard_step_iff d c cs (err not_exist) h rest = (
    λ g p r. elim (Reached-step d c cs p r) [
      | inl e ↦ rw e (inr h)
      | inr (e, q) ↦ absurd (cc (h, e))
    ],
    λ f. refl,
  )
  guard_step_iff d c cs (err _) h rest = (
    λ g. absurd (cc g),
    λ f. elim (f (join_path d c) first) [ inl e ↦ absurd (cc (h, e)) | inr e ↦ absurd (cc (h, e)) ],
  )

  guard_components_iff :
      (d : Bytes) (cs : List Bytes) → (guard_components fs d cs ≡ ok tt) ↔ NoLinks d cs
  unfolding guard_components
  guard_components_iff d [] = (λ g p r. absurd (Reached-nil d p r), λ f. refl)
  guard_components_iff d (c ∷ cs) =
      guard_step_iff d c cs (fs.lstat (join_path d c)) refl
        (guard_components_iff (join_path d c) cs)

  guard_relative_iff :
      (root : Bytes) (o : Option Bytes)
      → (guard_relative fs root o ≡ ok tt)
        ↔ ((r : Bytes) × (o ≡ some r) × NoLinks root (split r slash))
  guard_relative_iff root none = (λ g. absurd (cc g), λ (r, e, f). absurd (cc e))
  guard_relative_iff root (some r) = (
    λ g. (r, refl, (guard_components_iff root (split r slash)).0 g),
    λ (q, e, f).
        let same : q ≡ r = cc e in
        (guard_components_iff root (split r slash)).1
          (subst (λ (x : Bytes). NoLinks root (split x slash)) same f),
  )

  -- symGuardNew accepts a path exactly if it lies below the root by a relative path on which no
  -- component is a symbolic link, up to the first that does not exist, and each can be examined.
  pub sym_guard_new_iff :
      (abs_path root : Bytes)
      → (sym_guard_new fs abs_path root ≡ ok tt) ↔ (
          (r : Bytes) × (rel root abs_path ≡ some r)
          × ((p : Bytes) → Reached root (split r slash) p → NoLink p))
  unfolding sym_guard_new
  sym_guard_new_iff abs_path root = guard_relative_iff root (rel root abs_path)
