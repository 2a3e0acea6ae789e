-- ===== src/Okf/Resolver/Containment.antt =====
-- What containedPath accepts: the paths strictly below the bundle root.
use mathlib.Core.List.{reverse}
use go_tahu_okf_semantic_mcp.Prelude.{
  ◌≡◌, ◌≢◌, ◌↔◌, refl, sym, ap, ◌∙◌, subst, true, Bool-cases, inl, inr, List, [], ◌∷◌, ◌++◌,
  append_assoc, Bytes, All, All-append_right, drop, length, if◌then◌else◌,
}
use go_tahu_okf_semantic_mcp.Exec.{ok, err, ok_injective, ok-ne-err, path_escape}
use go_tahu_okf_semantic_mcp.Go.Strings.{
  has_prefix, has_prefix-append, has_prefix_sound, has_suffix, has_suffix_byte, split, join,
  join-append, split-append_any, split-append, split-join, split-Lacks, split-ne-nil,
}
use go_tahu_okf_semantic_mcp.Go.Path.{slash, walk, print, clean, join_path}
use go_tahu_okf_semantic_mcp.Go.Path.Clean.{
  IsPlain, root_path, walk-IsPlain, join_path-root, clean-print, All-Lacks, reverse-IsPlain,
}
use go_tahu_okf_semantic_mcp.Okf.Resolver.{contained_path, with_sep}

-- The parts of a path below the root, read from the root part by part.
abbrev pub resolved : List Bytes → Bytes → List Bytes
resolved rs rel = reverse (walk true (split rel slash) (reverse rs))

split-root_path :
    (xs : List Bytes) → xs ≢ [] → All IsPlain xs → split (root_path xs) slash ≡ [] ∷ xs
split-root_path xs n h =
    split-append [] (join xs slash) slash tt
    ∙ ap (λ t. [] ∷ t) (split-join xs slash n (All-Lacks xs h))

plain_end : (ps : List Bytes) → All IsPlain (ps ++ [] ∷ []) → ⊥
plain_end [] (p, h) = p.nonempty refl
plain_end (q ∷ ps) (p, h) = plain_end ps h

no_last_slash : (rs ps : List Bytes) → All IsPlain rs → [] ∷ rs ≡ ps ++ [] ∷ [] → rs ≢ [] → ⊥
no_last_slash rs [] h e n = n (cc e)
no_last_slash rs (p ∷ ps) h e n =
    let tail_eq : rs ≡ ps ++ [] ∷ [] = cc e in plain_end ps (subst (All IsPlain) tail_eq h)

-- A root other than `/` gets a separator.
with_sep-root_path :
    (rs : List Bytes)
    → rs ≢ []
    → All IsPlain rs
    → with_sep (root_path rs) ≡ root_path rs ++ slash ∷ []
with_sep-root_path rs n h = elim (Bool-cases (has_suffix (root_path rs) (slash ∷ []))) [
  | inr m ↦ rw m
  | inl e ↦
      let (u, spells) = has_suffix_byte (root_path rs) slash e in
      absurd (
        no_last_slash rs (split u slash) h
          (sym (split-root_path rs n h)
            ∙ ap (λ t. split t slash) spells
            ∙ split-append_any u [] slash
            ∙ ap (λ t. split u slash ++ t) (unfold split in refl))
          n)
]

append-cons-ne-nil : (ps : List Bytes) (w : Bytes) (ws : List Bytes) → ps ++ w ∷ ws ≡ [] → ⊥
append-cons-ne-nil [] w ws e = cc e
append-cons-ne-nil (p ∷ ps) w ws e = cc e

below_parts :
    (rs xs ws : List Bytes)
    → rs ≢ []
    → ws ≢ []
    → split (root_path xs) slash ≡ [] ∷ (rs ++ ws)
    → All IsPlain xs
    → xs ≡ rs ++ ws
below_parts [] xs ws n m e h = absurd (n refl)
below_parts (r ∷ rs) [] [] n m e h = absurd (m refl)
below_parts (r ∷ rs) [] (w ∷ ws) n m e h =
    let root_parts : split (root_path []) slash ≡ [] ∷ [] ∷ [] = unfold split join in refl in
    let none_left : rs ++ w ∷ ws ≡ [] = cc (root_parts, e) in
    absurd (append-cons-ne-nil rs w ws none_left)
below_parts (r ∷ rs) (x ∷ xs) ws n m e h =
    let whole = sym (split-root_path (x ∷ xs) (λ k. cc k) h) ∙ e in cc whole

module _ (rs : List Bytes) (n : rs ≢ []) (h : All IsPlain rs) (rel : Bytes) where
  resolved-IsPlain : All IsPlain (resolved rs rel)
  resolved-IsPlain =
      reverse-IsPlain _
        (walk-IsPlain (split rel slash) (reverse rs) (split-Lacks rel slash) (reverse-IsPlain rs h))

  cleaned_path : clean (join_path (root_path rs) rel) ≡ root_path (resolved rs rel)
  cleaned_path = rw (join_path-root rs rel h) (
      clean-print _
        (walk-IsPlain (split rel slash) (reverse rs) (split-Lacks rel slash) (reverse-IsPlain rs h))
      ∙ unfold print in refl)

  -- The test of containedPath on the parts.
  prefix_below :
      has_prefix (root_path (resolved rs rel)) (root_path rs ++ slash ∷ []) ≡ true
      → (us : List Bytes) × (us ≢ []) × (resolved rs rel ≡ rs ++ us)
  prefix_below e =
      let w = drop (length (root_path rs ++ slash ∷ [])) (root_path (resolved rs rel)) in
      let found = has_prefix_sound (root_path (resolved rs rel)) (root_path rs ++ slash ∷ []) e in
      let parts_eq : split (root_path (resolved rs rel)) slash ≡ [] ∷ (rs ++ split w slash) =
        ap (λ t. split t slash) (found ∙ append_assoc (root_path rs) (slash ∷ []) w)
        ∙ split-append_any (root_path rs) w slash
        ∙ ap (λ t. t ++ split w slash) (split-root_path rs n h) in
      (
        split w slash,
        split-ne-nil w slash,
        below_parts rs (resolved rs rel) (split w slash) n (split-ne-nil w slash) parts_eq
            resolved-IsPlain,
      )

  below_prefix :
      (us : List Bytes)
      → us ≢ []
      → resolved rs rel ≡ rs ++ us
      → has_prefix (root_path (resolved rs rel)) (root_path rs ++ slash ∷ []) ≡ true
  below_prefix us m e = rw e (
      rw
        (ap (λ t. slash ∷ t) (join-append rs us slash n m)
          ∙ sym (append_assoc (root_path rs) (slash ∷ []) (join us slash)))
        (has_prefix-append (root_path rs ++ slash ∷ []) (join us slash)))

  contained_path_lem : contained_path (root_path rs) rel ≡ (
      if has_prefix (root_path (resolved rs rel)) (root_path rs ++ slash ∷ [])
      then ok (root_path (resolved rs rel))
      else err path_escape)
  unfolding contained_path
  contained_path_lem = rw (cleaned_path, with_sep-root_path rs n h)

  IsPlain-below : (us : List Bytes) → resolved rs rel ≡ rs ++ us → All IsPlain us
  IsPlain-below us e = All-append_right IsPlain rs us (subst (All IsPlain) e resolved-IsPlain)

  -- Below a canonical root other than `/`, containedPath accepts exactly the relative paths whose
  -- parts, read one by one from the root (`.` and empty parts skipped, `..` going up, at `/` staying
  -- there), end at one or more plain names below the root, and it returns that path.
  pub contained_path_iff :
      (q : Bytes)
      → (contained_path (root_path rs) rel ≡ ok q) ↔ (
          (us : List Bytes) × (us ≢ [])
          × All IsPlain us
          × (resolved rs rel ≡ rs ++ us)
          × (q ≡ root_path (rs ++ us)))
  contained_path_iff q = (
    λ k. elim (Bool-cases (has_prefix (root_path (resolved rs rel)) (root_path rs ++ slash ∷ []))) [
      | inl t ↦
          let (us, m, e) = prefix_below t in
          let same = ok_injective _ q (rw (contained_path_lem, t) at k) in
          (us, m, IsPlain-below us e, e, sym same ∙ ap root_path e)
      | inr f ↦ absurd (ok-ne-err q _ (sym (rw (contained_path_lem, f) at k)))
    ],
    λ (us, m, plain, e, same).
        rw (contained_path_lem, below_prefix us m e, same) (ap (λ t. ok (root_path t)) e),
  )
