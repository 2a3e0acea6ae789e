-- ===== src/Okf/Resolver/Growth.antt =====
-- The resolver on a file system to which files and directories were added, and no symbolic links.
use go_tahu_okf_semantic_mcp.Prelude.{
  ◌≡◌, ◌≢◌, ◌⊎◌, refl, ap, sym, ◌∙◌, subst, inl, inr, Bool, true, false, List, [], ◌∷◌, ◌++◌,
  append_assoc, append-nil, Bytes, All, All-append,
}
use go_tahu_okf_semantic_mcp.Exec.{not_exist, Result, ok, err}
use go_tahu_okf_semantic_mcp.Exec.Try.{◌>>=◌, ◌>>◌, >>=-eq-ok}
use go_tahu_okf_semantic_mcp.Go.Map.{Map}
use go_tahu_okf_semantic_mcp.Go.Strings.{split-join}
use go_tahu_okf_semantic_mcp.Go.Path.{slash}
use go_tahu_okf_semantic_mcp.Go.Path.Clean.{IsPlain, root_path, All-Lacks}
use go_tahu_okf_semantic_mcp.Go.Path.Below.{join_path-plain, rel-below}
use go_tahu_okf_semantic_mcp.Okf.Resolver.{
  Links, guard_step, guard_components, sym_guard_new, bundle_root, canonical_root, contained_path,
  resolve_reserved,
}

-- Something is there.
abbrev pub IsThere : Links → Bytes → Type 0
IsThere l p = (b : Bool) × (l.lstat p ≡ ok b)

-- What was there is there, and is what it was; what was missing is no symbolic link. What was missing may be there now, or
-- not be reached, where a file came to lie above it.
pub record Grows (l l' : Links) : Type 0 where
  pub evals : (p real : Bytes) → l.eval_symlinks p ≡ ok real → l'.eval_symlinks p ≡ ok real
  pub lstats :
      (p : Bytes)
      → (l'.lstat p ≡ l.lstat p) ⊎ ((l.lstat p ≡ err not_exist) × (l'.lstat p ≢ ok true))

pub Grows-same : (l : Links) → Grows l l
Grows-same l = record { evals = λ p real h. h; lstats = λ p. inl refl }

pub Grows-trans : (l m n : Links) → Grows l m → Grows m n → Grows l n
Grows-trans l m n g h = record {
  evals = λ p real e. h.evals p real (g.evals p real e);
  lstats = λ p. elim (h.lstats p) [
    | inl e ↦ elim (g.lstats p) [ inl k ↦ inl (e ∙ k) | inr (a, k) ↦ inr (a, λ u. k (sym e ∙ u)) ]
    | inr (a, b) ↦ elim (g.lstats p) [ inl k ↦ inr (sym k ∙ a, b) | inr (c, k) ↦ inr (c, b) ]
  ];
}

-- What is there lies in a directory that is there, for absolute paths of plain names.
abbrev pub IsTree : Links → Type 0
IsTree l =
    (ds : List Bytes) (c : Bytes)
    → All IsPlain ds
    → IsPlain c
    → IsThere l (root_path (ds ++ c ∷ []))
    → IsThere l (root_path ds)

All-snoc : (ds : List Bytes) (c : Bytes) → All IsPlain ds → IsPlain c → All IsPlain (ds ++ c ∷ [])
All-snoc ds c h p = All-append IsPlain ds (c ∷ []) h (p, tt)

-- The directories above what is there are there.
IsThere-above :
    (l : Links) (tree : IsTree l) (cs ds : List Bytes)
    → All IsPlain ds
    → All IsPlain cs
    → IsThere l (root_path (ds ++ cs))
    → IsThere l (root_path ds)
IsThere-above l tree [] ds h k there = subst (λ x. IsThere l (root_path x)) (append-nil ds) there
IsThere-above l tree (c ∷ cs) ds h (p, k) there = tree ds c h p (
    IsThere-above l tree cs (ds ++ c ∷ []) (All-snoc ds c h p) k
      (subst (λ x. IsThere l (root_path x)) (sym (append_assoc ds (c ∷ []) cs)) there))

module _ (l l' : Links) (g : Grows l l') where
  guard_same-step :
      (p : Bytes) (r : Result (Unit {0}))
      → IsThere l p
      → guard_step l' (l'.lstat p) r ≡ guard_step l (l.lstat p) r
  guard_same-step p r (b, there) = elim (g.lstats p) [
    | inl e ↦ rw e refl
    | inr (m, _) ↦ absurd (cc (m, there))
  ]

  -- The walk to what was there comes to what it came to.
  guard_components-same :
      (tree : IsTree l) (cs ds : List Bytes)
      → All IsPlain ds
      → All IsPlain cs
      → IsThere l (root_path (ds ++ cs))
      → guard_components l' (root_path ds) cs ≡ guard_components l (root_path ds) cs
  unfolding guard_components
  guard_components-same tree [] ds h k there = refl
  guard_components-same tree (c ∷ cs) ds h (p, k) there =
      let ds' = ds ++ c ∷ [] in
      let h' = All-snoc ds c h p in
      let there' = subst (λ x. IsThere l (root_path x)) (sym (append_assoc ds (c ∷ []) cs)) there in
      rw (join_path-plain ds c h p) (
        guard_same-step (root_path ds') _ (IsThere-above l tree cs ds' h' k there')
        ∙ ap (guard_step l (l.lstat (root_path ds')))
            (guard_components-same tree cs ds' h' k there'))

  -- A directory that the walk of the old file system has come to, or that was missing.
  abbrev IsPassed : List Bytes → List Bytes → Type 0
  IsPassed ds cs = (guard_components l (root_path ds) cs ≡ ok tt) ⊎ (IsThere l (root_path ds) → ⊥)

  passed_step :
      (p : Bytes) (b : Bool) (r : Result (Unit {0}))
      → l'.lstat p ≡ ok b
      → (guard_step l (l.lstat p) r ≡ ok tt) ⊎ (IsThere l p → ⊥)
      → (b ≡ false) × ((r ≡ ok tt) ⊎ (IsThere l p → ⊥))
  passed_step p true r there (inl h) = elim (g.lstats p) [
    | inl e ↦ let was : l.lstat p ≡ ok true = sym e ∙ there in absurd (cc (rw was at h))
    | inr (_, n) ↦ absurd (n there)
  ]
  passed_step p true r there (inr m) = elim (g.lstats p) [
    | inl e ↦ absurd (m (true, sym e ∙ there))
    | inr (_, n) ↦ absurd (n there)
  ]
  passed_step p false r there (inl h) = elim (g.lstats p) [
    | inl e ↦ let was : l.lstat p ≡ ok false = sym e ∙ there in (refl, inl (rw was at h))
    | inr (m, _) ↦ (refl, inr λ (b, w). cc (m, w))
  ]
  passed_step p false r there (inr m) = (refl, inr m)

  missing_below :
      (tree : IsTree l) (ds : List Bytes) (c : Bytes) (cs : List Bytes)
      → All IsPlain ds
      → IsPlain c
      → IsPassed ds (c ∷ cs)
      → (guard_step l
            (l.lstat (root_path (ds ++ c ∷ [])))
            (guard_components l (root_path (ds ++ c ∷ [])) cs)
          ≡ ok tt)
        ⊎ (IsThere l (root_path (ds ++ c ∷ [])) → ⊥)
  unfolding guard_components
  missing_below tree ds c cs h p (inl e) = inl (rw (join_path-plain ds c h p) at e)
  missing_below tree ds c cs h p (inr m) = inr λ there. m (tree ds c h p there)

  -- The walk to what has come to be there passes, where it passed before.
  guard_components-passes :
      (tree : IsTree l) (tree' : IsTree l') (cs ds : List Bytes)
      → All IsPlain ds
      → All IsPlain cs
      → IsPassed ds cs
      → IsThere l' (root_path (ds ++ cs))
      → guard_components l' (root_path ds) cs ≡ ok tt
  unfolding guard_components
  guard_components-passes tree tree' [] ds h k passed there = refl
  guard_components-passes tree tree' (c ∷ cs) ds h (p, k) passed there =
      let ds' = ds ++ c ∷ [] in
      let h' = All-snoc ds c h p in
      let there' =
        subst (λ x. IsThere l' (root_path x)) (sym (append_assoc ds (c ∷ []) cs)) there in
      let (b, is) = IsThere-above l' tree' cs ds' h' k there' in
      let (plain, passed') =
        passed_step (root_path ds') b (guard_components l (root_path ds') cs) is
          (missing_below tree ds c cs h p passed) in
      rw (join_path-plain ds c h p, is, plain)
        (guard_components-passes tree tree' cs ds' h' k passed' there')

-- The guard of a path below a canonical root, part by part.
sym_guard_new-below :
    (l : Links) (rs us : List Bytes)
    → us ≢ []
    → All IsPlain rs
    → All IsPlain us
    → sym_guard_new l (root_path (rs ++ us)) (root_path rs) ≡ guard_components l (root_path rs) us
unfolding sym_guard_new
sym_guard_new-below l rs us n h k =
    rw (rel-below rs us n h (All-append IsPlain rs us h k), split-join us slash n (All-Lacks us k))
      refl

module _ (l l' : Links) (g : Grows l l') (tree : IsTree l) (rs us : List Bytes) (n : us ≢ [])
    (h : All IsPlain rs) (k : All IsPlain us) where
  pub sym_guard_new-same :
      IsThere l (root_path (rs ++ us))
      → sym_guard_new l' (root_path (rs ++ us)) (root_path rs)
        ≡ sym_guard_new l (root_path (rs ++ us)) (root_path rs)
  sym_guard_new-same there =
      sym_guard_new-below l' rs us n h k
      ∙ guard_components-same l l' g tree us rs h k there
      ∙ sym (sym_guard_new-below l rs us n h k)

  pub sym_guard_new-passes :
      IsTree l'
      → IsThere l' (root_path (rs ++ us))
      → sym_guard_new l (root_path (rs ++ us)) (root_path rs) ≡ ok tt
      → sym_guard_new l' (root_path (rs ++ us)) (root_path rs) ≡ ok tt
  sym_guard_new-passes tree' there passed =
      sym_guard_new-below l' rs us n h k
      ∙ guard_components-passes l l' g tree tree' us rs h k
          (inl (sym (sym_guard_new-below l rs us n h k) ∙ passed)) there

-- The resolver of reserved files behind its root.
pub resolve_reserved-rooted :
    (l : Links) (roots : Map Bytes) (alias p canon : Bytes)
    → canonical_root l roots alias ≡ ok canon
    → resolve_reserved l roots alias p
      ≡ (contained_path canon p >>= λ q. sym_guard_new l q canon >> ok q)
unfolding resolve_reserved
resolve_reserved-rooted l roots alias p canon h = rw h refl

pub canonical_root-Grows :
    (l l' : Links) (roots : Map Bytes) (alias canon : Bytes)
    → Grows l l'
    → canonical_root l roots alias ≡ ok canon
    → canonical_root l' roots alias ≡ ok canon
unfolding canonical_root bundle_root
canonical_root-Grows l l' roots alias canon g h =
    let (root, found, evaluated) = >>=-eq-ok (bundle_root l roots alias) l.eval_symlinks canon h in
    rw found (g.evals root canon evaluated)
