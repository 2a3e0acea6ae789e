-- ===== src/UseCase/Bundle/Uniqueness.antt =====
-- AddBundle against the registry: aliases and root paths stay unique.
use go_tahu_okf_semantic_mcp.Prelude.{
  ◌≡◌, ◌≢◌, refl, sym, ◌∙◌, subst, Bool, true, false, [], ◌∷◌, ◌++◌, List, arith, Bytes, All,
  str_eq_iff,
}
use go_tahu_okf_semantic_mcp.Exec.{
  Error, not_found, not_exist, Result, ok, err, Exec, continue, lift,
}
use go_tahu_okf_semantic_mcp.Exec.Keeps.{Keeps, Keeps-bind, Keeps-attempt}
use go_tahu_okf_semantic_mcp.Domain.Types.{BundleEntry}
use go_tahu_okf_semantic_mcp.UseCase.Bundle.{
  WalkStep, BundleService, has_md, md_required, root_taken, root_checked, check_root, alias_checked,
  check_alias, new_entry, register, unless_taken, add_bundle,
}

-- What AddBundle relies on of the registry, the disk and the clock: `entries t` are the entries of the
-- registry in the state `t`. Get says that there is no entry only if there is none of the alias, List
-- answers with all of them, a Put that succeeds adds an entry of a new alias, with no concepts counted, at the end and
-- one that fails changes nothing. No other call changes the entries, and any call may fail.
pub record IsBundleStore {S : Type 0} (s : BundleService S) (entries : S → List BundleEntry)
    : Type 0 where
  pub get_missing :
      (t : S) (a : Bytes)
      → (s.bundle_repository.get a t).0 ≡ err not_found
      → All (λ (b : BundleEntry). b.alias ≢ a) (entries t)
  pub get_keeps : (t : S) (a : Bytes) → entries (s.bundle_repository.get a t).1 ≡ entries t
  pub list_all :
      (t : S) (es : List BundleEntry) → (s.bundle_repository.list t).0 ≡ ok es → es ≡ entries t
  pub list_keeps : (t : S) → entries (s.bundle_repository.list t).1 ≡ entries t
  pub put_adds :
      (t : S) (e : BundleEntry)
      → e.concept_count ≡ 0
      → All (λ (b : BundleEntry). b.alias ≢ e.alias) (entries t)
      → (s.bundle_repository.put e t).0 ≡ ok tt
      → entries (s.bundle_repository.put e t).1 ≡ entries t ++ e ∷ []
  pub put_fails :
      (t : S) (e : BundleEntry) (x : Error)
      → (s.bundle_repository.put e t).0 ≡ err x
      → entries (s.bundle_repository.put e t).1 ≡ entries t
  pub stat_keeps : (t : S) (p : Bytes) → entries (s.disk.stat p t).1 ≡ entries t
  pub walk_keeps : (t : S) (p : Bytes) → entries (s.disk.walk p t).1 ≡ entries t
  pub now_keeps : (t : S) → entries (s.now t).1 ≡ entries t

-- No two entries have an alias or a root path in common.
abbrev pub Distinct : BundleEntry → BundleEntry → Type 0
Distinct e b = (b.alias ≢ e.alias) × (b.root_path ≢ e.root_path)

abbrev pub IsUnique : List BundleEntry → Type 0
IsUnique [] = Unit
IsUnique (e ∷ es) = All (Distinct e) es × IsUnique es

All-snoc :
    (P : BundleEntry → Type 0) (es : List BundleEntry) (e : BundleEntry)
    → All P es
    → P e
    → All P (es ++ e ∷ [])
All-snoc P [] e h p = (p, tt)
All-snoc P (b ∷ es) e (q, h) p = (q, All-snoc P es e h p)

IsUnique-snoc :
    (es : List BundleEntry) (e : BundleEntry)
    → IsUnique es
    → All (λ b. Distinct b e) es
    → IsUnique (es ++ e ∷ [])
IsUnique-snoc [] e h d = (tt, tt)
IsUnique-snoc (b ∷ es) e (p, h) (q, d) = (All-snoc (Distinct b) es e p q, IsUnique-snoc es e h d)

new-Distinct :
    (es : List BundleEntry) (e : BundleEntry)
    → All (λ (b : BundleEntry). b.alias ≢ e.alias) es
    → All (λ (b : BundleEntry). b.root_path ≢ e.root_path) es
    → All (λ b. Distinct b e) es
new-Distinct [] e h k = tt
new-Distinct (b ∷ es) e (p, h) (q, k) = ((λ x. p (sym x), λ x. q (sym x)), new-Distinct es e h k)

root_taken_sound :
    (root : Bytes) (es : List BundleEntry)
    → root_taken root es ≡ false
    → All (λ (b : BundleEntry). b.root_path ≢ root) es
unfolding root_taken
root_taken_sound root [] h = tt
root_taken_sound root (b ∷ es) h =
    ground (arith, str_eq_iff b.root_path root, root_taken_sound root es)

module _ {S : Type 0} (s : BundleService S) (entries : S → List BundleEntry)
    (store : IsBundleStore s entries) where
  -- The outcome of AddBundle from the entries `es`: the new entry at the end of a registry that had
  -- neither its alias nor its root path, or an error and the same entries.
  abbrev pub Added : Bytes → Bytes → List BundleEntry → Result BundleEntry × S → Type 0
  Added alias root es (ok e, t) =
      (entries t ≡ es ++ e ∷ [])
      × (e.alias ≡ alias)
      × (e.root_path ≡ root)
      × All (λ b. Distinct b e) es
  Added alias root es (err x, t) = entries t ≡ es

  Added-continue :
      {A : Type 0} (alias root : Bytes) (es : List BundleEntry) (r : Result A)
      (f : A → Exec S BundleEntry) (t : S)
      → entries t ≡ es
      → ((a : A) → r ≡ ok a → Added alias root es (f a t))
      → Added alias root es (continue r f t)
  Added-continue alias root es (ok a) f t h k = k a refl
  Added-continue alias root es (err e) f t h k = h

  root_checked-Keeps :
      (root : Bytes) (r : Result (Unit {0})) → Keeps entries (root_checked s root r)
  root_checked-Keeps root (ok _) t =
      let rest : List WalkStep → Exec S (Unit {0}) = λ steps. lift (md_required (has_md steps)) in
      Keeps-bind entries (s.disk.walk root) rest (λ u. store.walk_keeps u root) (λ steps u. refl) t
  root_checked-Keeps root (err not_exist) t = refl
  root_checked-Keeps root (err _) t = refl

  check_root-Keeps : (root : Bytes) → Keeps entries (check_root s root)
  unfolding check_root
  check_root-Keeps root =
      Keeps-attempt entries (s.disk.stat root) (root_checked s root) (λ t. store.stat_keeps t root)
        (root_checked-Keeps root)

  alias_checked-Keeps : (r : Result BundleEntry) → Keeps entries (alias_checked s r)
  alias_checked-Keeps (ok e) t = refl
  alias_checked-Keeps (err x) t = refl

  check_alias-Keeps : (a : Bytes) → Keeps entries (check_alias s a)
  unfolding check_alias
  check_alias-Keeps a =
      Keeps-attempt entries (s.bundle_repository.get a) (alias_checked s) (λ t. store.get_keeps t a)
        alias_checked-Keeps

  alias_checked-ok :
      (r : Result BundleEntry) (t : S) → (alias_checked s r t).0 ≡ ok tt → r ≡ err not_found
  alias_checked-ok (ok e) t h = absurd (cc h)
  alias_checked-ok (err not_found) t h = refl
  alias_checked-ok (err _) t h = absurd (cc h)

  check_alias-ok :
      (a : Bytes) (t : S)
      → (check_alias s a t).0 ≡ ok tt
      → All (λ (b : BundleEntry). b.alias ≢ a) (entries t)
  unfolding check_alias
  check_alias-ok a t h =
      store.get_missing t a
        (alias_checked-ok (s.bundle_repository.get a t).0 (s.bundle_repository.get a t).1 h)

  put-Added :
      (e : BundleEntry) (es : List BundleEntry) (t : S) (r : Result (Unit {0}))
      → (s.bundle_repository.put e t).0 ≡ r
      → e.concept_count ≡ 0
      → entries t ≡ es
      → All (λ (b : BundleEntry). b.alias ≢ e.alias) es
      → All (λ (b : BundleEntry). b.root_path ≢ e.root_path) es
      → Added e.alias e.root_path es
          (continue r (λ _ t'. (ok e, t')) (s.bundle_repository.put e t).1)
  put-Added e es t (ok tt) p c h k l = (
    subst (λ fs. entries (s.bundle_repository.put e t).1 ≡ fs ++ e ∷ []) h
        (store.put_adds t e c (subst (All λ (b : BundleEntry). b.alias ≢ e.alias) (sym h) k) p),
    refl,
    refl,
    new-Distinct es e k l,
  )
  put-Added e es t (err x) p c h k l = store.put_fails t e x p ∙ h

  register-Added :
      (alias root description : Bytes) (tags : List Bytes) (es : List BundleEntry) (t : S)
      → entries t ≡ es
      → All (λ (b : BundleEntry). b.alias ≢ alias) es
      → All (λ (b : BundleEntry). b.root_path ≢ root) es
      → Added alias root es (register s alias root description tags t)
  unfolding register new_entry
  register-Added alias root description tags es t h k l =
      Added-continue alias root es (s.now t).0 _ (s.now t).1 (store.now_keeps t ∙ h) λ time read.
        put-Added (new_entry s alias root description tags time) es (s.now t).1 _ refl refl
          (store.now_keeps t ∙ h) k l

  unless_taken-Added :
      (b : Bool) (alias root : Bytes) (es : List BundleEntry) (action : Exec S BundleEntry) (t : S)
      → entries t ≡ es
      → (b ≡ false → Added alias root es (action t))
      → Added alias root es (unless_taken s b action t)
  unless_taken-Added true alias root es action t h k = h
  unless_taken-Added false alias root es action t h k = k refl

  -- Over a registry that keeps to IsBundleStore, AddBundle returns the entry that it put at the end of the registry, which had neither its alias
  -- nor its root path, or it fails and leaves the registry as it was.
  pub add_bundle-Added :
      (alias root description : Bytes) (tags : List Bytes) (t : S)
      → Added alias root (entries t) (add_bundle s alias root description tags t)
  unfolding add_bundle
  add_bundle-Added alias root description tags t =
      let es = entries t in
      let t₁ = (check_root s root t).1 in
      let t₂ = (check_alias s alias t₁).1 in
      let t₃ = (s.bundle_repository.list t₂).1 in
      let same₁ = check_root-Keeps root t in
      let same₂ = check_alias-Keeps alias t₁ ∙ same₁ in
      let same₃ = store.list_keeps t₂ ∙ same₂ in
      Added-continue alias root es (check_root s root t).0 _ t₁ same₁ λ _ _.
        Added-continue alias root es (check_alias s alias t₁).0 _ t₂ same₂ λ _ unused.
          Added-continue alias root es (s.bundle_repository.list t₂).0 _ t₃ same₃ λ all listed.
            unless_taken-Added (root_taken root all) alias root es _ t₃ same₃ λ free.
              register-Added alias root description tags es t₃ same₃
                (subst (All λ (b : BundleEntry). b.alias ≢ alias) same₁
                  (check_alias-ok alias t₁ unused))
                (subst (All λ (b : BundleEntry). b.root_path ≢ root)
                  (store.list_all t₂ all listed ∙ same₂) (root_taken_sound root all free))

  Added-IsUnique :
      (alias root : Bytes) (es : List BundleEntry) (m : Result BundleEntry × S)
      → IsUnique es
      → Added alias root es m
      → IsUnique (entries m.1)
  Added-IsUnique alias root es (ok e, t) u h = subst IsUnique (sym h.0) (IsUnique-snoc es e u h.3)
  Added-IsUnique alias root es (err x, t) u h = subst IsUnique (sym h) u

  -- Over a registry that keeps to IsBundleStore, AddBundle keeps the aliases and the root paths of the registry unique.
  pub add_bundle-IsUnique :
      (alias root description : Bytes) (tags : List Bytes) (t : S)
      → IsUnique (entries t)
      → IsUnique (entries (add_bundle s alias root description tags t).1)
  add_bundle-IsUnique alias root description tags t u =
      Added-IsUnique alias root (entries t) (add_bundle s alias root description tags t) u
        (add_bundle-Added alias root description tags t)
