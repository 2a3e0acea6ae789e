-- ===== src/Okf/Repository/Store.antt =====
-- FileNodeRepository as a store of reserved files, for the contract of WriteConcept.
pub mod Reads
pub mod Contract
pub mod Stored
use go_tahu_okf_semantic_mcp.Prelude.{
  ◌≡◌, ◌≢◌, refl, sym, ap, ◌∙◌, subst, Bool, true, false, Bool-cases, inl, inr, Option, none, some,
  [], ◌++◌, List, Bytes, str_eq, ltb, length, if◌then◌else◌, All, All-append,
}
use go_tahu_okf_semantic_mcp.Exec.{
  not_found, not_exist, Result, ok, err, Exec, continue, continue-ok, attempt, lift, ok_injective,
  ◌>>=◌, ◌>>◌,
}
use go_tahu_okf_semantic_mcp.Exec.Try
use go_tahu_okf_semantic_mcp.Go.Path.{dir, clean}
use go_tahu_okf_semantic_mcp.Go.Path.Clean.{IsPlain, root_path}
use go_tahu_okf_semantic_mcp.Go.Path.Below.{clean-root_path}
use go_tahu_okf_semantic_mcp.Go.Map.{Map}
use go_tahu_okf_semantic_mcp.Okf.Resolver.{
  canonical_root, contained_path, resolve_reserved, sym_guard_new,
}
use go_tahu_okf_semantic_mcp.Okf.Resolver.Containment.{contained_path_iff}
use go_tahu_okf_semantic_mcp.Okf.Resolver.Names.{resolve_reserved-parts}
use go_tahu_okf_semantic_mcp.Okf.Resolver.Growth.{
  Grows, Grows-same, Grows-trans, IsTree, IsThere, sym_guard_new-same, sym_guard_new-passes,
  resolve_reserved-rooted, canonical_root-Grows,
}
use go_tahu_okf_semantic_mcp.Okf.Repository.{
  FileSystem, max_file_bytes, size_checked, read_answer, read_reserved, write_reserved,
  check_file_size,
}
use go_tahu_okf_semantic_mcp.Okf.Repository.Reserved.{IsFiles}

-- What a file system keeps of its directories and links, and where the bundles lie. What is there lies in a directory that is
-- there, and a file that can be read is there. Writing a file or making directories makes no symbolic link and takes nothing
-- away, and a walk changes nothing. The root of a bundle is, without symbolic links, an absolute path other than `/`.
pub record IsStable {S : Type 0} (fs : FileSystem S) (roots : Map Bytes)
    (content : S → Bytes → Option Bytes) : Type 0 where
  pub tree : (t : S) → IsTree (fs.links t)
  pub there : (t : S) (p text : Bytes) → content t p ≡ some text → IsThere (fs.links t) p
  pub rooted :
      (t : S) (alias canon : Bytes)
      → canonical_root (fs.links t) roots alias ≡ ok canon
      → (rs : List Bytes) × (rs ≢ []) × All IsPlain rs × (canon ≡ root_path rs)
  pub mkdir_grows : (t : S) (d : Bytes) → Grows (fs.links t) (fs.links (fs.mkdir_all d t).1)
  pub write_grows :
      (t : S) (p text : Bytes) → Grows (fs.links t) (fs.links (fs.write_file p text t).1)
  pub walk_keeps : (t : S) (p : Bytes) → (fs.walk p t).1 ≡ t

-- A path below a canonical root, part by part.
pub record IsBelow (canon q : Bytes) : Type 0 where
  pub root : List Bytes
  pub rest : List Bytes
  pub below : rest ≢ []
  pub root_plain : All IsPlain root
  pub rest_plain : All IsPlain rest
  pub canon_is : canon ≡ root_path root
  pub is : q ≡ root_path (root ++ rest)

pub IsBelow-clean : (canon q : Bytes) → IsBelow canon q → clean q ≡ q
IsBelow-clean canon q b =
    let h = All-append IsPlain b.root b.rest b.root_plain b.rest_plain in
    rw b.is (clean-root_path (b.root ++ b.rest) h)

read_answer-ok : (r : Result Bytes) (text : Bytes) → read_answer r ≡ ok text → r ≡ ok text
read_answer-ok (ok u) text h = h
read_answer-ok (err not_exist) text h = absurd (cc h)
read_answer-ok (err _) text h = absurd (cc h)

module _ {S : Type 0} (fs : FileSystem S) (roots : Map Bytes) (content : S → Bytes → Option Bytes)
    (files : IsFiles fs content) (stable : IsStable fs roots content) where
  abbrev pub content_of : S → Result Bytes → Option Bytes
  content_of t (ok q) = content t q
  content_of t (err e) = none

  -- The file that a path of a bundle resolves to.
  abbrev pub file_at : S → Bytes → Bytes → Option Bytes
  file_at t alias p = content_of t (resolve_reserved (fs.links t) roots alias p)

  pub contained-IsBelow :
      (t : S) (alias canon p q : Bytes)
      → canonical_root (fs.links t) roots alias ≡ ok canon
      → contained_path canon p ≡ ok q
      → IsBelow canon q
  contained-IsBelow t alias canon p q rooted inside =
      let (rs, n, h, is) = stable.rooted t alias canon rooted in
      let (us, m, k, _, e) =
        (contained_path_iff rs n h p q).0 (ap (λ x. contained_path x p) (sym is) ∙ inside) in
      record {
        root = rs;
        rest = us;
        below = m;
        root_plain = h;
        rest_plain = k;
        canon_is = is;
        is = e;
      }

  -- ReadReserved behind the resolver.
  abbrev read_at : Bytes → Exec S Bytes
  read_at q = check_file_size fs roots q >> attempt (fs.read_file q) (λ r. lift (read_answer r))

  checked-Reads :
      (q : Bytes) (t : S) (r : Result (Unit {0}))
      → (continue r (λ _. attempt (fs.read_file q) λ x. lift (read_answer x)) (fs.size q t).1).1 ≡ t
  checked-Reads q t (ok u) = files.read_keeps (fs.size q t).1 q ∙ files.size_keeps t q
  checked-Reads q t (err e) = files.size_keeps t q

  read_at-Reads : (q : Bytes) (t : S) → (read_at q t).1 ≡ t
  unfolding check_file_size
  read_at-Reads q t = checked-Reads q t (size_checked (fs.size q t).0)

  read_at-ok :
      (q text : Bytes) (t : S) → clean q ≡ q → (read_at q t).0 ≡ ok text → content t q ≡ some text
  unfolding check_file_size
  read_at-ok q text t cleaned h =
      let read : Unit {0} → Exec S Bytes =
        λ _. attempt (fs.read_file q) λ r. lift (read_answer r) in
      let (u, _, h₁) =
        continue-ok (size_checked (fs.size q t).0) read (fs.size q t).1 text (read_at q t).1
          (ap (λ (r : Result Bytes). (r, (read_at q t).1)) h) in
      let answered =
        read_answer-ok (fs.read_file q (fs.size q t).1).0 text
          (ap (λ (m : Result Bytes × S). m.0) h₁) in
      files.read_is t q text cleaned
        (ap (λ s. (fs.read_file q s).0) (sym (files.size_keeps t q)) ∙ answered)

  read_at-missing :
      (q : Bytes) (t : S) (o : Option Bytes)
      → content t q ≡ o
      → (read_at q t).0 ≡ err not_found
      → o ≡ none
  unfolding check_file_size
  read_at-missing q t none is h = refl
  read_at-missing q t (some text) is h = elim (Bool-cases (ltb max_file_bytes (length text))) [
    | inl big ↦ absurd (cc (rw (files.size_found t q text is, big) at h))
    | inr fits ↦ absurd (
        cc (
          rw
            (files.size_found t q text is, fits, files.size_keeps t q, files.read_found t q text is)
            at h))
  ]

  -- What the read comes to where the resolver has answered.
  resolved-Reads : (r : Result Bytes) (t : S) → (continue r read_at t).1 ≡ t
  resolved-Reads (ok q) t = read_at-Reads q t
  resolved-Reads (err e) t = refl

  resolved-ok :
      (alias p text : Bytes) (t : S) (r : Result Bytes)
      → resolve_reserved (fs.links t) roots alias p ≡ r
      → (continue r read_at t).0 ≡ ok text
      → content_of t r ≡ some text
  resolved-ok alias p text t (err e) is h = absurd (cc h)
  resolved-ok alias p text t (ok q) is h =
      let (canon, rooted, inside, _) = resolve_reserved-parts (fs.links t) roots alias p q is in
      read_at-ok q text t
        (IsBelow-clean canon q (contained-IsBelow t alias canon p q rooted inside)) h

  resolved-missing :
      (t : S) (r : Result Bytes) → (continue r read_at t).0 ≡ err not_found → content_of t r ≡ none
  resolved-missing t (ok q) h = read_at-missing q t (content t q) refl h
  resolved-missing t (err e) h = refl

  pub read_reserved-Reads : (alias p : Bytes) (t : S) → (read_reserved fs roots alias p t).1 ≡ t
  unfolding read_reserved
  read_reserved-Reads alias p t = resolved-Reads (resolve_reserved (fs.links t) roots alias p) t

  pub read_reserved-ok :
      (alias p text : Bytes) (t : S)
      → (read_reserved fs roots alias p t).0 ≡ ok text
      → file_at t alias p ≡ some text
  unfolding read_reserved
  read_reserved-ok alias p text t h =
      resolved-ok alias p text t (resolve_reserved (fs.links t) roots alias p) refl h

  pub read_reserved-missing :
      (alias p : Bytes) (t : S)
      → (read_reserved fs roots alias p t).0 ≡ err not_found
      → file_at t alias p ≡ none
  unfolding read_reserved
  read_reserved-missing alias p t h =
      resolved-missing t (resolve_reserved (fs.links t) roots alias p) h

  -- What may have changed between two states: the file `q`, and directories.
  pub record Wrote (q : Bytes) (t t' : S) : Type 0 where
    pub grows : Grows (fs.links t) (fs.links t')
    pub keeps : (p : Bytes) → str_eq q p ≡ false → content t' p ≡ content t p

  pub written-Wrote :
      (q text : Bytes) (t : S) (r : Result (Unit {0}))
      → Wrote q t (continue r (λ _. fs.write_file q text) (fs.mkdir_all (dir q) t).1).1
  written-Wrote q text t (ok u) =
      let t₁ = (fs.mkdir_all (dir q) t).1 in
      record {
        grows =
            Grows-trans _ (fs.links t₁) _ (stable.mkdir_grows t (dir q))
              (stable.write_grows t₁ q text);
        keeps = λ p n. files.write_keeps t₁ q p text n ∙ files.mkdir_keeps t (dir q) p;
      }
  written-Wrote q text t (err e) = record {
    grows = stable.mkdir_grows t (dir q);
    keeps = λ p n. files.mkdir_keeps t (dir q) p;
  }

  guarded-none :
      (t : S) (g : Result (Unit {0})) (q : Bytes)
      → content t q ≡ none
      → content_of t (Try.◌>>◌ g (ok q)) ≡ none
  guarded-none t (ok u) q h = h
  guarded-none t (err e) q h = refl

  guarded-same :
      (t t' : S) (g : Result (Unit {0})) (q : Bytes)
      → content t' q ≡ content t q
      → content_of t' (Try.◌>>◌ g (ok q)) ≡ content_of t (Try.◌>>◌ g (ok q))
  guarded-same t t' (ok u) q h = h
  guarded-same t t' (err e) q h = refl

  -- A path that leads to another file has the content that it had, or is refused where it had none.
  guard-Wrote :
      (canon q' : Bytes) (t t' : S) (o : Option Bytes)
      → Grows (fs.links t) (fs.links t')
      → IsBelow canon q'
      → content t q' ≡ o
      → content t' q' ≡ content t q'
      → content_of t' (Try.◌>>◌ (sym_guard_new (fs.links t') q' canon) (ok q'))
        ≡ content_of t (Try.◌>>◌ (sym_guard_new (fs.links t) q' canon) (ok q'))
  guard-Wrote canon q' t t' none g b is same =
      guarded-none t' _ q' (same ∙ is) ∙ sym (guarded-none t _ q' is)
  guard-Wrote canon q' t t' (some text) g b is same =
      let there = stable.there t q' text is in
      let guards : sym_guard_new (fs.links t') q' canon ≡ sym_guard_new (fs.links t) q' canon =
        rw (b.is, b.canon_is)
          (sym_guard_new-same (fs.links t) (fs.links t') g (stable.tree t) b.root b.rest b.below
            b.root_plain b.rest_plain (subst (λ x. IsThere (fs.links t) x) b.is there)) in
      rw guards (guarded-same t t' (sym_guard_new (fs.links t) q' canon) q' same)

  inside-Wrote :
      (q alias p canon : Bytes) (t t' : S) (r : Result Bytes)
      → Wrote q t t'
      → canonical_root (fs.links t) roots alias ≡ ok canon
      → contained_path canon p ≡ r
      → ((q' : Bytes) → contained_path canon p ≡ ok q' → str_eq q q' ≡ false)
      → content_of t' (Try.◌>>=◌ r λ q'. Try.◌>>◌ (sym_guard_new (fs.links t') q' canon) (ok q'))
        ≡ content_of t (Try.◌>>=◌ r λ q'. Try.◌>>◌ (sym_guard_new (fs.links t) q' canon) (ok q'))
  inside-Wrote q alias p canon t t' (err e) w rooted is n = refl
  inside-Wrote q alias p canon t t' (ok q') w rooted is n =
      guard-Wrote canon q' t t' (content t q') w.grows
        (contained-IsBelow t alias canon p q' rooted is) refl (w.keeps q' (n q' is))

  -- A path of a bundle that leads to another file still has its content.
  pub file_at-Wrote :
      (q alias p canon : Bytes) (t t' : S)
      → Wrote q t t'
      → canonical_root (fs.links t) roots alias ≡ ok canon
      → ((q' : Bytes) → contained_path canon p ≡ ok q' → str_eq q q' ≡ false)
      → file_at t' alias p ≡ file_at t alias p
  file_at-Wrote q alias p canon t t' w rooted n =
      let rooted' =
        canonical_root-Grows (fs.links t) (fs.links t') roots alias canon w.grows rooted in
      ap (content_of t') (resolve_reserved-rooted (fs.links t') roots alias p canon rooted')
      ∙ inside-Wrote q alias p canon t t' (contained_path canon p) w rooted refl n
      ∙ ap (content_of t) (sym (resolve_reserved-rooted (fs.links t) roots alias p canon rooted))

  -- A path that resolved and whose file has been written still resolves to it.
  pub resolve_reserved-written :
      (alias p q text : Bytes) (t t' : S)
      → Wrote q t t'
      → resolve_reserved (fs.links t) roots alias p ≡ ok q
      → content t' q ≡ some text
      → resolve_reserved (fs.links t') roots alias p ≡ ok q
  resolve_reserved-written alias p q text t t' w resolves is =
      let (canon, rooted, inside, passed) =
        resolve_reserved-parts (fs.links t) roots alias p q resolves in
      let b = contained-IsBelow t alias canon p q rooted inside in
      let rooted' =
        canonical_root-Grows (fs.links t) (fs.links t') roots alias canon w.grows rooted in
      let passes : sym_guard_new (fs.links t') q canon ≡ ok tt =
        rw (b.is, b.canon_is)
          (sym_guard_new-passes (fs.links t) (fs.links t') w.grows (stable.tree t) b.root b.rest
            b.below b.root_plain b.rest_plain (stable.tree t')
            (subst (λ x. IsThere (fs.links t') x) b.is (stable.there t' q text is))
            (rw (b.is, b.canon_is) at passed)) in
      rw (resolve_reserved-rooted (fs.links t') roots alias p canon rooted', inside, passes) refl
