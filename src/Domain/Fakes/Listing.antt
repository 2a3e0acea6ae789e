-- ===== src/Domain/Fakes/Listing.antt =====
-- What List of the fake of the node repository answers with.
use go_tahu_okf_semantic_mcp.Prelude.{
  ◌≡◌, ◌≢◌, subst, ◌↔◌, refl, sym, ap, ◌∙◌, true, none, [], ◌∷◌, ◌++◌, length, drop, append_assoc,
  arith, Bytes, Bool-cases, inl, inr, str_eq, str_eq_iff,
}
use mathlib.Core.List.{Memᴰ}
use go_tahu_okf_semantic_mcp.Go.Strings.{
  has_prefix, has_prefix-append, has_prefix_sound, trim_prefix, trim_prefix_found,
}
use go_tahu_okf_semantic_mcp.Go.Map.{Map, lookup}
use go_tahu_okf_semantic_mcp.Domain.Ref.{ConceptRef, ref_string}
use go_tahu_okf_semantic_mcp.Domain.Types.{Concept}
use go_tahu_okf_semantic_mcp.Domain.Fakes.{key, refs_under}

has_prefix-same : (x p s : Bytes) → has_prefix (x ++ p) (x ++ s) ≡ has_prefix p s
unfolding has_prefix
has_prefix-same [] p s = refl
has_prefix-same (c ∷ x) p s = ground (arith, has_prefix-same x p s)

has_prefix-byte : (p s : Bytes) → has_prefix (b':' ∷ p) (b':' ∷ s) ≡ has_prefix p s
unfolding has_prefix
has_prefix-byte p s = ground arith

has_prefix-key : (a p s : Bytes) → has_prefix (key a p) (key a s) ≡ has_prefix p s
has_prefix-key a p s = has_prefix-same a (b':' ∷ p) (b':' ∷ s) ∙ has_prefix-byte p s

behind-key : (a p q : Bytes) → key a p ≡ key a [] ++ q → p ≡ q
behind-key [] p q h = cc
behind-key (c ∷ a) p q h = let h' : key a p ≡ key a [] ++ q = cc in behind-key a p q h'

has_prefix-nil : (s : Bytes) → has_prefix s [] ≡ true
unfolding has_prefix
has_prefix-nil s = refl

trim_prefix-key : (a p : Bytes) → trim_prefix (key a p) (key a []) ≡ p
trim_prefix-key a p = sym (
    behind-key a p (trim_prefix (key a p) (key a []))
      (trim_prefix_found (key a p) (key a []) (has_prefix-key a p [] ∙ has_prefix-nil p)))

-- A key that begins with `alias + ":" + sub` is that of a path that begins with `sub`.
key_found :
    (a sub k : Bytes)
    → has_prefix k (key a sub) ≡ true
    → ((p : Bytes) × (k ≡ key a p) × (has_prefix p sub ≡ true))
key_found a sub k h =
    let rest = drop (length (key a sub)) k in
    (
      sub ++ rest,
      has_prefix_sound k (key a sub) h ∙ append_assoc a (b':' ∷ sub) rest,
      has_prefix-append sub rest,
    )

abbrev pub IsUnder : Bytes → Bytes → Map Concept → ConceptRef → Type 0
IsUnder alias sub m r =
    (r.bundle_alias ≡ alias)
    × (has_prefix r.relative_path sub ≡ true)
    × (lookup (ref_string r) m ≢ none)

IsUnder-later :
    (alias sub k : Bytes) (c : Concept) (m : Map Concept) (r : ConceptRef)
    → IsUnder alias sub m r
    → IsUnder alias sub ((k, c) ∷ m) r
unfolding lookup
IsUnder-later alias sub k c m r (e, p, h) = (
  e,
  p,
  elim (Bool-cases (str_eq k (ref_string r))) [
    | inl same ↦ rw same (λ n. cc n)
    | inr other ↦ rw other h
  ],
)

IsUnder-first :
    (alias sub k p : Bytes) (c : Concept) (m : Map Concept)
    → k ≡ key alias p
    → has_prefix p sub ≡ true
    → IsUnder alias sub ((k, c) ∷ m) (record { bundle_alias = alias; relative_path = p })
unfolding lookup ref_string
IsUnder-first alias sub k p c m e h =
    let same : str_eq k (key alias p) ≡ true = (str_eq_iff k (key alias p)).1 e in
    (refl, h, rw same (λ n. cc n))

-- The reference that List makes of a key.
shown_key : (alias k p : Bytes) → k ≡ key alias p → trim_prefix k (key alias []) ≡ p
shown_key alias k p e = ap (λ x. trim_prefix x (key alias [])) e ∙ trim_prefix-key alias p

refs_under_sound :
    (alias sub : Bytes) (m : Map Concept) (r : ConceptRef)
    → Memᴰ r (refs_under alias sub m)
    → IsUnder alias sub m r
unfolding refs_under
refs_under_sound alias sub [] r h = elim h [ ]
refs_under_sound alias sub ((k, c) ∷ m) r h = elim (Bool-cases (has_prefix k (key alias sub))) [
  | inr other ↦ IsUnder-later alias sub k c m r (refs_under_sound alias sub m r (rw other at h))
  | inl begins ↦
      let (p, e, under) = key_found alias sub k begins in
      elim (rw begins at h) [
        | Memᴰ.tail later ↦ IsUnder-later alias sub k c m r (refs_under_sound alias sub m r later)
        | Memᴰ.head this ↦
            subst (IsUnder alias sub ((k, c) ∷ m))
              (sym (
                this
                ∙ ap (λ q. record { bundle_alias = alias; relative_path = q })
                    (shown_key alias k p e)))
              (IsUnder-first alias sub k p c m e under)
      ]
]

refs_under_complete :
    (alias sub p : Bytes) (m : Map Concept)
    → has_prefix p sub ≡ true
    → lookup (key alias p) m ≢ none
    → Memᴰ (record { bundle_alias = alias; relative_path = p }) (refs_under alias sub m)
unfolding refs_under lookup
refs_under_complete alias sub p [] under h = absurd (h refl)
refs_under_complete alias sub p ((k, c) ∷ m) under h = elim (Bool-cases (str_eq k (key alias p))) [
  | inl same ↦
      let e : k ≡ key alias p = (str_eq_iff k (key alias p)).0 same in
      let begins : has_prefix k (key alias sub) ≡ true =
        ap (λ x. has_prefix x (key alias sub)) e ∙ has_prefix-key alias p sub ∙ under in
      rw begins (
        Memᴰ.head (
          ap (λ q. record { bundle_alias = alias; relative_path = q })
            (sym (shown_key alias k p e))))
  | inr other ↦
      let later = refs_under_complete alias sub p m under (rw other at h) in
      elim (Bool-cases (has_prefix k (key alias sub))) [
        | inl begins ↦ rw begins (Memᴰ.tail later)
        | inr ends ↦ rw ends later
      ]
]

-- List of the fake node repository answers with exactly the references of the bundle that have a concept and a path that
-- begins with the given one, as a text and not as a directory.
pub refs_under_iff :
    (alias sub : Bytes) (m : Map Concept) (r : ConceptRef)
    → Memᴰ r (refs_under alias sub m) ↔ IsUnder alias sub m r
unfolding ref_string
refs_under_iff alias sub m r = (
  refs_under_sound alias sub m r,
  λ h.
      let whole : record { bundle_alias = alias; relative_path = r.relative_path } ≡ r =
        ap (λ a. record { bundle_alias = a; relative_path = r.relative_path }) (sym h.0) in
      subst (λ q. Memᴰ q (refs_under alias sub m)) whole
        (refs_under_complete alias sub r.relative_path m h.1 (rw h.0 at h.2)),
)
