-- ===== src/Domain/Scope/RoundTrip.antt =====
-- ParseScope against the printed form of a scope that its comment gives.
use go_tahu_okf_semantic_mcp.Prelude.{
  ◌≡◌, ◌≢◌, ◌↔◌, refl, Option, none, some, [], ◌∷◌, ◌++◌, Bytes, codes, str_eq, str_eq_sound, sym,
  subst, Bool-cases, inl, inr,
}
use go_tahu_okf_semantic_mcp.Exec.{ok, ok_injective, ok-ne-err}
use go_tahu_okf_semantic_mcp.Go.Strings.{
  has_prefix, trim_prefix, trim_prefix_found, cut_byte, cut_byte-append, cut_byte_sound, Lacks,
}
use go_tahu_okf_semantic_mcp.Domain.Scope.{
  ScopeKind, global, bundle, path, Scope, colon, bundle_prefix, path_prefix, parse_path,
  parse_bundle, parse_scope,
}

-- What the fields of a scope of a kind hold: those that the kind uses are not empty, the others are
-- empty, and the alias of a path scope holds no colon.
abbrev pub IsKind : ScopeKind → Bytes → Bytes → Type 0
IsKind global a p = (a ≡ []) × (p ≡ [])
IsKind bundle a p = (a ≢ []) × (p ≡ [])
IsKind path a p = (a ≢ []) × (p ≢ []) × Lacks colon a

abbrev pub IsScope : Scope → Type 0
IsScope s = IsKind s.kind s.bundle_alias s.sub_path

-- The documented form of a scope.
abbrev print_kind : ScopeKind → Bytes → Bytes → Bytes
print_kind global a p = codes "global"
print_kind bundle a p = bundle_prefix ++ a
print_kind path a p = path_prefix ++ a ++ colon ∷ p

abbrev pub print_scope : Scope → Bytes
print_scope s = print_kind s.kind s.bundle_alias s.sub_path

parse-print_kind :
    (k : ScopeKind) (a p : Bytes)
    → IsKind k a p
    → parse_scope (print_kind k a p) ≡ ok (record { kind = k; bundle_alias = a; sub_path = p })
unfolding parse_scope trim_prefix has_prefix str_eq
parse-print_kind global a p (ea, ep) = rw (ea, ep)
parse-print_kind bundle [] p (na, ep) = absurd (na refl)
parse-print_kind bundle (c ∷ a) p (na, ep) = rw ep
parse-print_kind path [] p (na, np, l) = absurd (na refl)
parse-print_kind path (c ∷ a) [] (na, np, l) = absurd (np refl)
parse-print_kind path (c ∷ a) (d ∷ p) (na, np, l) =
    rw (cut_byte-append (c ∷ a) (d ∷ p) colon l, parse_path)

-- Every well-formed scope is read back from its documented form.
parse_scope-print_scope : (s : Scope) → IsScope s → parse_scope (print_scope s) ≡ ok s
parse_scope-print_scope s h = parse-print_kind s.kind s.bundle_alias s.sub_path h

abbrev Parsed : Bytes → Scope → Type 0
Parsed t s = IsScope s × (print_scope s ≡ t)

Parsed-path :
    (a p : Bytes) (s : Scope)
    → Lacks colon a
    → parse_path (some (a, p)) ≡ ok s
    → Parsed (path_prefix ++ a ++ colon ∷ p) s
unfolding parse_path
Parsed-path [] p s l h = absurd (cc h)
Parsed-path (c ∷ a) [] s l h = absurd (cc h)
Parsed-path (c ∷ a) (d ∷ p) s l h =
    subst (Parsed _) (ok_injective _ s h) (((λ e. cc e), (λ e. cc e), l), refl)

Parsed-cut :
    (t : Bytes) (s : Scope) (o : Option (Bytes × Bytes))
    → cut_byte t colon ≡ o
    → parse_path o ≡ ok s
    → Parsed (path_prefix ++ t) s
Parsed-cut t s none e h = unfold parse_path in absurd (cc h)
Parsed-cut t s (some (a, p)) e h =
    let (spells, l) = cut_byte_sound t a p colon e in rw spells (Parsed-path a p s l h)

Parsed-bundle : (a : Bytes) (s : Scope) → parse_bundle a ≡ ok s → Parsed (bundle_prefix ++ a) s
unfolding parse_bundle
Parsed-bundle [] s h = absurd (cc h)
Parsed-bundle (c ∷ a) s h = subst (Parsed _) (ok_injective _ s h) (((λ e. cc e), refl), refl)

-- What ParseScope accepts is a well-formed scope, in its documented form.
parse_scope_sound : (t : Bytes) (s : Scope) → parse_scope t ≡ ok s → IsScope s × (print_scope s ≡ t)
unfolding parse_scope
parse_scope_sound t s h = elim (Bool-cases (str_eq t (codes "global"))) [
  | inl g ↦
      rw (str_eq_sound t _ g) (subst (Parsed _) (ok_injective _ s (rw g at h)) ((refl, refl), refl))
  | inr n ↦ elim (Bool-cases (has_prefix t bundle_prefix)) [
    | inl b ↦
        subst (λ u. Parsed u s) (sym (trim_prefix_found t _ b)) (Parsed-bundle _ s (rw (n, b) at h))
    | inr m ↦ elim (Bool-cases (has_prefix t path_prefix)) [
      | inl p ↦
          subst (λ u. Parsed u s) (sym (trim_prefix_found t _ p))
            (Parsed-cut _ s _ refl (rw (n, m, p) at h))
      | inr o ↦ absurd (ok-ne-err s _ (sym (rw (n, m, o) at h)))
    ]
  ]
]

-- ParseScope reads a text as a scope exactly if the scope is well-formed and the text is its documented form.
pub parse_scope_iff :
    (t : Bytes) (s : Scope) → (parse_scope t ≡ ok s) ↔ (IsScope s × (print_scope s ≡ t))
parse_scope_iff t s = (
  parse_scope_sound t s,
  λ (h, e). subst (λ u. parse_scope u ≡ ok s) e (parse_scope-print_scope s h),
)
