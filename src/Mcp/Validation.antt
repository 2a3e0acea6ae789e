-- ===== src/Mcp/Validation.antt =====
-- internal/adapter/mcp/validation.go, and parseConceptRef of handlers.go.
use go_tahu_okf_semantic_mcp.Prelude.{
  ◌≡◌, ◌≢◌, ◌↔◌, ℕ, ◌^◌, refl, sym, Option, none, some, [], ◌∷◌, ◌++◌, List, arith, if◌then◌else◌,
  Bytes, length, ltb, subst,
}
use go_tahu_okf_semantic_mcp.Exec.{
  Result, ok, err, other, path_escape, input_too_large, ok_injective,
}
use go_tahu_okf_semantic_mcp.Go.Strings.{
  split, has_part, cut_byte, cut_byte-append, cut_byte_sound, is_empty, Lacks,
}
use go_tahu_okf_semantic_mcp.Go.Path.{slash, dot_dot}
use go_tahu_okf_semantic_mcp.Domain.Ref.{ConceptRef, ref_string, NoDotDot, All-has_part}

abbrev pub max_body_bytes : ℕ
max_body_bytes = 2 ^ 20

abbrev pub max_string_bytes : ℕ
max_string_bytes = 4096

-- The loop over the separators; the platform's separator is `/` too.
unfoldable pub validate_seps : List ℕ → Bytes → Result (Unit {0})
validate_seps [] rel_path = ok tt
validate_seps (sep ∷ seps) rel_path =
    let rest = validate_seps seps rel_path in
    if has_part (split rel_path sep) dot_dot then err path_escape else rest

unfoldable pub validate_path : Bytes → Result (Unit {0})
unfolding validate_seps
validate_path rel_path = validate_seps (slash ∷ slash ∷ []) rel_path

unfoldable pub validate_input_size : Bytes → ℕ → Result (Unit {0})
validate_input_size input max_bytes =
    if ltb max_bytes (length input) then err input_too_large else ok tt

-- `ref[:idx]` and `ref[idx+1:]` at the first colon, which must not be the first byte.
abbrev ref_of : Option (Bytes × Bytes) → Result ConceptRef
ref_of none = err (other "invalid concept ref")
ref_of (some (alias, path)) =
    if is_empty alias
    then err (other "invalid concept ref")
    else ok (record { bundle_alias = alias; relative_path = path })

unfoldable pub parse_concept_ref : Bytes → Result ConceptRef
parse_concept_ref ref = ref_of (cut_byte ref b':')

-- ValidatePath accepts exactly the paths with no `..` part.
pub validate_path_iff : (p : Bytes) → (validate_path p ≡ ok tt) ↔ NoDotDot p
unfolding validate_path
validate_path_iff p = (
  λ h. (All-has_part (split p slash) dot_dot).0 (ground arith),
  λ h. rw ((All-has_part (split p slash) dot_dot).1 h),
)

ref_of_sound :
    (t : Bytes) (r : ConceptRef) (o : Option (Bytes × Bytes))
    → cut_byte t b':' ≡ o
    → ref_of o ≡ ok r
    → (ref_string r ≡ t) × (r.bundle_alias ≢ []) × Lacks b':' r.bundle_alias
unfolding ref_string
ref_of_sound t r none e h = absurd (cc h)
ref_of_sound t r (some ([], p)) e h = absurd (cc h)
ref_of_sound t r (some (c ∷ a, p)) e h =
    let (spells, l) = cut_byte_sound t (c ∷ a) p b':' e in
    subst
      (λ (x : ConceptRef).
        (x.bundle_alias ++ b':' ∷ x.relative_path ≡ t)
        × (x.bundle_alias ≢ [])
        × Lacks b':' x.bundle_alias)
      (ok_injective _ r h) (sym spells, (λ k. cc k), l)

ref_of_alias :
    (a p : Bytes)
    → a ≢ []
    → ref_of (some (a, p)) ≡ ok (record { bundle_alias = a; relative_path = p })
ref_of_alias [] p n = absurd (n refl)
ref_of_alias (c ∷ a) p n = refl

-- A text is read as a reference exactly if it is the printed form of that reference and the alias
-- is not empty and holds no colon.
pub parse_concept_ref_iff :
    (t : Bytes) (r : ConceptRef)
    → (parse_concept_ref t ≡ ok r)
      ↔ ((ref_string r ≡ t) × (r.bundle_alias ≢ []) × Lacks b':' r.bundle_alias)
unfolding parse_concept_ref
parse_concept_ref_iff t r = (
  λ h. ref_of_sound t r _ refl h,
  λ (e, n, l).
      unfold ref_string in
      rw (← e) (rw (cut_byte-append r.bundle_alias r.relative_path b':' l) (ref_of_alias _ _ n)),
)
