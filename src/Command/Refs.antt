-- ===== src/Command/Refs.antt =====
-- The references of `concept read` against those of the tools.
use go_tahu_okf_semantic_mcp.Prelude.{
  ℕ, codes, ◌≡◌, ◌≢◌, ◌↔◌, refl, sym, ◌∙◌, ap, subst, Option, none, some, false, [], ◌∷◌, ◌++◌,
  arith, Bytes,
}
use go_tahu_okf_semantic_mcp.Exec.{ok, ok_injective}
use go_tahu_okf_semantic_mcp.Go.Strings.{
  Lacks, has_prefix, cut_byte, cut_byte-append, cut_byte_sound,
}
use go_tahu_okf_semantic_mcp.Domain.Ref.{ConceptRef, ref_string}
use go_tahu_okf_semantic_mcp.Mcp.Validation.{parse_concept_ref, parse_concept_ref_iff}
use go_tahu_okf_semantic_mcp.Command.{ref_at, parse_ref_argument}

-- A reference that spells the text, whose alias is the first byte and bytes that are no colon.
abbrev IsArgument : Bytes → ConceptRef → Type 0
IsArgument t r =
    (c : ℕ) × (u : Bytes) × (ref_string r ≡ t) × (r.bundle_alias ≡ c ∷ u) × Lacks b':' u

IsArgument-sound :
    (c : ℕ) (s : Bytes) (r : ConceptRef) (o : Option (Bytes × Bytes))
    → cut_byte s b':' ≡ o
    → ref_at c o ≡ ok r
    → IsArgument (c ∷ s) r
unfolding ref_string
IsArgument-sound c s r none e h = absurd (cc h)
IsArgument-sound c s r (some (u, v)) e h =
    let (spells, lacks) = cut_byte_sound s u v b':' e in
    subst (IsArgument (c ∷ s)) (ok_injective _ r h)
      (c, u, ap (λ x. c ∷ x) (sym spells), refl, lacks)

parse_ref_argument_sound :
    (t : Bytes) (r : ConceptRef) → parse_ref_argument t ≡ ok r → IsArgument t r
unfolding parse_ref_argument
parse_ref_argument_sound [] r h = absurd (cc h)
parse_ref_argument_sound (c ∷ s) r h = IsArgument-sound c s r (cut_byte s b':') refl h

parse_ref_argument_complete :
    (c : ℕ) (u p : Bytes)
    → Lacks b':' u
    → parse_ref_argument (c ∷ u ++ b':' ∷ p)
      ≡ ok (record { bundle_alias = c ∷ u; relative_path = p })
unfolding parse_ref_argument
parse_ref_argument_complete c u p l = rw (cut_byte-append u p b':' l) refl

-- A text is read as a reference exactly if it is the printed form of that reference and the alias is a byte, which may be
-- a colon, and behind it no colon.
pub parse_ref_argument_iff :
    (t : Bytes) (r : ConceptRef) → (parse_ref_argument t ≡ ok r) ↔ IsArgument t r
unfolding ref_string
parse_ref_argument_iff t r = (
  parse_ref_argument_sound t r,
  λ (c, u, e, a, l).
      let whole : record { bundle_alias = c ∷ u; relative_path = r.relative_path } ≡ r =
        ap (λ x. record { bundle_alias = x; relative_path = r.relative_path }) (sym a) in
      subst (λ x. parse_ref_argument x ≡ ok r) e
        (subst (λ (q : ConceptRef). parse_ref_argument (ref_string q) ≡ ok q) whole
          (parse_ref_argument_complete c u r.relative_path l)),
)

no_colon_first : (c : ℕ) (s : Bytes) → has_prefix (c ∷ s) (codes ":") ≡ false → c ≢ b':'
unfolding has_prefix
no_colon_first c s h = ground arith

first_byte :
    (a : Bytes) → a ≢ [] → Lacks b':' a → (c : ℕ) × (u : Bytes) × (a ≡ c ∷ u) × Lacks b':' u
first_byte [] n l = absurd (n refl)
first_byte (c ∷ u) n (h, l) = (c, u, refl, l)

-- The command and the tools read a text that does not begin with a colon as the same reference, or both as none.
pub parse_ref_argument-parse_concept_ref :
    (t : Bytes) (r : ConceptRef)
    → has_prefix t (codes ":") ≡ false
    → (parse_ref_argument t ≡ ok r) ↔ (parse_concept_ref t ≡ ok r)
unfolding ref_string
parse_ref_argument-parse_concept_ref t r h = (
  λ k.
      let (c, u, e, a, l) = (parse_ref_argument_iff t r).0 k in
      let spelled : t ≡ c ∷ u ++ b':' ∷ r.relative_path =
        sym e ∙ ap (λ x. x ++ b':' ∷ r.relative_path) a in
      let other : c ≢ b':' =
        no_colon_first c (u ++ b':' ∷ r.relative_path)
          (subst (λ x. has_prefix x (codes ":") ≡ false) spelled h) in
      (parse_concept_ref_iff t r).1 (e, (λ n. cc (n, a)), subst (Lacks b':') (sym a) (other, l)),
  λ k.
      let (e, n, l) = (parse_concept_ref_iff t r).0 k in
      let (c, u, a, l') = first_byte r.bundle_alias n l in
      (parse_ref_argument_iff t r).1 (c, u, e, a, l'),
)
