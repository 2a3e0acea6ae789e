-- ===== src/Domain/Ref.antt =====
-- ConceptRef of internal/domain/concept.go.
use go_tahu_okf_semantic_mcp.Prelude.{
  ◌≡◌, ◌≢◌, ◌↔◌, refl, [], ◌∷◌, ◌++◌, arith, if◌then◌else◌, Bytes, All, Bool-cases, inl, inr, sym,
  List, false, str_eq_iff,
}
use go_tahu_okf_semantic_mcp.Exec.{Result, ok, err, other, ok_injective, ok-ne-err}
use go_tahu_okf_semantic_mcp.Go.Strings.{is_empty, split, has_part}
use go_tahu_okf_semantic_mcp.Go.Path.{slash, dot_dot}

pub record ConceptRef : Type 0 where
  pub bundle_alias : Bytes
  pub relative_path : Bytes

-- ConceptRef.String
unfoldable pub ref_string : ConceptRef → Bytes
ref_string r = r.bundle_alias ++ b':' ∷ r.relative_path

unfoldable pub new_concept_ref : Bytes → Bytes → Result ConceptRef
new_concept_ref alias rel_path =
    if is_empty alias
    then err (other "empty alias")
    else if is_empty rel_path
    then err (other "empty relPath")
    else if has_part (split rel_path slash) dot_dot
    then err (other "traversal segment")
    else ok (record { bundle_alias = alias; relative_path = rel_path })

-- No part of a slash-separated path is `..`.
abbrev pub NoDotDot : Bytes → Type 0
NoDotDot p = All (λ q. q ≢ dot_dot) (split p slash)

-- `has_part` decides membership.
pub All-has_part : (qs : List Bytes) (p : Bytes) → (has_part qs p ≡ false) ↔ All (λ q. q ≢ p) qs
unfolding has_part
All-has_part [] p = (λ _. tt, λ _. refl)
All-has_part (q ∷ qs) p = (
  λ h. ground (arith, str_eq_iff q p, (All-has_part qs p).0),
  λ h. ground (arith, str_eq_iff q p, (All-has_part qs p).1 h.1, h.0),
)

-- NewConceptRef accepts an alias and a path exactly if neither is empty and the path has no `..`
-- part, and the reference holds both as they are.
new_concept_ref_iff :
    (a p : Bytes) (r : ConceptRef)
    → (new_concept_ref a p ≡ ok r)
      ↔ ((a ≢ []) × (p ≢ []) × NoDotDot p × (r ≡ record { bundle_alias = a; relative_path = p }))
unfolding new_concept_ref
new_concept_ref_iff [] p r = (λ h. absurd (cc h), λ h. absurd (h.0 refl))
new_concept_ref_iff (c ∷ a) [] r = (λ h. absurd (cc h), λ h. absurd (h.1 refl))
new_concept_ref_iff (c ∷ a) (d ∷ p) r = (
  λ h. elim (Bool-cases (has_part (split (d ∷ p) slash) dot_dot)) [
    | inl e ↦ absurd (ok-ne-err r _ (sym (rw e at h)))
    | inr n ↦
        ((λ e. cc e), (λ e. cc e), (All-has_part _ dot_dot).0 n, sym (ok_injective _ r (rw n at h)))
  ],
  λ (x, y, l, e). rw ((All-has_part (split (d ∷ p) slash) dot_dot).1 l, e),
)
