-- ===== src/UseCase/Concept/Guards.antt =====
-- The checks of WriteConcept before it writes.
use go_tahu_okf_semantic_mcp.Prelude.{◌≡◌, ◌≢◌, ◌↔◌, refl, false, [], ◌∷◌, arith, Bytes, str_eq_iff}
use go_tahu_okf_semantic_mcp.Exec.{Error, ok, err}
use go_tahu_okf_semantic_mcp.Go.Strings.{is_empty, split}
use go_tahu_okf_semantic_mcp.Go.Space.{trim_space}
use go_tahu_okf_semantic_mcp.Go.Path.{slash, dot_dot, base}
use go_tahu_okf_semantic_mcp.Domain.Ref.{ConceptRef, NoDotDot, All-has_part}
use go_tahu_okf_semantic_mcp.Domain.Types.{Concept}
use go_tahu_okf_semantic_mcp.UseCase.Concept.{
  ConceptService, index_md, log_md, is_reserved, validate_write, write_concept,
}

is_empty_iff : (b : Bytes) → (is_empty b ≡ false) ↔ (b ≢ [])
is_empty_iff [] = (λ h. absurd (cc h), λ n. absurd (n refl))
is_empty_iff (c ∷ b) = (λ _ e. cc e, λ _. refl)

-- WriteConcept goes on to write exactly if the type is not blank, the base name is not reserved, and
-- the path is not empty and has no `..` part.
pub validate_write_iff :
    (ref : ConceptRef) (concept : Concept)
    → (validate_write ref concept ≡ ok tt) ↔ (
        (trim_space concept.frontmatter.type ≢ [])
        × (base ref.relative_path ≢ index_md)
        × (base ref.relative_path ≢ log_md)
        × (ref.relative_path ≢ [])
        × NoDotDot ref.relative_path)
unfolding validate_write is_reserved
validate_write_iff ref concept =
    let parts = All-has_part (split ref.relative_path slash) dot_dot in
    let type = is_empty_iff (trim_space concept.frontmatter.type) in
    let path = is_empty_iff ref.relative_path in
    let b = base ref.relative_path in
    (
      λ h. (
        ground (arith, type),
        ground (arith, str_eq_iff b index_md),
        ground (arith, str_eq_iff b log_md),
        ground (arith, path),
        parts.0 (ground arith),
      ),
      λ (x, y, z, v, w).
          rw (type.1 x, path.1 v, parts.1 w)
            (ground (arith, str_eq_iff b index_md, str_eq_iff b log_md)),
    )

-- A write that the checks refuse returns their error and changes nothing.
pub write_concept_refused :
    {S : Type 0} (s : ConceptService S) (ref : ConceptRef) (concept : Concept) (e : Error) (t : S)
    → validate_write ref concept ≡ err e
    → write_concept s ref concept t ≡ (err e, t)
unfolding write_concept
write_concept_refused s ref concept e t h = rw h refl
