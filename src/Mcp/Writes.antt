-- ===== src/Mcp/Writes.antt =====
-- What a successful HandleConceptWrite has checked and done.
use go_tahu_okf_semantic_mcp.Prelude.{
  ◌≡◌, ◌≢◌, ◌≤◌, ap, sym, ◌∙◌, subst, ℕ, [], Option, arith, Bytes, codes, length,
}
use go_tahu_okf_semantic_mcp.Exec.{Result, ok, continue-ok}
use go_tahu_okf_semantic_mcp.Go.Strings.{Lacks}
use go_tahu_okf_semantic_mcp.Domain.Ref.{ConceptRef, ref_string, NoDotDot}
use go_tahu_okf_semantic_mcp.UseCase.Concept.{write_concept}
use go_tahu_okf_semantic_mcp.UseCase.Concept.Log.{
  IsReservedStore, log_path, Appended, write_concept-Appended,
}
use go_tahu_okf_semantic_mcp.Mcp.Validation.{
  validate_path, validate_path_iff, validate_input_size, parse_concept_ref, parse_concept_ref_iff,
  max_body_bytes, max_string_bytes,
}
use go_tahu_okf_semantic_mcp.Mcp.Request.{CallToolRequest, ToolResults, Services}
use go_tahu_okf_semantic_mcp.Mcp.Concepts.{requested_concept, handle_concept_write}

size_bound : (input : Bytes) (n : ℕ) → validate_input_size input n ≡ ok tt → length input ≤ n
unfolding validate_input_size
size_bound input n h = ground arith

module _ {S F D R : Type 0} (tools : ToolResults F R) (s : Services S F) (req : CallToolRequest D)
    (file : S → Bytes → Bytes → Option Bytes) (store : IsReservedStore s.concept file) where
  -- Over a repository that keeps to IsReservedStore, a HandleConceptWrite that succeeds was given the text `alias:path` of a
  -- reference whose alias is not empty and holds no colon and whose path has no `..` part, and a body of at most 1 MiB,
  -- and the log of the concept's directory is what it was with one line behind it.
  pub handle_concept_write-Appended :
      (t t' : S) (r : R)
      → handle_concept_write tools s req t ≡ (ok r, t')
      → (ref : ConceptRef) × (req.require_string (codes "ref") ≡ ok (ref_string ref))
        × (ref.bundle_alias ≢ [])
        × Lacks b':' ref.bundle_alias
        × NoDotDot ref.relative_path
        × (length (req.get_string (codes "body") []) ≤ max_body_bytes)
        × Appended s.concept file store ref
            (file t ref.bundle_alias (log_path ref))
            (file t' ref.bundle_alias (log_path ref))
  unfolding handle_concept_write
  handle_concept_write-Appended t t' r h =
      let body = req.get_string (codes "body") [] in
      let (text, given, h₁) = continue-ok (req.require_string (codes "ref")) _ t r t' h in
      let (ref, parsed, h₂) = continue-ok (parse_concept_ref text) _ t r t' h₁ in
      let (u, inside, h₃) = continue-ok (validate_path ref.relative_path) _ t r t' h₂ in
      let (v, sized, h₄) = continue-ok (validate_input_size body max_body_bytes) _ t r t' h₃ in
      let (type, typed, h₅) = continue-ok (req.require_string (codes "type")) _ t r t' h₄ in
      let (w, short, h₆) = continue-ok (validate_input_size type max_string_bytes) _ t r t' h₅ in
      let concept = requested_concept tools s req ref type body in
      let m = write_concept s.concept ref concept t in
      let (x, written, h₇) = continue-ok m.0 _ m.1 r t' h₆ in
      let whole : m ≡ (ok tt, m.1) = ap (λ (a : Result (Unit {0})). (a, m.1)) written in
      let left : m.1 ≡ t' = ap (λ (n : Result R × S). n.1) h₇ in
      let (spelled, named, one_colon) = (parse_concept_ref_iff text ref).0 parsed in
      (
        ref,
        given ∙ ap (λ b. ok b) (sym spelled),
        named,
        one_colon,
        (validate_path_iff ref.relative_path).0 inside,
        size_bound body max_body_bytes sized,
        subst
            (λ n.
              Appended s.concept file store ref (file t ref.bundle_alias (log_path ref))
                (file n ref.bundle_alias (log_path ref)))
            left (write_concept-Appended s.concept file store ref concept t m.1 whole),
      )
