-- ===== src/Tests/Texts.antt =====
-- The theorems on scopes, references and paths at concrete texts.
use go_tahu_okf_semantic_mcp.Prelude.{◌≡◌, ◌↔◌, ◌≢◌, [], ◌∷◌, ◌++◌, List, Bytes, codes, arith, All}
use go_tahu_okf_semantic_mcp.Exec.{ok}
use go_tahu_okf_semantic_mcp.Go.Strings.{Lacks}
use go_tahu_okf_semantic_mcp.Go.Path.Clean.{IsPlain, root_path}
use go_tahu_okf_semantic_mcp.Domain.Scope.{Scope, path, parse_scope}
use go_tahu_okf_semantic_mcp.Domain.Scope.RoundTrip.{IsScope, print_scope, parse_scope_iff}
use go_tahu_okf_semantic_mcp.Domain.Ref.{ConceptRef, ref_string}
use go_tahu_okf_semantic_mcp.Mcp.Validation.{parse_concept_ref, parse_concept_ref_iff}
use go_tahu_okf_semantic_mcp.Okf.Resolver.{contained_path}
use go_tahu_okf_semantic_mcp.Okf.Resolver.Containment.{resolved, contained_path_iff}

abbrev docs_scope : Scope
docs_scope = record { kind = path; bundle_alias = codes "kb"; sub_path = codes "docs" }

parse_scope_iff_example :
    (parse_scope (codes "path:kb:docs") ≡ ok docs_scope)
    ↔ (IsScope docs_scope × (print_scope docs_scope ≡ codes "path:kb:docs"))
parse_scope_iff_example = parse_scope_iff (codes "path:kb:docs") docs_scope

abbrev intro_ref : ConceptRef
intro_ref = record { bundle_alias = codes "kb"; relative_path = codes "docs/intro.md" }

parse_concept_ref_iff_example : (parse_concept_ref (codes "kb:docs/intro.md") ≡ ok intro_ref) ↔ (
    (ref_string intro_ref ≡ codes "kb:docs/intro.md") × (codes "kb" ≢ []) × Lacks b':' (codes "kb"))
parse_concept_ref_iff_example = parse_concept_ref_iff (codes "kb:docs/intro.md") intro_ref

-- The text 97 is "a".
abbrev letter_parts : List Bytes
letter_parts = codes "a" ∷ []

a-IsPlain : IsPlain (codes "a")
a-IsPlain = record {
  nonempty = λ e. cc e;
  not_dot = λ e. ground (arith, e);
  not_dot_dot = λ e. cc e;
  one_part = ground arith;
}

contained_path_iff_example :
    (contained_path (root_path letter_parts) (codes "b/../c") ≡ ok (codes "/a/c")) ↔ (
      (us : List Bytes) × (us ≢ [])
      × All IsPlain us
      × (resolved letter_parts (codes "b/../c") ≡ letter_parts ++ us)
      × (codes "/a/c" ≡ root_path (letter_parts ++ us)))
contained_path_iff_example =
    contained_path_iff letter_parts (λ e. cc e) (a-IsPlain, tt) (codes "b/../c") (codes "/a/c")
