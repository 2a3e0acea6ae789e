-- ===== src/Mcp/Tools/Required.antt =====
-- A call without an argument that the declaration of its tool requires.
use go_tahu_okf_semantic_mcp.Prelude.{
  ◌≡◌, ◌++◌, refl, true, Bool, false, Bytes, [], codes, All, All-append, All-get_elem?, get_elem?,
  some, ℕ,
}
use go_tahu_okf_semantic_mcp.Exec.{Error, Result, ok, err, Exec, continue}
use go_tahu_okf_semantic_mcp.Go.Float.{Floats}
use go_tahu_okf_semantic_mcp.Mcp.Request.{CallToolRequest, ToolResults, Services}
use go_tahu_okf_semantic_mcp.Mcp.Validation.{
  validate_input_size, max_string_bytes, max_body_bytes, parse_concept_ref, validate_path,
}
use go_tahu_okf_semantic_mcp.Mcp.Bundles.{
  check_alias_colon, handle_bundle_add, handle_bundle_remove, handle_bundle_reindex,
}
use go_tahu_okf_semantic_mcp.Mcp.Concepts.{
  handle_concept_read, handle_concept_write, handle_concept_list, handle_concept_links,
  handle_index_read, handle_log_read, handle_concept_type_list,
}
use go_tahu_okf_semantic_mcp.Mcp.Searches.{
  handle_search_semantic, handle_search_keyword, handle_search_rag,
}
use go_tahu_okf_semantic_mcp.Mcp.Tools.{
  Argument, Tool, bundle_tools, concept_tools, search_tools, register_tools,
}

-- An error, and nothing changed.
abbrev pub Refused : {S R : Type 0} → S → Result R × S → Type 0
Refused s answer = (e : Error) × (answer ≡ (err e, s))

Refused-continue :
    {S A R : Type 0} (r : Result A) (f : A → Exec S R) (s : S)
    → ((a : A) → Refused s (f a s))
    → Refused s (continue r f s)
Refused-continue (ok a) f s h = h a
Refused-continue (err e) f s h = (e, refl)

abbrev IsMissing : {D : Type 0} → CallToolRequest D → Bytes → Type 0
IsMissing req n = (e : Error) × (req.require_string n ≡ err e)

Refused-missing :
    {S R : Type 0} (r : Result Bytes) (f : Bytes → Exec S R) (s : S)
    → (e : Error) × (r ≡ err e)
    → Refused s (continue r f s)
Refused-missing r f s (e, h) = (e, rw h refl)

-- A request for which RequireString fails at a required argument of the tool is refused.
abbrev KeepsRequired : {S D R : Type 0} → Tool S D R → Type 0
KeepsRequired {S = S} {D = D} tool =
    All
      (λ (a : Argument).
        a.required ≡ true
        → (req : CallToolRequest D) (s : S) → IsMissing req a.name
        → Refused s (tool.handler req s))
      tool.arguments

module _ {S F D R : Type 0} (fl : Floats F D) (tools : ToolResults F R) (svc : Services S F) where
  bundle_add-path :
      (req : CallToolRequest D) (s : S)
      → IsMissing req (codes "path")
      → Refused s (handle_bundle_add tools svc req s)
  unfolding handle_bundle_add
  bundle_add-path req s h = Refused-continue (req.require_string (codes "alias")) _ s λ alias.
      Refused-continue (validate_input_size alias max_string_bytes) _ s λ _.
        Refused-continue (check_alias_colon alias) _ s
          λ _. Refused-missing (req.require_string (codes "path")) _ s h

  concept_write-type :
      (req : CallToolRequest D) (s : S)
      → IsMissing req (codes "type")
      → Refused s (handle_concept_write tools svc req s)
  unfolding handle_concept_write
  concept_write-type req s h = Refused-continue (req.require_string (codes "ref")) _ s λ ref_str.
      Refused-continue (parse_concept_ref ref_str) _ s λ ref.
        Refused-continue (validate_path ref.relative_path) _ s λ _.
          Refused-continue (validate_input_size (req.get_string (codes "body") []) max_body_bytes) _
            s λ _. Refused-missing (req.require_string (codes "type")) _ s h

  -- A handler that begins with the argument `n`.
  needs :
      (n : Bytes) (f : CallToolRequest D → Bytes → Exec S R)
      → ◌≡◌ {A = Bool} true true
      → (req : CallToolRequest D) (s : S) → IsMissing req n
      → Refused s (continue (req.require_string n) (f req) s)
  needs n f _ req s h = Refused-missing (req.require_string n) (f req) s h

  optional : {A : Type 0} → ◌≡◌ {A = Bool} false true → A
  optional r = absurd (cc r)

  bundle_tools-KeepsRequired : All (KeepsRequired {R = R}) (bundle_tools fl tools svc)
  unfolding bundle_tools handle_bundle_add handle_bundle_remove handle_bundle_reindex
  bundle_tools-KeepsRequired = (
    tt,
    (
      (needs (codes "alias") _, (λ _. bundle_add-path, (optional, (optional, tt)))),
      ((needs (codes "alias") _, tt), ((needs (codes "alias") _, tt), tt)),
    ),
  )

  concept_tools-KeepsRequired : All (KeepsRequired {R = R}) (concept_tools fl tools svc)
  unfolding concept_tools handle_concept_read handle_concept_write handle_concept_list
      handle_concept_links handle_index_read handle_log_read handle_concept_type_list
  concept_tools-KeepsRequired = (
    (needs (codes "ref") _, tt),
    (
      (
        needs (codes "ref") _,
        (λ _. concept_write-type, (optional, (optional, (optional, (optional, (optional, tt)))))),
      ),
      (
        (needs (codes "bundle_alias") _, (optional, tt)),
        (
          (needs (codes "ref") _, tt),
          (
            (needs (codes "bundle_alias") _, (optional, tt)),
            (
              (needs (codes "bundle_alias") _, (optional, tt)),
              ((needs (codes "bundle_alias") _, tt), tt),
            ),
          ),
        ),
      ),
    ),
  )

  search_tools-KeepsRequired : All (KeepsRequired {R = R}) (search_tools fl tools svc)
  unfolding search_tools handle_search_semantic handle_search_keyword handle_search_rag
  search_tools-KeepsRequired = (
    (needs (codes "query") _, (optional, (optional, tt))),
    (
      (needs (codes "query") _, (optional, (optional, tt))),
      ((needs (codes "query") _, (optional, (optional, (optional, tt)))), tt),
    ),
  )

  register_tools-KeepsRequired : All (KeepsRequired {R = R}) (register_tools fl tools svc)
  unfolding register_tools
  register_tools-KeepsRequired =
      All-append KeepsRequired (bundle_tools fl tools svc)
        (concept_tools fl tools svc ++ search_tools fl tools svc) bundle_tools-KeepsRequired
        (All-append KeepsRequired (concept_tools fl tools svc) (search_tools fl tools svc)
          concept_tools-KeepsRequired search_tools-KeepsRequired)

  -- A call of any registered tool in which RequireString fails at an argument that the tool declares as required is
  -- refused with an error, and changes nothing.
  pub register_tools-Refused :
      (i j : ℕ) (tool : Tool S D R) (a : Argument) (req : CallToolRequest D) (s : S) (e : Error)
      → get_elem? (register_tools fl tools svc) i ≡ some tool
      → get_elem? tool.arguments j ≡ some a
      → a.required ≡ true
      → req.require_string a.name ≡ err e
      → Refused s (tool.handler req s)
  register_tools-Refused i j tool a req s e is declares required missing =
      All-get_elem? _ tool.arguments j a
        (All-get_elem? KeepsRequired (register_tools fl tools svc) i tool
          register_tools-KeepsRequired is)
        declares required req s (e, missing)
