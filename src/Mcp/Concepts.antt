-- ===== src/Mcp/Concepts.antt =====
-- The handlers of the concept tools in internal/adapter/mcp/handlers.go.
use go_tahu_okf_semantic_mcp.Prelude.{[], ◌++◌, Bytes, codes, if◌then◌else◌}
use go_tahu_okf_semantic_mcp.Exec.{Result, ok, Exec, pure, lift, ◌>>=◌, ◌>>◌}
use go_tahu_okf_semantic_mcp.Go.Strings.{is_empty}
use go_tahu_okf_semantic_mcp.Domain.Ref.{ConceptRef, ref_string}
use go_tahu_okf_semantic_mcp.Domain.Types.{Concept}
use go_tahu_okf_semantic_mcp.UseCase.Concept.{
  read_concept, list_concepts, get_links, read_index, read_log, list_types, write_concept,
}
use go_tahu_okf_semantic_mcp.Mcp.Validation.{
  validate_path, validate_input_size, parse_concept_ref, max_body_bytes, max_string_bytes,
}
use go_tahu_okf_semantic_mcp.Mcp.Request.{
  CallToolRequest, concept, refs, links, types, ToolResults, Services,
}

-- A path argument may be empty.
unfoldable pub validate_optional_path : Bytes → Result (Unit {0})
validate_optional_path p = if is_empty p then ok tt else validate_path p

module _ {S F D R : Type 0} (tools : ToolResults F R) (s : Services S F)
    (req : CallToolRequest D) where
  unfoldable pub handle_concept_read : Exec S R
  handle_concept_read = do
    ref_str ← lift (req.require_string (codes "ref"))
    ref ← lift (parse_concept_ref ref_str)
    lift (validate_path ref.relative_path)
    c ← read_concept s.concept ref
    lift (tools.json (concept c))

  -- The concept that HandleConceptWrite builds of its arguments.
  unfoldable pub requested_concept : ConceptRef → Bytes → Bytes → Concept
  requested_concept ref concept_type body = record {
    ref = ref;
    frontmatter = record {
      type = concept_type;
      title = req.get_string (codes "title") [];
      description = req.get_string (codes "description") [];
      resource = req.get_string (codes "resource") [];
      tags = req.get_string_slice (codes "tags");
      timestamp = 0;
      extra = [];
    };
    body = body;
    outbound_links = [];
  }

  unfoldable pub handle_concept_write : Exec S R
  unfolding requested_concept
  handle_concept_write = do
    ref_str ← lift (req.require_string (codes "ref"))
    ref ← lift (parse_concept_ref ref_str)
    lift (validate_path ref.relative_path)
    let body = req.get_string (codes "body") []
    lift (validate_input_size body max_body_bytes)
    concept_type ← lift (req.require_string (codes "type"))
    lift (validate_input_size concept_type max_string_bytes)
    write_concept s.concept ref (requested_concept ref concept_type body)
    pure (tools.text (codes "concept written: " ++ ref_string ref))

  unfoldable pub handle_concept_list : Exec S R
  unfolding validate_optional_path
  handle_concept_list = do
    alias ← lift (req.require_string (codes "bundle_alias"))
    let sub_path = req.get_string (codes "sub_path") []
    lift (validate_optional_path sub_path)
    rs ← list_concepts s.concept alias sub_path
    lift (tools.json (refs rs))

  unfoldable pub handle_concept_links : Exec S R
  handle_concept_links = do
    ref_str ← lift (req.require_string (codes "ref"))
    ref ← lift (parse_concept_ref ref_str)
    lift (validate_path ref.relative_path)
    ls ← get_links s.concept ref
    lift (tools.json (links ls))

  unfoldable pub handle_index_read : Exec S R
  unfolding validate_optional_path
  handle_index_read = do
    alias ← lift (req.require_string (codes "bundle_alias"))
    let dir_path = req.get_string (codes "dir_path") []
    lift (validate_optional_path dir_path)
    content ← read_index s.concept alias dir_path
    pure (tools.text content)

  unfoldable pub handle_log_read : Exec S R
  unfolding validate_optional_path
  handle_log_read = do
    alias ← lift (req.require_string (codes "bundle_alias"))
    let dir_path = req.get_string (codes "dir_path") []
    lift (validate_optional_path dir_path)
    content ← read_log s.concept alias dir_path
    pure (tools.text content)

  unfoldable pub handle_concept_type_list : Exec S R
  handle_concept_type_list = do
    alias ← lift (req.require_string (codes "bundle_alias"))
    ts ← list_types s.concept alias
    lift (tools.json (types ts))
