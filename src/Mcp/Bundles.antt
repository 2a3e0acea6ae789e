-- ===== src/Mcp/Bundles.antt =====
-- The handlers of the bundle tools in internal/adapter/mcp/handlers.go.
use go_tahu_okf_semantic_mcp.Prelude.{[], ◌++◌, Bytes, codes, if◌then◌else◌}
use go_tahu_okf_semantic_mcp.Exec.{Result, ok, err, other, Exec, pure, lift, ◌>>=◌, ◌>>◌}
use go_tahu_okf_semantic_mcp.Go.Strings.{contains_byte}
use go_tahu_okf_semantic_mcp.UseCase.Bundle.{add_bundle, remove_bundle, list_bundles}
use go_tahu_okf_semantic_mcp.UseCase.Reindex.{reindex_bundle}
use go_tahu_okf_semantic_mcp.Mcp.Validation.{validate_input_size, max_string_bytes}
use go_tahu_okf_semantic_mcp.Mcp.Request.{CallToolRequest, bundles, bundle, ToolResults, Services}

unfoldable pub check_alias_colon : Bytes → Result (Unit {0})
check_alias_colon alias =
    if contains_byte alias b':' then err (other "alias must not contain ':'") else ok tt

module _ {S F D R : Type 0} (tools : ToolResults F R) (s : Services S F)
    (req : CallToolRequest D) where
  unfoldable pub handle_bundle_list : Exec S R
  handle_bundle_list = do bs ← list_bundles s.bundle; lift (tools.json (bundles bs))

  unfoldable pub handle_bundle_add : Exec S R
  handle_bundle_add = do
    alias ← lift (req.require_string (codes "alias"))
    lift (validate_input_size alias max_string_bytes)
    lift (check_alias_colon alias)
    root_path ← lift (req.require_string (codes "path"))
    lift (validate_input_size root_path max_string_bytes)
    let description = req.get_string (codes "description") []
    let tags = req.get_string_slice (codes "tags")
    entry ← add_bundle s.bundle alias root_path description tags
    lift (tools.json (bundle entry))

  unfoldable pub handle_bundle_remove : Exec S R
  handle_bundle_remove = do
    alias ← lift (req.require_string (codes "alias"))
    remove_bundle s.bundle alias
    pure (tools.text (codes "bundle removed: " ++ alias))

  unfoldable pub handle_bundle_reindex : Exec S R
  handle_bundle_reindex = do
    alias ← lift (req.require_string (codes "alias"))
    reindex_bundle s.bundle s.embedder s.vector_store alias
    pure (tools.text (codes "bundle reindexed: " ++ alias))
