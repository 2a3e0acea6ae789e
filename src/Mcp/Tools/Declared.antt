-- ===== src/Mcp/Tools/Declared.antt =====
-- The arguments that a tool declares are all that its handler reads.
use go_tahu_okf_semantic_mcp.Prelude.{
  ◌≡◌, ◌++◌, refl, true, false, Bool, Bytes, All, All-append, All-get_elem?, get_elem?, some, ℕ,
}
use go_tahu_okf_semantic_mcp.Go.Float.{Floats}
use go_tahu_okf_semantic_mcp.Mcp.Request.{CallToolRequest, ToolResults, Services}
use go_tahu_okf_semantic_mcp.Mcp.Bundles.{
  handle_bundle_list, handle_bundle_add, handle_bundle_remove, handle_bundle_reindex,
}
use go_tahu_okf_semantic_mcp.Mcp.Concepts.{
  handle_concept_read, handle_concept_write, handle_concept_list, handle_concept_links,
  handle_index_read, handle_log_read, handle_concept_type_list,
}
use go_tahu_okf_semantic_mcp.Mcp.Searches.{
  handle_search_semantic, handle_search_keyword, handle_search_rag,
}
use go_tahu_okf_semantic_mcp.Mcp.Tools.{
  Kind, string, strings, integer, number, Argument, Tool, bundle_tools, concept_tools, search_tools,
  register_tools,
}

module _ {D : Type 0} (req req' : CallToolRequest D) where
  -- Two requests give the same where a handler reads an argument of the kind: RequireString for a required text, GetString for an
  -- optional one.
  abbrev pub SameAt : Bytes → Kind → Bool → Type 0
  SameAt n string true = req.require_string n ≡ req'.require_string n
  SameAt n string false = req.get_string n ≡ req'.get_string n
  SameAt n strings required = req.get_string_slice n ≡ req'.get_string_slice n
  SameAt n (integer least greatest) required = req.get_int n ≡ req'.get_int n
  SameAt n (number least greatest) required = req.get_float n ≡ req'.get_float n

  abbrev pub Same : Argument → Type 0
  Same a = SameAt a.name a.kind a.required

module _ {S F D R : Type 0} (fl : Floats F D) (tools : ToolResults F R) (svc : Services S F)
    (req req' : CallToolRequest D) (s : S) where
  abbrev Alike : Tool S D R → Type 0
  Alike tool = All (Same req req') tool.arguments → tool.handler req s ≡ tool.handler req' s

  bundle_tools-Alike : All Alike (bundle_tools fl tools svc)
  unfolding bundle_tools handle_bundle_list handle_bundle_add handle_bundle_remove
      handle_bundle_reindex
  bundle_tools-Alike = (
    λ _. refl,
    (λ h. rw (h.0, h.1.0, h.1.1.0, h.1.1.1.0) refl, (λ h. rw h.0 refl, (λ h. rw h.0 refl, tt))),
  )

  concept_tools-Alike : All Alike (concept_tools fl tools svc)
  unfolding concept_tools handle_concept_read handle_concept_write handle_concept_list
      handle_concept_links handle_index_read handle_log_read handle_concept_type_list
  concept_tools-Alike = (
    λ h. rw h.0 refl,
    (
      λ h.
          let (e₁, (e₂, (e₃, (e₄, (e₅, (e₆, (e₇, _))))))) = h in
          rw (e₁, e₂, e₃, e₄, e₅, e₆, e₇) refl,
      (
        λ h. rw (h.0, h.1.0) refl,
        (
          λ h. rw h.0 refl,
          (λ h. rw (h.0, h.1.0) refl, (λ h. rw (h.0, h.1.0) refl, (λ h. rw h.0 refl, tt))),
        ),
      ),
    ),
  )

  search_tools-Alike : All Alike (search_tools fl tools svc)
  unfolding search_tools handle_search_semantic handle_search_keyword handle_search_rag
  search_tools-Alike = (
    λ h. rw (h.0, h.1.0, h.1.1.0) refl,
    (λ h. rw (h.0, h.1.0, h.1.1.0) refl, (λ h. rw (h.0, h.1.0, h.1.1.0, h.1.1.1.0) refl, tt)),
  )

  register_tools-Alike : All Alike (register_tools fl tools svc)
  unfolding register_tools
  register_tools-Alike =
      All-append Alike (bundle_tools fl tools svc)
        (concept_tools fl tools svc ++ search_tools fl tools svc) bundle_tools-Alike
        (All-append Alike (concept_tools fl tools svc) (search_tools fl tools svc)
          concept_tools-Alike search_tools-Alike)

  -- Two requests that give the same at every argument that a registered tool declares have the same answer and effect.
  pub register_tools-Same :
      (i : ℕ) (tool : Tool S D R)
      → get_elem? (register_tools fl tools svc) i ≡ some tool
      → All (Same req req') tool.arguments
      → tool.handler req s ≡ tool.handler req' s
  register_tools-Same i tool is same =
      All-get_elem? Alike (register_tools fl tools svc) i tool register_tools-Alike is same
