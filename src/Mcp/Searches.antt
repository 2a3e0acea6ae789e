-- ===== src/Mcp/Searches.antt =====
-- The handlers of the search tools in internal/adapter/mcp/handlers.go.
use go_tahu_okf_semantic_mcp.Prelude.{codes, ℤ, pos, int_lt, int_gt, if◌then◌else◌}
use go_tahu_okf_semantic_mcp.Exec.{Exec, lift, ◌>>=◌, ◌>>◌}
use go_tahu_okf_semantic_mcp.Go.Float.{Floats}
use go_tahu_okf_semantic_mcp.Domain.Scope.{parse_scope}
use go_tahu_okf_semantic_mcp.UseCase.Search.{semantic_search, keyword_search, rag_search}
use go_tahu_okf_semantic_mcp.Mcp.Validation.{validate_input_size, max_string_bytes}
use go_tahu_okf_semantic_mcp.Mcp.Request.{CallToolRequest, chunks, ToolResults, Services}

-- `if topK < 1 { topK = 1 }`, and in HandleSearchRAG `if topK > 20 { topK = 20 }` behind it.
unfoldable pub at_least_one : ℤ → ℤ
at_least_one k = if int_lt k 1 then pos 1 else k

unfoldable pub clamp_rag : ℤ → ℤ
unfolding at_least_one
clamp_rag k = let k' = at_least_one k in if int_gt k' 20 then pos 20 else k'

module _ {S F D R : Type 0} (tools : ToolResults F R) (s : Services S F)
    (req : CallToolRequest D) where
  unfoldable pub handle_search_semantic : Exec S R
  handle_search_semantic = do
    query ← lift (req.require_string (codes "query"))
    lift (validate_input_size query max_string_bytes)
    scope ← lift (parse_scope (req.get_string (codes "scope") (codes "global")))
    let top_k = at_least_one (req.get_int (codes "top_k") (pos 10))
    cs ← semantic_search s.search query scope top_k
    lift (tools.json (chunks cs))

  unfoldable pub handle_search_keyword : Exec S R
  handle_search_keyword = do
    query ← lift (req.require_string (codes "query"))
    lift (validate_input_size query max_string_bytes)
    scope ← lift (parse_scope (req.get_string (codes "scope") (codes "global")))
    let top_k = at_least_one (req.get_int (codes "top_k") (pos 10))
    cs ← keyword_search s.search query scope top_k
    lift (tools.json (chunks cs))

module _ {S F D R : Type 0} (fl : Floats F D) (tools : ToolResults F R) (s : Services S F)
    (req : CallToolRequest D) where
  unfoldable pub handle_search_rag : Exec S R
  unfolding clamp_rag
  handle_search_rag = do
    query ← lift (req.require_string (codes "query"))
    lift (validate_input_size query max_string_bytes)
    scope ← lift (parse_scope (req.get_string (codes "scope") (codes "global")))
    let top_k = clamp_rag (req.get_int (codes "top_k") (pos 5))
    let min_score = fl.to_float32 (req.get_float (codes "min_score") fl.zero64)
    cs ← rag_search fl s.search query scope top_k min_score
    lift (tools.json (chunks cs))
