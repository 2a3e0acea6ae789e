-- ===== src/Transport/Server.antt =====
-- NewMCPServer of internal/infra/transport/server.go: the registered tools, each behind the middleware. The
-- identifier that a call gets is a parameter; the server of the library finds the tool by its name.
use go_tahu_okf_semantic_mcp.Prelude.{
  ◌≡◌, refl, some, ℕ, zero, suc, [], ◌∷◌, List, map, get_elem?, Bytes,
}
use go_tahu_okf_semantic_mcp.Go.Float.{Floats}
use go_tahu_okf_semantic_mcp.Mcp.Request.{CallToolRequest, ToolResults, Services}
use go_tahu_okf_semantic_mcp.Mcp.Tools.{Tool, register_tools}
use go_tahu_okf_semantic_mcp.Transport.{LogLine, logging_middleware, event_of}
use go_tahu_okf_semantic_mcp.Transport.Middleware.{IsAnswer, logging_middleware-IsAnswer}

module _ {S D R : Type 0} where
  -- A tool behind the middleware.
  unfoldable pub with_logging : Bytes → Tool S D R → Tool (S × List LogLine) D R
  unfolding logging_middleware
  with_logging id tool = record {
    name = tool.name;
    arguments = tool.arguments;
    handler = λ req. logging_middleware id tool.name (tool.handler req);
  }

  -- What a tool behind the middleware does with a request, against the tool itself.
  pub record IsServed (id : Bytes) (inner : Tool S D R) (outer : Tool (S × List LogLine) D R)
      (req : CallToolRequest D) (s : S) (lines : List LogLine) : Type 0 where
    pub name : outer.name ≡ inner.name
    pub arguments : outer.arguments ≡ inner.arguments
    pub answer : IsAnswer (outer.handler req (s, lines)).0
    pub same :
        IsAnswer (inner.handler req s).0
        → (outer.handler req (s, lines)).0 ≡ (inner.handler req s).0
    pub effect : (outer.handler req (s, lines)).1 ≡ (
      (inner.handler req s).1,
      record { request_id = id; tool = inner.name; event = event_of (inner.handler req s).0 }
          ∷ lines,
    )

  with_logging-IsServed :
      (id : Bytes) (tool : Tool S D R) (req : CallToolRequest D) (s : S) (lines : List LogLine)
      → IsServed id tool (with_logging id tool) req s lines
  unfolding with_logging
  with_logging-IsServed id tool req s lines =
      let (answer, same, effect) =
        logging_middleware-IsAnswer id tool.name (tool.handler req) s lines in
      record { name = refl; arguments = refl; answer = answer; same = same; effect = effect }

  IsServed-at :
      (id : Bytes) (tools : List (Tool S D R)) (i : ℕ) (outer : Tool (S × List LogLine) D R)
      (req : CallToolRequest D) (s : S) (lines : List LogLine)
      → get_elem? (map (with_logging id) tools) i ≡ some outer
      → (inner : Tool S D R) × (get_elem? tools i ≡ some inner)
        × IsServed id inner outer req s lines
  IsServed-at id [] i outer req s lines h = absurd (cc h)
  IsServed-at id (t ∷ ts) zero outer req s lines h =
      let e : with_logging id t ≡ outer = cc h in
      (t, refl, rw (← e) (with_logging-IsServed id t req s lines))
  IsServed-at id (t ∷ ts) (suc i) outer req s lines h = IsServed-at id ts i outer req s lines h

module _ {S F D R : Type 0} (fl : Floats F D) (tools : ToolResults F R) (svc : Services S F) where
  unfoldable pub new_mcp_server : Bytes → List (Tool (S × List LogLine) D R)
  unfolding register_tools with_logging
  new_mcp_server id = map (with_logging id) (register_tools fl tools svc)

  -- Each tool of the server is a registered tool behind the middleware: whatever the request, and though the handler
  -- panics, it answers with a result or an error, which is that of the handler where it does not panic; the state is that of
  -- the handler, and one line with the name of the tool and the outcome is added to the log.
  pub new_mcp_server-IsServed :
      (id : Bytes) (i : ℕ) (outer : Tool (S × List LogLine) D R) (req : CallToolRequest D) (s : S)
      (lines : List LogLine)
      → get_elem? (new_mcp_server id) i ≡ some outer
      → (inner : Tool S D R) × (get_elem? (register_tools fl tools svc) i ≡ some inner)
        × IsServed id inner outer req s lines
  unfolding new_mcp_server
  new_mcp_server-IsServed id i outer req s lines h =
      IsServed-at id (register_tools fl tools svc) i outer req s lines h
