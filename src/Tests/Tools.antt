-- ===== src/Tests/Tools.antt =====
-- The theorems on the registered tools.
use go_tahu_okf_semantic_mcp.Prelude.{
  ◌≡◌, some, get_elem?, refl, true, false, none, ℕ, [], ◌∷◌, Bytes, codes, str_eq, if◌then◌else◌,
  Option,
}
use go_tahu_okf_semantic_mcp.Exec.{not_found, ok, err}
use go_tahu_okf_semantic_mcp.Mcp.Request.{CallToolRequest, Payload, Services}
use go_tahu_okf_semantic_mcp.Mcp.Bundles.{handle_bundle_add, handle_bundle_remove}
use go_tahu_okf_semantic_mcp.Mcp.Tools.{string, strings, Argument, Tool, register_tools}
use go_tahu_okf_semantic_mcp.Mcp.Tools.Required.{Refused, register_tools-Refused}
use go_tahu_okf_semantic_mcp.Mcp.Tools.Declared.{register_tools-Same}
use go_tahu_okf_semantic_mcp.Transport.Server.{
  IsServed, with_logging, new_mcp_server, new_mcp_server-IsServed,
}
use go_tahu_okf_semantic_mcp.Tests.Store.{whole_floats}
use go_tahu_okf_semantic_mcp.Tests.Services.{
  same_vector, no_vectors, no_nodes, no_bundles, bundle_service, concept_service, echo,
}

abbrev services : Services ℕ ℕ
services = record {
  bundle = bundle_service no_bundles;
  concept = concept_service no_nodes;
  search = record { embedder = same_vector; keyword_embedder = none; vector_store = no_vectors };
  embedder = same_vector;
  vector_store = no_vectors;
}

-- A request with one text.
abbrev request_of : Bytes → Bytes → CallToolRequest ℕ
request_of name value = record {
  require_string = λ n. if str_eq n name then ok value else err not_found;
  get_string = λ n default. if str_eq n name then value else default;
  get_string_slice = λ n. [];
  get_int = λ n default. default;
  get_float = λ n default. default;
}

abbrev text_argument : Bytes → Argument
text_argument n = record { name = n; kind = string; required = true }

abbrev bundle_add : Tool ℕ ℕ (Option (Payload ℕ))
bundle_add = record {
  name = codes "bundle_add";
  arguments =
      text_argument (codes "alias")
      ∷ text_argument (codes "path")
      ∷ record { name = codes "description"; kind = string; required = false }
      ∷ record { name = codes "tags"; kind = strings; required = false }
      ∷ [];
  handler = handle_bundle_add echo services;
}

register_tools-Refused_example :
    Refused 5 (bundle_add.handler (request_of (codes "alias") (codes "kb")) 5)
unfolding register_tools str_eq
register_tools-Refused_example =
    register_tools-Refused whole_floats echo services 1 1 bundle_add (text_argument (codes "path"))
      (request_of (codes "alias") (codes "kb")) 5 not_found refl refl refl refl

abbrev request : CallToolRequest ℕ
request = request_of (codes "alias") (codes "kb")

-- The same tool behind the middleware.
new_mcp_server-IsServed_example :
    (inner : Tool ℕ ℕ (Option (Payload ℕ))) × (get_elem?
        (register_tools whole_floats echo services)
        1
      ≡ some inner)
    × IsServed (codes "7") inner (with_logging (codes "7") bundle_add) request 5 []
unfolding register_tools new_mcp_server
new_mcp_server-IsServed_example =
    new_mcp_server-IsServed whole_floats echo services (codes "7") 1
      (with_logging (codes "7") bundle_add) request 5 [] refl

abbrev bundle_remove : Tool ℕ ℕ (Option (Payload ℕ))
bundle_remove = record {
  name = codes "bundle_remove";
  arguments = text_argument (codes "alias") ∷ [];
  handler = handle_bundle_remove echo services;
}

-- The tool of one argument, and two requests that differ in another one.
register_tools-Same_example :
    bundle_remove.handler (request_of (codes "path") (codes "/a")) 5
    ≡ bundle_remove.handler (request_of (codes "path") (codes "/b")) 5
unfolding register_tools str_eq
register_tools-Same_example =
    register_tools-Same whole_floats echo services (request_of (codes "path") (codes "/a"))
      (request_of (codes "path") (codes "/b")) 5 2 bundle_remove refl (refl, tt)
