-- ===== src/Mcp/Tools.antt =====
-- internal/adapter/mcp/tools.go: the tools that RegisterTools declares, each with its arguments and its handler.
-- The texts of the descriptions are left out.
pub mod Required
pub mod Declared
use go_tahu_okf_semantic_mcp.Prelude.{
  Bool, true, false, Option, none, some, ℕ, [], ◌∷◌, ◌++◌, List, Bytes, codes,
}
use go_tahu_okf_semantic_mcp.Exec.{Exec}
use go_tahu_okf_semantic_mcp.Go.Float.{Floats}
use go_tahu_okf_semantic_mcp.Mcp.Request.{CallToolRequest, ToolResults, Services}
use go_tahu_okf_semantic_mcp.Mcp.Bundles.{
  handle_bundle_list, handle_bundle_add, handle_bundle_remove, handle_bundle_reindex,
}
use go_tahu_okf_semantic_mcp.Mcp.Concepts.{
  handle_concept_read, handle_concept_write, handle_concept_list, handle_concept_links,
  handle_index_read, handle_log_read, handle_concept_type_list,
}
use go_tahu_okf_semantic_mcp.Mcp.Searches.{
  handle_search_semantic, handle_search_keyword, handle_search_rag,
}

-- WithString, WithArray of strings, WithInteger and WithNumber, the last two with Min and Max.
pub data Kind : Type 0 where
  string strings : Kind
  integer number : Option ℕ → Option ℕ → Kind

pub record Argument : Type 0 where
  pub name : Bytes
  pub kind : Kind
  pub required : Bool

pub record Tool (S D R : Type 0) : Type 0 where
  pub name : Bytes
  pub arguments : List Argument
  pub handler : CallToolRequest D → Exec S R

abbrev required_string : Bytes → Argument
required_string n = record { name = n; kind = string; required = true }

abbrev optional : Bytes → Kind → Argument
optional n k = record { name = n; kind = k; required = false }

abbrev top_k : Option ℕ → Argument
top_k greatest = optional (codes "top_k") (integer (some 1) greatest)

module _ {S F D R : Type 0} (fl : Floats F D) (tools : ToolResults F R) (svc : Services S F) where
  unfoldable pub bundle_tools : List (Tool S D R)
  bundle_tools =
      record { name = codes "bundle_list"; arguments = []; handler = handle_bundle_list tools svc }
      ∷ record {
        name = codes "bundle_add";
        arguments =
            required_string (codes "alias")
            ∷ required_string (codes "path")
            ∷ optional (codes "description") string
            ∷ optional (codes "tags") strings
            ∷ [];
        handler = handle_bundle_add tools svc;
      }
      ∷ record {
        name = codes "bundle_remove";
        arguments = required_string (codes "alias") ∷ [];
        handler = handle_bundle_remove tools svc;
      }
      ∷ record {
        name = codes "bundle_reindex";
        arguments = required_string (codes "alias") ∷ [];
        handler = handle_bundle_reindex tools svc;
      }
      ∷ []

  unfoldable pub concept_tools : List (Tool S D R)
  concept_tools =
      record {
        name = codes "concept_read";
        arguments = required_string (codes "ref") ∷ [];
        handler = handle_concept_read tools svc;
      }
      ∷ record {
        name = codes "concept_write";
        arguments =
            required_string (codes "ref")
            ∷ required_string (codes "type")
            ∷ optional (codes "title") string
            ∷ optional (codes "description") string
            ∷ optional (codes "resource") string
            ∷ optional (codes "tags") strings
            ∷ optional (codes "body") string
            ∷ [];
        handler = handle_concept_write tools svc;
      }
      ∷ record {
        name = codes "concept_list";
        arguments =
            required_string (codes "bundle_alias") ∷ optional (codes "sub_path") string ∷ [];
        handler = handle_concept_list tools svc;
      }
      ∷ record {
        name = codes "concept_links";
        arguments = required_string (codes "ref") ∷ [];
        handler = handle_concept_links tools svc;
      }
      ∷ record {
        name = codes "index_read";
        arguments =
            required_string (codes "bundle_alias") ∷ optional (codes "dir_path") string ∷ [];
        handler = handle_index_read tools svc;
      }
      ∷ record {
        name = codes "log_read";
        arguments =
            required_string (codes "bundle_alias") ∷ optional (codes "dir_path") string ∷ [];
        handler = handle_log_read tools svc;
      }
      ∷ record {
        name = codes "concept_type_list";
        arguments = required_string (codes "bundle_alias") ∷ [];
        handler = handle_concept_type_list tools svc;
      }
      ∷ []

  unfoldable pub search_tools : List (Tool S D R)
  search_tools =
      record {
        name = codes "search_semantic";
        arguments =
            required_string (codes "query") ∷ optional (codes "scope") string ∷ top_k none ∷ [];
        handler = handle_search_semantic tools svc;
      }
      ∷ record {
        name = codes "search_keyword";
        arguments =
            required_string (codes "query") ∷ optional (codes "scope") string ∷ top_k none ∷ [];
        handler = handle_search_keyword tools svc;
      }
      ∷ record {
        name = codes "search_rag";
        arguments =
            required_string (codes "query")
            ∷ optional (codes "scope") string
            ∷ top_k (some 20)
            ∷ optional (codes "min_score") (number (some 0) (some 1))
            ∷ [];
        handler = handle_search_rag fl tools svc;
      }
      ∷ []

  unfoldable pub register_tools : List (Tool S D R)
  unfolding bundle_tools concept_tools search_tools
  register_tools = bundle_tools ++ (concept_tools ++ search_tools)
