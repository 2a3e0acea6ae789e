-- ===== src/Tests/Listed.antt =====
-- The output of `bundle list` for a registry of one bundle.
use go_tahu_okf_semantic_mcp.Prelude.{
  ◌≡◌, refl, ℕ, ◌+◌, [], ◌∷◌, ◌++◌, List, All, Bytes, codes, str_eq,
}
use go_tahu_okf_semantic_mcp.Exec.{ok, err, not_exist, other}
use go_tahu_okf_semantic_mcp.Go.Map.{Map, lookup}
use go_tahu_okf_semantic_mcp.Go.Strings.{has_prefix, split, join, has_part}
use go_tahu_okf_semantic_mcp.Go.Path.{dir, join_path, clean, is_abs, but_last, ascend}
use go_tahu_okf_semantic_mcp.Domain.Types.{BundleEntry}
use go_tahu_okf_semantic_mcp.Config.{
  Config, Environment, load_default, load_from_path, defaults, home_dir, validate,
}
use go_tahu_okf_semantic_mcp.Registry
use go_tahu_okf_semantic_mcp.Command.{bundle_list_command}
use go_tahu_okf_semantic_mcp.Command.Printed.{
  Format, printed_bundles, bundle_rows, bundle_row, indexed_at,
}
use go_tahu_okf_semantic_mcp.Command.Listed.{IsUncounted, bundle_list_command-IsUncounted}
use go_tahu_okf_semantic_mcp.Command.State.{Platform, Process, bundle_repository}
use go_tahu_okf_semantic_mcp.Tests.Wiring.{in_maps, small}

-- A digit, and the table as it is.
abbrev plain : Format
plain = record {
  itoa = λ n. (b'0' + n) ∷ [];
  format_time = λ t. codes "T";
  tabwriter = λ text. text;
}

abbrev no_settings : Environment
no_settings = record {
  user_home_dir = ok (codes "/");
  read_file = λ p. err not_exist;
  getenv = λ name. [];
  atoi = λ text. err (other "atoi");
  unmarshal = λ text cfg. ok cfg;
}

abbrev one_bundle : Registry.Yaml
one_bundle = record {
  marshal = λ f. ok [];
  unmarshal = λ text. ok (
      record {
        alias = codes "kb";
        root_path = codes "/k";
        description = [];
        tags = [];
        created_at = 5;
        last_indexed_at = 0;
        chunk_ids = [];
      }
      ∷ []);
}

abbrev registered : Platform (Map Bytes) Bytes ℕ ℕ Bytes
registered = record in_maps { registry_yaml = one_bundle }

abbrev at_start : Process (Map Bytes) Bytes ℕ ℕ
at_start = record {
  bm25 = small;
  index = record { graph = []; chunks = []; dims = 0 };
  files = (codes "/.tahu/registry.yaml", 1 ∷ []) ∷ [];
}

abbrev shown : Bytes
shown =
    codes "ALIAS"
    ++ 9 ∷ codes "ROOT_PATH"
    ++ 9 ∷ codes "CONCEPT_COUNT"
    ++ 9 ∷ codes "LAST_INDEXED_AT"
    ++ 10 ∷ codes "kb"
    ++ 9 ∷ codes "/k"
    ++ 9 ∷ codes "0"
    ++ 9 ∷ codes "-"
    ++ 10 ∷ []

list-runs : bundle_list_command registered no_settings plain at_start ≡ (ok shown, at_start)
unfolding bundle_list_command lookup str_eq Registry.list dir join_path clean is_abs has_prefix
    split join but_last ascend load_from_path has_part validate defaults home_dir printed_bundles
    bundle_rows bundle_row indexed_at
list-runs = refl

bundle_list_command-IsUncounted_example :
    (cfg : Config) × (bs : List BundleEntry) × (load_default no_settings ≡ ok cfg)
    × ((bundle_repository registered cfg.bundle_registry).list at_start ≡ (ok bs, at_start))
    × (shown ≡ printed_bundles plain bs)
    × All IsUncounted bs
bundle_list_command-IsUncounted_example =
    bundle_list_command-IsUncounted registered no_settings plain at_start at_start shown list-runs
