-- ===== src/Command/Printed.antt =====
-- What the commands of cmd/tahu/main.go print, and the level of the logger. The formats of a number and of a time are
-- parameters, and so is what the tabwriter makes of a table.
use go_tahu_okf_semantic_mcp.Prelude.{
  ◌==◌, ℕ, [], ◌∷◌, ◌++◌, List, if◌then◌else◌, Bytes, codes, str_eq,
}
use go_tahu_okf_semantic_mcp.Domain.Types.{Time, BundleEntry}

-- The levels of log/slog that initLogger chooses from.
pub data Level : Type 0 where
  level_debug level_info level_warn level_error : Level

unfoldable pub init_logger : Bytes → Level
init_logger level =
    if str_eq level (codes "debug")
    then level_debug
    else if str_eq level (codes "warn")
    then level_warn
    else if str_eq level (codes "error")
    then level_error
    else level_info

abbrev tab : ℕ
tab = 9

abbrev newline : ℕ
newline = 10

-- The functions of the standard library that the table goes through.
pub record Format : Type 0 where
  pub itoa : ℕ → Bytes
  pub format_time : Time → Bytes
  pub tabwriter : Bytes → Bytes

module _ (format : Format) where
  unfoldable pub indexed_at : BundleEntry → Bytes
  indexed_at b = if b.last_indexed_at == 0 then codes "-" else format.format_time b.last_indexed_at

  unfoldable pub bundle_row : BundleEntry → Bytes
  unfolding indexed_at
  bundle_row b =
      b.alias
      ++ tab ∷ b.root_path
      ++ tab ∷ format.itoa b.concept_count
      ++ tab ∷ indexed_at b
      ++ newline ∷ []

  unfoldable pub bundle_rows : List BundleEntry → Bytes
  unfolding bundle_row
  bundle_rows [] = []
  bundle_rows (b ∷ bs) = bundle_row b ++ bundle_rows bs

  abbrev heading : Bytes
  heading =
      codes "ALIAS"
      ++ tab ∷ codes "ROOT_PATH"
      ++ tab ∷ codes "CONCEPT_COUNT"
      ++ tab ∷ codes "LAST_INDEXED_AT"
      ++ newline ∷ []

  -- The output of `bundle list`.
  unfoldable pub printed_bundles : List BundleEntry → Bytes
  unfolding bundle_rows
  printed_bundles [] = codes "No bundles registered." ++ newline ∷ []
  printed_bundles (b ∷ bs) = format.tabwriter (heading ++ bundle_rows (b ∷ bs))
