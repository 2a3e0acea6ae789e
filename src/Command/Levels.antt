-- ===== src/Command/Levels.antt =====
-- The level of the logger that serve sets up.
use go_tahu_okf_semantic_mcp.Prelude.{◌≡◌, true, arith, Bytes, codes, str_eq_iff}
use go_tahu_okf_semantic_mcp.Exec.{ok}
use go_tahu_okf_semantic_mcp.Go.Strings.{has_part}
use go_tahu_okf_semantic_mcp.Config.{Config, Environment, log_levels, load_from_path}
use go_tahu_okf_semantic_mcp.Config.Validity.{load_from_path-IsValid}
use go_tahu_okf_semantic_mcp.Command.{ServeFlags, overridden}
use go_tahu_okf_semantic_mcp.Command.Printed.{
  Level, level_debug, level_info, level_warn, level_error, init_logger,
}

abbrev pub level_name : Level → Bytes
level_name level_debug = codes "debug"
level_name level_info = codes "info"
level_name level_warn = codes "warn"
level_name level_error = codes "error"

level_name-init_logger : (l : Bytes) → has_part log_levels l ≡ true → level_name (init_logger l) ≡ l
unfolding init_logger has_part
level_name-init_logger l h = ground (
  arith,
  str_eq_iff (codes "debug") l,
  str_eq_iff (codes "info") l,
  str_eq_iff (codes "warn") l,
  str_eq_iff (codes "error") l,
  str_eq_iff l (codes "debug"),
  str_eq_iff l (codes "warn"),
  str_eq_iff l (codes "error"),
)

-- Whatever the file, the environment and the flags of serve say, the level of the logger is the one that the configuration
-- names.
pub level_name-load_from_path :
    (env : Environment) (path : Bytes) (flags : ServeFlags) (cfg : Config)
    → load_from_path env path ≡ ok cfg
    → level_name (init_logger (overridden flags cfg).log_level) ≡ cfg.log_level
unfolding overridden
level_name-load_from_path env path flags cfg h =
    level_name-init_logger cfg.log_level (load_from_path-IsValid env path cfg h).log_level
