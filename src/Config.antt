-- ===== src/Config.antt =====
-- internal/infra/config/config.go.
pub mod Validity
use go_tahu_okf_semantic_mcp.Prelude.{
  Bool, true, false, ◌||◌, not, Option, none, some, ℕ, [], ◌∷◌, List, if◌then◌else◌, Bytes, codes,
  str_eq, ℤ, pos, negsuc, int_gt,
}
use go_tahu_okf_semantic_mcp.Exec.{not_exist, other, Result, ok, err}
use go_tahu_okf_semantic_mcp.Exec.Try.{◌>>=◌, ◌>>◌}
use go_tahu_okf_semantic_mcp.Go.Strings.{is_empty, has_part}
use go_tahu_okf_semantic_mcp.Go.Path.{join_path}

pub record Config : Type 0 where
  pub transport : Bytes
  pub port : ℤ
  pub bind_addr : Bytes
  pub bundle_registry : Bytes
  pub embedding_model : Bytes
  pub embedding_batch_size : ℤ
  pub hnsw_ef_construction : ℤ
  pub hnsw_m : ℤ
  pub log_level : Bytes

-- What Load asks of the process: os.UserHomeDir, os.ReadFile, os.Getenv, strconv.Atoi, and yaml.Unmarshal
-- into a configuration that is there.
pub record Environment : Type 0 where
  pub user_home_dir : Result Bytes
  pub read_file : Bytes → Result Bytes
  pub getenv : Bytes → Bytes
  pub atoi : Bytes → Result ℤ
  pub unmarshal : Bytes → Config → Result Config

abbrev pub transports : List Bytes
transports = codes "stdio" ∷ codes "http" ∷ []

abbrev pub log_levels : List Bytes
log_levels = codes "debug" ∷ codes "info" ∷ codes "warn" ∷ codes "error" ∷ []

unfoldable pub validate : Config → Result (Unit {0})
validate c =
    if not (has_part transports c.transport)
    then err (other "transport")
    else if not (int_gt c.port 0) || int_gt c.port 65535
    then err (other "port")
    else if not (has_part log_levels c.log_level)
    then err (other "log_level")
    else if not (int_gt c.embedding_batch_size 0)
    then err (other "embedding_batch_size")
    else ok tt

module _ (env : Environment) where
  abbrev home_or_dot : Result Bytes → Bytes
  home_or_dot (ok h) = h
  home_or_dot (err e) = codes "."

  unfoldable pub home_dir : Bytes
  home_dir = home_or_dot env.user_home_dir

  -- filepath.Join of three elements
  abbrev in_home : Bytes → Bytes
  in_home name = join_path (join_path home_dir (codes ".tahu")) name

  unfoldable pub defaults : Config
  unfolding home_dir
  defaults = record {
    transport = codes "stdio";
    port = pos 3000;
    bind_addr = codes "127.0.0.1";
    bundle_registry = in_home (codes "registry.yaml");
    embedding_model = codes "bm25";
    embedding_batch_size = pos 64;
    hnsw_ef_construction = pos 200;
    hnsw_m = pos 16;
    log_level = codes "info";
  }

  -- The value of a variable where it is set, and else what is there.
  abbrev overridden : Bytes → Bytes → Bytes
  overridden name old = let v = env.getenv name in if is_empty v then old else v

  abbrev parsed_or : ℤ → Result ℤ → ℤ
  parsed_or old (ok p) = p
  parsed_or old (err e) = old

  abbrev port_override : ℤ → ℤ
  port_override old =
      let v = env.getenv (codes "TAHU_PORT") in
      if is_empty v then old else parsed_or old (env.atoi v)

  unfoldable pub apply_env : Config → Config
  apply_env cfg = record cfg {
    transport = overridden (codes "TAHU_TRANSPORT") cfg.transport;
    port = port_override cfg.port;
    log_level = overridden (codes "TAHU_LOG_LEVEL") cfg.log_level;
    embedding_model = overridden (codes "TAHU_EMBED_MODEL") cfg.embedding_model;
    bundle_registry = overridden (codes "TAHU_REGISTRY") cfg.bundle_registry;
  }

  -- The content of the file; a missing one is empty.
  abbrev contents : Result Bytes → Result Bytes
  contents (ok text) = ok text
  contents (err not_exist) = ok []
  contents (err e) = err e

  abbrev pub decoded : Bytes → Result Config
  decoded text = if is_empty text then ok defaults else env.unmarshal text defaults

  abbrev pub file_text : Bytes → Result Bytes
  file_text path =
      contents (env.read_file (if is_empty path then in_home (codes "config.yaml") else path))

  unfoldable pub load_from_path : Bytes → Result Config
  unfolding defaults apply_env validate
  load_from_path path = do
    text ← file_text path
    cfg ← decoded text
    validate (apply_env cfg)
    ok (apply_env cfg)

  -- Load
  abbrev pub load_default : Result Config
  load_default = load_from_path []
