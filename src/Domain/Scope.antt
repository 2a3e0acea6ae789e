-- ===== src/Domain/Scope.antt =====
-- Scope and ParseScope of internal/domain/chunk.go.
pub mod RoundTrip
use go_tahu_okf_semantic_mcp.Prelude.{
  ℕ, Option, none, some, [], if◌then◌else◌, Bytes, codes, str_eq,
}
use go_tahu_okf_semantic_mcp.Exec.{Result, ok, err, other}
use go_tahu_okf_semantic_mcp.Go.Strings.{has_prefix, trim_prefix, is_empty, cut_byte}

pub data ScopeKind : Type 0 where
  global bundle path : ScopeKind

pub record Scope : Type 0 where
  pub kind : ScopeKind
  pub bundle_alias : Bytes
  pub sub_path : Bytes

abbrev pub colon : ℕ
colon = b':'

abbrev pub bundle_prefix : Bytes
bundle_prefix = codes "bundle:"

abbrev pub path_prefix : Bytes
path_prefix = codes "path:"

-- The part of `path:<alias>:<subpath>` behind `path:`.
parse_path : Option (Bytes × Bytes) → Result Scope
parse_path none = err (other "path scope without a colon")
parse_path (some (alias, sub)) =
    if is_empty alias
    then err (other "path scope without an alias")
    else if is_empty sub
    then err (other "path scope without a subpath")
    else ok (record { kind = path; bundle_alias = alias; sub_path = sub })

-- The part of `bundle:<alias>` behind `bundle:`.
parse_bundle : Bytes → Result Scope
parse_bundle alias =
    if is_empty alias
    then err (other "bundle scope without an alias")
    else ok (record { kind = bundle; bundle_alias = alias; sub_path = [] })

unfoldable pub parse_scope : Bytes → Result Scope
unfolding parse_path parse_bundle
parse_scope s =
    if str_eq s (codes "global")
    then ok (record { kind = global; bundle_alias = []; sub_path = [] })
    else if has_prefix s bundle_prefix
    then parse_bundle (trim_prefix s bundle_prefix)
    else if has_prefix s path_prefix
    then parse_path (cut_byte (trim_prefix s path_prefix) colon)
    else err (other "unrecognised scope")
