-- ===== src/Okf/Resolver.antt =====
-- BundlePathResolver of internal/adapter/okf/pathresolver.go.
pub mod Containment
pub mod Symlinks
pub mod Growth
pub mod Names
use go_tahu_okf_semantic_mcp.Prelude.{
  Bool, true, false, ◌&&◌, ◌||◌, not, Option, none, some, [], ◌∷◌, ◌++◌, List, if◌then◌else◌, Bytes,
  codes, str_eq, ◌==◌,
}
use go_tahu_okf_semantic_mcp.Exec.{
  Error, not_found, not_exist, path_escape, reserved_path, other, Result, ok, err,
}
use go_tahu_okf_semantic_mcp.Exec.Try.{◌>>=◌, ◌>>◌}
use go_tahu_okf_semantic_mcp.Go.Strings.{has_prefix, has_suffix, split}
use go_tahu_okf_semantic_mcp.Go.Path.{slash, clean, join_path, base, rel}
use go_tahu_okf_semantic_mcp.Go.Map.{Map, lookup}

-- filepath.EvalSymlinks, and os.Lstat with the test of its mode for a symbolic link, on the file
-- system as it stands during the call. A missing file is `not_exist`.
pub record Links : Type 0 where
  pub eval_symlinks : Bytes → Result Bytes
  pub lstat : Bytes → Result Bool

-- The root with one separator at its end.
abbrev pub with_sep : Bytes → Bytes
with_sep root = if has_suffix root (slash ∷ []) then root else root ++ slash ∷ []

unfoldable pub contained_path : Bytes → Bytes → Result Bytes
contained_path root rel_path =
    let cleaned = clean (join_path root rel_path) in
    if has_prefix cleaned (with_sep root) then ok cleaned else err path_escape

-- strings.TrimSuffix(root, "/")
abbrev trim_sep : Bytes → Bytes
trim_sep [] = []
trim_sep (c ∷ []) = if c == slash then [] else c ∷ []
trim_sep (c ∷ d ∷ s) = c ∷ trim_sep (d ∷ s)

unfoldable pub is_reserved_name : Bytes → Bool
is_reserved_name b = str_eq b (codes "index.md") || str_eq b (codes "log.md")

module _ (fs : Links) where
  abbrev real_inside : Bytes → Bytes → Result (Unit {0})
  real_inside root real =
      if not (has_prefix (real ++ slash ∷ []) (with_sep root)) && not (str_eq real (trim_sep root))
      then err path_escape
      else ok tt

  unfoldable pub sym_guard_existing : Bytes → Bytes → Result (Unit {0})
  sym_guard_existing abs_path root = elim (fs.eval_symlinks abs_path) [
    | ok real ↦ real_inside root real
    | err not_exist ↦ ok tt
    | err e ↦ err e
  ]

  -- What Lstat of a component means for the walk, whose rest has the given outcome.
  abbrev pub guard_step : Result Bool → Result (Unit {0}) → Result (Unit {0})
  guard_step (ok true) later = err path_escape
  guard_step (ok false) later = later
  guard_step (err not_exist) later = ok tt
  guard_step (err e) later = err e

  -- The walk over the components; it stops at the first that does not exist.
  unfoldable pub guard_components : Bytes → List Bytes → Result (Unit {0})
  guard_components current [] = ok tt
  guard_components current (component ∷ rest) =
      let next = join_path current component in
      guard_step (fs.lstat next) (guard_components next rest)

  abbrev pub guard_relative : Bytes → Option Bytes → Result (Unit {0})
  guard_relative root none = err (other "rel path")
  guard_relative root (some r) = guard_components root (split r slash)

  unfoldable pub sym_guard_new : Bytes → Bytes → Result (Unit {0})
  sym_guard_new abs_path root = guard_relative root (rel root abs_path)

  module _ (roots : Map Bytes) where
    abbrev rooted : Option Bytes → Result Bytes
    rooted none = err not_found
    rooted (some root) = ok root

    unfoldable pub bundle_root : Bytes → Result Bytes
    bundle_root alias = rooted (lookup alias roots)

    unfoldable pub canonical_root : Bytes → Result Bytes
    canonical_root alias = do root ← bundle_root alias; fs.eval_symlinks root

    abbrev not_reserved : Bytes → Result (Unit {0})
    not_reserved abs_path = if is_reserved_name (base abs_path) then err reserved_path else ok tt

    unfoldable pub resolve : Bytes → Bytes → Result Bytes
    unfolding canonical_root contained_path sym_guard_existing is_reserved_name
    resolve alias rel_path = do
      canon ← canonical_root alias
      abs_path ← contained_path canon rel_path
      not_reserved abs_path
      sym_guard_existing abs_path canon
      ok abs_path

    unfoldable pub resolve_new : Bytes → Bytes → Result Bytes
    unfolding canonical_root contained_path sym_guard_new is_reserved_name
    resolve_new alias rel_path = do
      canon ← canonical_root alias
      abs_path ← contained_path canon rel_path
      not_reserved abs_path
      sym_guard_new abs_path canon
      ok abs_path

    unfoldable pub resolve_reserved : Bytes → Bytes → Result Bytes
    unfolding canonical_root contained_path sym_guard_new
    resolve_reserved alias rel_path = do
      canon ← canonical_root alias
      abs_path ← contained_path canon rel_path
      sym_guard_new abs_path canon
      ok abs_path
