-- ===== src/Okf/Repository.antt =====
-- The reserved files and the listing of internal/adapter/okf/repository.go. The mutex of the writes
-- is not modelled.
pub mod Reserved
pub mod Listing
pub mod Concepts
pub mod Storage
pub mod Store
use go_tahu_okf_semantic_mcp.Prelude.{
  Bool, true, false, ◌&&◌, not, Option, none, some, ℕ, ◌^◌, [], ◌∷◌, List, if◌then◌else◌, Bytes,
  codes, ltb,
}
use go_tahu_okf_semantic_mcp.Exec.{
  Error, not_found, not_exist, input_too_large, other, Result, ok, err, Exec, pure, fail, lift,
  attempt, continue, ◌>>=◌, ◌>>◌,
}
use go_tahu_okf_semantic_mcp.Go.Strings.{has_suffix, is_empty}
use go_tahu_okf_semantic_mcp.Go.Path.{base, dir, join_path, rel}
use go_tahu_okf_semantic_mcp.Go.Map.{Map}
use go_tahu_okf_semantic_mcp.Domain.Ref.{ConceptRef}
use go_tahu_okf_semantic_mcp.UseCase.Bundle.{WalkStep, visit, broken}
use go_tahu_okf_semantic_mcp.Okf.Resolver.{Links, is_reserved_name, bundle_root, resolve_reserved}

-- The calls of package os on the file system of the state, and filepath.WalkDir. `size` is the size
-- that os.Stat tells.
pub record FileSystem (S : Type 0) : Type 0 where
  pub links : S → Links
  pub size : Bytes → Exec S ℕ
  pub read_file : Bytes → Exec S Bytes
  pub mkdir_all : Bytes → Exec S (Unit {0})
  pub write_file : Bytes → Bytes → Exec S (Unit {0})
  pub walk : Bytes → Exec S (List WalkStep)

abbrev pub max_file_bytes : ℕ
max_file_bytes = 2 ^ 20

-- A missing file passes: the read behind the check reports it.
abbrev pub size_checked : Result ℕ → Result (Unit {0})
size_checked (ok n) = if ltb max_file_bytes n then err input_too_large else ok tt
size_checked (err not_exist) = ok tt
size_checked (err e) = err e

abbrev pub read_answer : Result Bytes → Result Bytes
read_answer (ok text) = ok text
read_answer (err not_exist) = err not_found
read_answer (err e) = err e

abbrev pub plus : ConceptRef → Result (List ConceptRef) → Result (List ConceptRef)
plus r (ok refs) = ok (r ∷ refs)
plus r (err e) = err e

abbrev pub plus_at : Bytes → Option Bytes → Result (List ConceptRef) → Result (List ConceptRef)
plus_at alias (some p) rest = plus (record { bundle_alias = alias; relative_path = p }) rest
plus_at alias none rest = err (other "rel path")

-- A file that is listed: named *.md, and not reserved.
unfoldable pub is_concept_file : Bytes → Bool → Bool
unfolding is_reserved_name
is_concept_file path is_dir =
    not is_dir && has_suffix (base path) (codes ".md") && not (is_reserved_name (base path))

-- The callback of List over the steps of the walk.
unfoldable pub walk_refs : Bytes → Bytes → List WalkStep → Result (List ConceptRef)
walk_refs alias root [] = ok []
walk_refs alias root (visit path is_dir ∷ steps) =
    let rest = walk_refs alias root steps in
    if is_concept_file path is_dir then plus_at alias (rel root path) rest else rest
walk_refs alias root (broken not_exist ∷ steps) = walk_refs alias root steps
walk_refs alias root (broken e ∷ steps) = err e

module _ {S : Type 0} (fs : FileSystem S) (roots : Map Bytes) where
  unfoldable pub check_file_size : Bytes → Exec S (Unit {0})
  check_file_size path = attempt (fs.size path) λ r. lift (size_checked r)

  -- The resolver on the file system as it stands.
  unfoldable pub resolved_reserved : Bytes → Bytes → Exec S Bytes
  resolved_reserved alias rel_path t = (resolve_reserved (fs.links t) roots alias rel_path, t)

  unfoldable pub read_reserved : Bytes → Bytes → Exec S Bytes
  unfolding resolved_reserved check_file_size
  read_reserved alias rel_path = do
    abs_path ← resolved_reserved alias rel_path
    check_file_size abs_path
    attempt (fs.read_file abs_path) λ r. lift (read_answer r)

  unfoldable pub write_reserved : Bytes → Bytes → Bytes → Exec S (Unit {0})
  unfolding resolved_reserved
  write_reserved alias rel_path text = do
    abs_path ← resolved_reserved alias rel_path
    fs.mkdir_all (dir abs_path)
    fs.write_file abs_path text

  -- The containment of a sub-path, where there is one.
  unfoldable pub check_sub_path : Bytes → Bytes → Exec S (Unit {0})
  unfolding resolved_reserved
  check_sub_path alias sub_path =
      if is_empty sub_path then pure tt else resolved_reserved alias sub_path >> pure tt

  unfoldable pub list : Bytes → Bytes → Exec S (List ConceptRef)
  unfolding check_sub_path walk_refs
  list alias sub_path = do
    root ← (λ t. (bundle_root (fs.links t) roots alias, t))
    check_sub_path alias sub_path
    steps ← fs.walk (if is_empty sub_path then root else join_path root sub_path)
    lift (walk_refs alias root steps)
