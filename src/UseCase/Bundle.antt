-- ===== src/UseCase/Bundle.antt =====
-- BundleService of internal/usecase/bundle.go.
pub mod Uniqueness
use go_tahu_okf_semantic_mcp.Prelude.{
  Bool, true, false, ◌&&◌, not, [], ◌∷◌, ◌++◌, List, if◌then◌else◌, Bytes, codes, str_eq, length,
}
use go_tahu_okf_semantic_mcp.Exec.{
  Error, not_found, not_exist, duplicate_alias, duplicate_path, Result, ok, err, is_not_found, Exec,
  pure, fail, lift, attempt, ◌>>=◌, ◌>>◌,
}
use go_tahu_okf_semantic_mcp.Go.Path.{ext}
use go_tahu_okf_semantic_mcp.Domain.Types.{Time, BundleEntry}
use go_tahu_okf_semantic_mcp.Domain.Interfaces.{BundleRepository, NodeRepository}

-- What filepath.WalkDir reports, in its order: a file or directory, or an error that it met.
pub data WalkStep : Type 0 where
  visit : (path : Bytes) (is_dir : Bool) → WalkStep
  broken : Error → WalkStep

-- os.Stat and filepath.WalkDir on the file system of the state. A missing file is `not_exist`.
pub record Disk (S : Type 0) : Type 0 where
  pub stat : Bytes → Exec S (Unit {0})
  pub walk : Bytes → Exec S (List WalkStep)

pub record BundleService (S : Type 0) : Type 0 where
  pub bundle_repository : BundleRepository S
  pub node_repository : NodeRepository S
  pub disk : Disk S
  pub now : Exec S Time

-- The callback of AddBundle: stops at the first file named *.md, and at an error.
unfoldable pub has_md : List WalkStep → Result Bool
has_md [] = ok false
has_md (visit path is_dir ∷ steps) =
    let rest = has_md steps in
    if not is_dir && str_eq (ext path) (codes ".md") then ok true else rest
has_md (broken e ∷ steps) = err e

abbrev pub md_required : Result Bool → Result (Unit {0})
md_required (ok true) = ok tt
md_required (ok false) = err not_found
md_required (err e) = err e

-- Is the root path registered, under whatever alias?
unfoldable pub root_taken : Bytes → List BundleEntry → Bool
root_taken root [] = false
root_taken root (b ∷ bs) = if str_eq b.root_path root then true else root_taken root bs

module _ {S : Type 0} (s : BundleService S) where
  open s use {bundle_repository as bundles, node_repository as nodes, disk, now}

  -- Steps 1 and 2 of AddBundle: the root exists, and holds a file named *.md.
  abbrev pub root_checked : Bytes → Result (Unit {0}) → Exec S (Unit {0})
  root_checked root (ok _) = do steps ← disk.walk root; lift (md_required (has_md steps))
  root_checked root (err not_exist) = fail not_found
  root_checked root (err e) = fail e

  unfoldable pub check_root : Bytes → Exec S (Unit {0})
  check_root root = attempt (disk.stat root) (root_checked root)

  -- Step 3: no bundle of this alias.
  abbrev pub alias_checked : Result BundleEntry → Exec S (Unit {0})
  alias_checked (ok _) t = (err duplicate_alias, t)
  alias_checked (err e) t = (if is_not_found e then ok tt else err e, t)

  unfoldable pub check_alias : Bytes → Exec S (Unit {0})
  check_alias alias = attempt (bundles.get alias) alias_checked

  -- Step 5: the new entry.
  unfoldable pub new_entry : Bytes → Bytes → Bytes → List Bytes → Time → BundleEntry
  new_entry alias root description tags t = record {
    alias = alias;
    root_path = root;
    description = description;
    tags = tags;
    created_at = t;
    last_indexed_at = 0;
    chunk_ids = [];
    concept_count = 0;
  }

  unfoldable pub register : Bytes → Bytes → Bytes → List Bytes → Exec S BundleEntry
  unfolding new_entry
  register alias root description tags = do
    t ← now
    bundles.put (new_entry alias root description tags t)
    pure (new_entry alias root description tags t)

  -- Step 4: no bundle of this root.
  abbrev pub unless_taken : Bool → Exec S BundleEntry → Exec S BundleEntry
  unless_taken true action = fail duplicate_path
  unless_taken false action = action

  unfoldable pub add_bundle : Bytes → Bytes → Bytes → List Bytes → Exec S BundleEntry
  unfolding root_taken
  add_bundle alias root description tags = do
    check_root root
    check_alias alias
    all ← bundles.list
    unless_taken (root_taken root all) (register alias root description tags)

  unfoldable pub remove_bundle : Bytes → Exec S (Unit {0})
  remove_bundle alias = do _ ← bundles.get alias; bundles.delete alias

  -- The entries with their counts of concepts; a count is left where the listing fails.
  unfoldable pub count_concepts : List BundleEntry → List BundleEntry → Exec S (List BundleEntry)
  count_concepts [] out = pure out
  count_concepts (b ∷ bs) out = attempt (nodes.list b.alias []) λ r. elim r [
    | ok refs ↦ count_concepts bs (out ++ record b { concept_count = length refs } ∷ [])
    | err _ ↦ count_concepts bs (out ++ b ∷ [])
  ]

  unfoldable pub list_bundles : Exec S (List BundleEntry)
  unfolding count_concepts
  list_bundles = do bs ← bundles.list; count_concepts bs []
