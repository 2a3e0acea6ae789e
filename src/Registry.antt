-- ===== src/Registry.antt =====
-- YAMLBundleRepository of internal/infra/registry: yaml.go, and the file lock of flock.go. The
-- in-process mutex is not modelled: a call is one sequence of steps.
pub mod Entries
pub mod Atomicity
pub mod Refinement
pub mod Processes
pub mod Contract
use go_tahu_okf_semantic_mcp.Prelude.{
  Bool, true, false, Option, none, some, [], ◌∷◌, ◌++◌, List, map, if◌then◌else◌, Bytes, codes,
  str_eq,
}
use go_tahu_okf_semantic_mcp.Exec.{
  Error, not_found, not_exist, Result, ok, err, Exec, pure, fail, lift, attempt, continue, ◌>>=◌,
  ◌>>◌,
}
use go_tahu_okf_semantic_mcp.Go.Path.{dir}
use go_tahu_okf_semantic_mcp.Domain.Types.{Time, BundleEntry}

pub record YamlEntry : Type 0 where
  pub alias : Bytes
  pub root_path : Bytes
  pub description : Bytes
  pub tags : List Bytes
  pub created_at : Time
  pub last_indexed_at : Time
  pub chunk_ids : List Bytes

abbrev pub YamlFile : Type 0
YamlFile = List YamlEntry

-- yaml.Marshal and yaml.Unmarshal at `yamlFile`.
pub record Yaml : Type 0 where
  pub marshal : YamlFile → Result Bytes
  pub unmarshal : Bytes → Result YamlFile

-- The calls of package os. A temporary file is known by its name.
pub record Os (S : Type 0) : Type 0 where
  pub open_lock : Bytes → Exec S (Unit {0})
  pub flock : Bytes → Exec S (Unit {0})
  pub close_lock : Bytes → Exec S (Unit {0})
  pub read_file : Bytes → Exec S Bytes
  pub mkdir_all : Bytes → Exec S (Unit {0})
  pub create_temp : Bytes → Exec S Bytes
  pub write : Bytes → Bytes → Exec S (Unit {0})
  pub close : Bytes → Exec S (Unit {0})
  pub rename : Bytes → Bytes → Exec S (Unit {0})
  pub remove : Bytes → Exec S (Unit {0})

unfoldable pub to_yaml : BundleEntry → YamlEntry
to_yaml e = record {
  alias = e.alias;
  root_path = e.root_path;
  description = e.description;
  tags = e.tags;
  created_at = e.created_at;
  last_indexed_at = e.last_indexed_at;
  chunk_ids = e.chunk_ids;
}

unfoldable pub from_yaml : YamlEntry → BundleEntry
from_yaml y = record {
  alias = y.alias;
  root_path = y.root_path;
  description = y.description;
  tags = y.tags;
  created_at = y.created_at;
  last_indexed_at = y.last_indexed_at;
  chunk_ids = y.chunk_ids;
  concept_count = 0;
}

-- The loops of Get, Put and Delete over the entries.
unfoldable pub find_entry : Bytes → YamlFile → Option YamlEntry
find_entry alias [] = none
find_entry alias (e ∷ es) = if str_eq e.alias alias then some e else find_entry alias es

unfoldable pub put_entry : YamlEntry → YamlFile → YamlFile
put_entry y [] = y ∷ []
put_entry y (e ∷ es) =
    let rest = put_entry y es in if str_eq e.alias y.alias then y ∷ es else e ∷ rest

unfoldable pub delete_entry : Bytes → YamlFile → YamlFile
delete_entry alias [] = []
delete_entry alias (e ∷ es) =
    let rest = delete_entry alias es in if str_eq e.alias alias then rest else e ∷ rest

module _ {S : Type 0} (os : Os S) (path : Bytes) where
  -- The steps between the creation of the temporary file and the return.
  unfoldable pub replace_file : Bytes → Bytes → Exec S (Unit {0})
  replace_file tmp text = do os.write tmp text; os.close tmp; os.rename tmp path

  -- The deferred call: the file is closed, and removed if it was not renamed.
  abbrev clean_up : Bytes → Result (Unit {0}) → Exec S (Unit {0})
  clean_up tmp (ok _) s = (ok tt, (os.close tmp s).1)
  clean_up tmp (err e) s = (err e, (os.remove tmp (os.close tmp s).1).1)

  -- The new text in a temporary file beside the registry, and in its place.
  unfoldable pub save_text : Bytes → Exec S (Unit {0})
  unfolding replace_file
  save_text text = do
    os.mkdir_all (dir path)
    tmp ← os.create_temp (dir path)
    attempt (replace_file tmp text) (clean_up tmp)

module _ {S : Type 0} (os : Os S) (yaml : Yaml) (path : Bytes) where
  abbrev lock_path : Bytes
  lock_path = path ++ codes ".lock"

  abbrev parsed : Result Bytes → Exec S YamlFile
  parsed (ok text) s = (yaml.unmarshal text, s)
  parsed (err not_exist) s = (ok [], s)
  parsed (err e) s = (err e, s)

  unfoldable pub load : Exec S YamlFile
  load = attempt (os.read_file path) parsed

  unfoldable pub save : YamlFile → Exec S (Unit {0})
  unfolding save_text
  save f = do text ← lift (yaml.marshal f); save_text os path text

  abbrev found_entry : Option YamlEntry → Exec S BundleEntry
  found_entry none = fail not_found
  found_entry (some e) = pure (from_yaml e)

  unfoldable pub get : Bytes → Exec S BundleEntry
  unfolding load find_entry from_yaml
  get alias = do reg ← load; found_entry (find_entry alias reg)

  -- The lock is held round the action, and closed on every path.
  unfoldable pub with_lock : Exec S (Unit {0}) → Exec S (Unit {0})
  with_lock action = do
    os.open_lock lock_path
    attempt (os.flock lock_path >> action) λ r s. (r, (os.close_lock lock_path s).1)

  unfoldable pub put : BundleEntry → Exec S (Unit {0})
  unfolding with_lock load save put_entry to_yaml
  put entry = with_lock do reg ← load; save (put_entry (to_yaml entry) reg)

  unfoldable pub delete : Bytes → Exec S (Unit {0})
  unfolding with_lock load save delete_entry
  delete alias = with_lock do reg ← load; save (delete_entry alias reg)

  unfoldable pub list : Exec S (List BundleEntry)
  unfolding load from_yaml
  list = do reg ← load; pure (map from_yaml reg)
