-- ===== src/Tests/Files.antt =====
-- The theorems on the registry at a file system that is a map, where every call succeeds.
use go_tahu_okf_semantic_mcp.Prelude.{
  ◌≡◌, refl, Option, none, some, [], ◌∷◌, Bytes, codes, str_eq, str_eq_refl, false, if◌then◌else◌,
}
use go_tahu_okf_semantic_mcp.Exec.{Error, not_found, not_exist, Result, ok, err, Exec}
use go_tahu_okf_semantic_mcp.Go.Map.{Map, lookup, insert, remove, lookup-insert, lookup-remove}
use go_tahu_okf_semantic_mcp.Domain.Types.{BundleEntry}
use go_tahu_okf_semantic_mcp.Registry.{Os, get, put, delete, save}
use go_tahu_okf_semantic_mcp.Registry.Atomicity.{answer, IsFileSystem, IsAtomic, save-IsAtomic}
use go_tahu_okf_semantic_mcp.Registry.Refinement.{after, Holds, get-put, get-delete}
use go_tahu_okf_semantic_mcp.UseCase.Bundle.{Disk}
use go_tahu_okf_semantic_mcp.UseCase.Bundle.Uniqueness.{IsBundleStore}
use go_tahu_okf_semantic_mcp.Registry.Contract.{
  entries_at, service, bundle_repository-IsBundleStore,
}
use go_tahu_okf_semantic_mcp.Tests.Services.{no_nodes}
use go_tahu_okf_semantic_mcp.Tests.Codec.{yaml_of_lists, yaml_of_lists-IsYaml}

abbrev Files : Type 0
Files = Map Bytes

abbrev registry_path : Bytes
registry_path = codes "/r.yaml"

abbrev temp_name : Bytes
temp_name = codes "/t"

abbrev moved : Option Bytes → Bytes → Bytes → Exec Files (Unit {0})
moved none p q s = (err not_exist, s)
moved (some text) p q s = (ok tt, insert q text (remove p s))

abbrev pub in_memory : Os Files
in_memory = record {
  open_lock = λ p s. (ok tt, s);
  flock = λ p s. (ok tt, s);
  close_lock = λ p s. (ok tt, s);
  read_file = λ p s. (answer (lookup p s), s);
  mkdir_all = λ d s. (ok tt, s);
  create_temp = λ d s. (ok temp_name, s);
  write = λ p text s. (ok tt, insert p text s);
  close = λ p s. (ok tt, s);
  rename = λ p q s. moved (lookup p s) p q s;
  remove = λ p s. (ok tt, remove p s);
}

abbrev content : Files → Bytes → Option Bytes
content s p = lookup p s

moved-ok :
    (o : Option Bytes) (p q : Bytes) (s : Files)
    → (moved o p q s).0 ≡ ok tt
    → lookup q (moved o p q s).1 ≡ o
moved-ok none p q s h = absurd (cc h)
moved-ok (some text) p q s h = rw (lookup-insert, str_eq_refl) refl

moved-err :
    (o : Option Bytes) (p q : Bytes) (s : Files) (e : Error)
    → (moved o p q s).0 ≡ err e
    → lookup q (moved o p q s).1 ≡ lookup q s
moved-err none p q s e h = refl
moved-err (some text) p q s e h = absurd (cc h)

temp-differs : str_eq temp_name registry_path ≡ false
unfolding str_eq
temp-differs = refl

in_memory-IsFileSystem : IsFileSystem in_memory registry_path content
in_memory-IsFileSystem = record {
  read = λ s p. refl;
  open_lock_keeps = λ s p. refl;
  flock_keeps = λ s p. refl;
  close_lock_keeps = λ s p. refl;
  mkdir_keeps = λ s d. refl;
  create_keeps = λ s d. refl;
  create_fresh = λ s d tmp e. let same : tmp ≡ temp_name = cc e in rw same temp-differs;
  write_keeps = λ s p text h. rw (lookup-insert, h) refl;
  write_content = λ s p text h. rw (lookup-insert, str_eq_refl) refl;
  close_keeps = λ s p q. refl;
  rename_content = λ s p h. moved-ok (lookup p s) p registry_path s h;
  rename_keeps = λ s p e h. moved-err (lookup p s) p registry_path s e h;
  remove_keeps = λ s p h. rw (lookup-remove, h) refl;
}

abbrev pub kb : BundleEntry
kb = record {
  alias = codes "kb";
  root_path = codes "/srv/kb";
  description = codes "notes";
  tags = codes "x" ∷ [];
  created_at = 5;
  last_indexed_at = 0;
  chunk_ids = [];
  concept_count = 3;
}

-- With no file the registry is empty.
fresh-Holds :
    Holds in_memory yaml_of_lists registry_path content in_memory-IsFileSystem yaml_of_lists-IsYaml
      [] []
unfolding lookup
fresh-Holds = refl

abbrev put_kb : Result (Unit {0}) × Files
put_kb = put in_memory yaml_of_lists registry_path kb []

get-put_example :
    (get in_memory yaml_of_lists registry_path (codes "kb") put_kb.1).0
    ≡ after in_memory yaml_of_lists registry_path content in_memory-IsFileSystem
        yaml_of_lists-IsYaml put_kb.0
        (if str_eq (codes "kb") (codes "kb")
          then ok (record kb { concept_count = 0 })
          else (get in_memory yaml_of_lists registry_path (codes "kb") []).0)
        (get in_memory yaml_of_lists registry_path (codes "kb") []).0
get-put_example =
    get-put in_memory yaml_of_lists registry_path content in_memory-IsFileSystem
      yaml_of_lists-IsYaml kb (codes "kb") [] [] fresh-Holds

abbrev without_kb : Result (Unit {0}) × Files
without_kb = delete in_memory yaml_of_lists registry_path (codes "kb") []

get-delete_example :
    (get in_memory yaml_of_lists registry_path (codes "a") without_kb.1).0
    ≡ after in_memory yaml_of_lists registry_path content in_memory-IsFileSystem
        yaml_of_lists-IsYaml without_kb.0
        (if str_eq (codes "kb") (codes "a")
          then err not_found
          else (get in_memory yaml_of_lists registry_path (codes "a") []).0)
        (get in_memory yaml_of_lists registry_path (codes "a") []).0
get-delete_example =
    get-delete in_memory yaml_of_lists registry_path content in_memory-IsFileSystem
      yaml_of_lists-IsYaml (codes "kb") (codes "a") [] [] fresh-Holds

save-IsAtomic_example :
    IsAtomic registry_path content none
      (some (yaml_of_lists-IsYaml.written []))
      (save in_memory yaml_of_lists registry_path [] [])
unfolding lookup
save-IsAtomic_example =
    save-IsAtomic in_memory registry_path content in_memory-IsFileSystem yaml_of_lists [] _ []
      (yaml_of_lists-IsYaml.marshals [])

-- A disk on which every path is there, with nothing below it.
abbrev disk : Disk Files
disk = record { stat = λ p t. (ok tt, t); walk = λ p t. (ok [], t) }

bundle_repository-IsBundleStore_example :
    IsBundleStore
      (service in_memory yaml_of_lists registry_path content in_memory-IsFileSystem
        yaml_of_lists-IsYaml no_nodes disk
        (λ t. (ok 7, t))
        (λ t p. refl)
        (λ t p. refl)
        (λ t. refl))
      (entries_at in_memory yaml_of_lists registry_path content in_memory-IsFileSystem
        yaml_of_lists-IsYaml)
bundle_repository-IsBundleStore_example =
    bundle_repository-IsBundleStore in_memory yaml_of_lists registry_path content
      in_memory-IsFileSystem yaml_of_lists-IsYaml no_nodes disk (λ t. (ok 7, t)) (λ t p. refl)
      (λ t p. refl) (λ t. refl)
