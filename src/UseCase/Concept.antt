-- ===== src/UseCase/Concept.antt =====
-- ConceptService of internal/usecase/concept.go. A call is one sequence of steps on the state; Writers has
-- the steps of several calls, under the mutex of a bundle.
pub mod Guards
pub mod Views
pub mod Log
pub mod Writers
use go_tahu_okf_semantic_mcp.Prelude.{
  Bool, ◌||◌, [], ◌∷◌, ◌++◌, List, if◌then◌else◌, Bytes, codes, str_eq,
}
use go_tahu_okf_semantic_mcp.Exec.{
  reserved_path, missing_type, path_escape, Result, ok, err, is_not_found, Exec, pure, fail, lift,
  attempt, ◌>>=◌, ◌>>◌,
}
use go_tahu_okf_semantic_mcp.Go.Strings.{is_empty, split, has_part}
use go_tahu_okf_semantic_mcp.Go.Space.{trim_space}
use go_tahu_okf_semantic_mcp.Go.Path.{slash, dot, dot_dot, base, dir}
use go_tahu_okf_semantic_mcp.Domain.Ref.{ConceptRef, ref_string}
use go_tahu_okf_semantic_mcp.Domain.Types.{Time, Concept, ConceptLink}
use go_tahu_okf_semantic_mcp.Domain.Interfaces.{NodeRepository}

-- The clock, and `t.UTC().Format(time.RFC3339)`, are given with the repository.
pub record ConceptService (S : Type 0) : Type 0 where
  pub node_repository : NodeRepository S
  pub now : Exec S Time
  pub format_time : Time → Bytes

abbrev pub index_md : Bytes
index_md = codes "index.md"

abbrev pub log_md : Bytes
log_md = codes "log.md"

unfoldable pub is_reserved : Bytes → Bool
is_reserved b = str_eq b index_md || str_eq b log_md

unfoldable pub concept_dir : Bytes → Bytes
concept_dir rel_path = let d = dir rel_path in if str_eq d dot then [] else d

unfoldable pub reserved_file : Bytes → Bytes → Bytes
reserved_file d filename = if is_empty d then filename else d ++ slash ∷ filename

-- The checks of WriteConcept before anything is written.
unfoldable pub validate_write : ConceptRef → Concept → Result (Unit {0})
unfolding is_reserved
validate_write ref concept =
    if is_empty (trim_space concept.frontmatter.type)
    then err missing_type
    else if is_reserved (base ref.relative_path)
    then err reserved_path
    else if is_empty ref.relative_path
    then err path_escape
    else if has_part (split ref.relative_path slash) dot_dot
    then err path_escape
    else ok tt

-- A row of the table of index.md.
unfoldable pub index_row : Bytes → Bytes → Bytes → Bytes
index_row name type title =
    codes "| ["
    ++ name
    ++ codes "]("
    ++ name
    ++ codes ") | "
    ++ type
    ++ codes " | "
    ++ title
    ++ codes " |\n"

-- The line that a write adds to log.md.
unfoldable pub log_entry : Bytes → ConceptRef → Bytes
log_entry time ref =
    codes "- " ++ time ++ codes ": concept_write `" ++ ref_string ref ++ codes "`\n"

module _ {S : Type 0} (s : ConceptService S) where
  open s use {node_repository as repo, now, format_time}

  unfoldable pub read_concept : ConceptRef → Exec S Concept
  read_concept ref = repo.get ref

  -- A directory that is not there has no concepts.
  abbrev pub listed_or_none : Result (List ConceptRef) → Exec S (List ConceptRef)
  listed_or_none (ok refs) t = (ok refs, t)
  listed_or_none (err e) t = (if is_not_found e then ok [] else err e, t)

  unfoldable pub list_concepts : Bytes → Bytes → Exec S (List ConceptRef)
  list_concepts alias sub_path = attempt (repo.list alias sub_path) listed_or_none

  unfoldable pub get_links : ConceptRef → Exec S (List ConceptLink)
  get_links ref = do concept ← repo.get ref; pure concept.outbound_links

  unfoldable pub read_index : Bytes → Bytes → Exec S Bytes
  unfolding reserved_file
  read_index alias dir_path = repo.read_reserved alias (reserved_file dir_path index_md)

  unfoldable pub read_log : Bytes → Bytes → Exec S Bytes
  unfolding reserved_file
  read_log alias dir_path = repo.read_reserved alias (reserved_file dir_path log_md)

  unfoldable pub list_types : Bytes → Exec S (List Bytes)
  list_types alias = repo.list_types alias

  -- The cells of a concept in the index; one that cannot be read has empty cells.
  abbrev pub cells : Result Concept → Bytes × Bytes
  cells (ok concept) = (concept.frontmatter.type, concept.frontmatter.title)
  cells (err e) = ([], [])

  -- One row for each reference.
  unfoldable pub index_rows : List ConceptRef → Bytes → Exec S Bytes
  index_rows [] out = pure out
  index_rows (r ∷ refs) out =
      attempt (repo.get r)
        λ c. index_rows refs (out ++ index_row (base r.relative_path) (cells c).0 (cells c).1)

  unfoldable pub render_index : List ConceptRef → Exec S Bytes
  unfolding index_rows
  render_index [] = pure (codes "# Index\n\n")
  render_index (r ∷ refs) =
      index_rows (r ∷ refs)
        (codes "# Index\n\n" ++ codes "| File | Type | Title |\n|---|---|---|\n")

  -- Errors of the listing are treated as ListConcepts treats them.
  unfoldable pub regenerate_index : ConceptRef → Exec S (Unit {0})
  regenerate_index ref = do
    let d = concept_dir ref.relative_path
    refs ← list_concepts ref.bundle_alias d
    text ← render_index refs
    repo.write_reserved ref.bundle_alias (reserved_file d index_md) text

  -- The text of log.md, empty if there is no such file.
  abbrev pub text_or_empty : Result Bytes → Exec S Bytes
  text_or_empty (ok text) t = (ok text, t)
  text_or_empty (err e) t = (if is_not_found e then ok [] else err e, t)

  unfoldable pub existing_log : Bytes → Bytes → Exec S Bytes
  existing_log alias path = attempt (repo.read_reserved alias path) text_or_empty

  unfoldable pub append_log : ConceptRef → Exec S (Unit {0})
  append_log ref = do
    let path = reserved_file (concept_dir ref.relative_path) log_md
    existing ← existing_log ref.bundle_alias path
    t ← now
    repo.write_reserved ref.bundle_alias path (existing ++ log_entry (format_time t) ref)

  unfoldable pub write_concept : ConceptRef → Concept → Exec S (Unit {0})
  unfolding validate_write
  write_concept ref concept = do
    lift (validate_write ref concept)
    repo.put ref concept
    regenerate_index ref
    append_log ref
