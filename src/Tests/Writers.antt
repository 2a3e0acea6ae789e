-- ===== src/Tests/Writers.antt =====
-- The logs at two goroutines that write a concept each to one directory.
use go_tahu_okf_semantic_mcp.Prelude.{none, some, [], ◌∷◌, codes, Bytes}
use go_tahu_okf_semantic_mcp.Domain.Ref.{ConceptRef}
use go_tahu_okf_semantic_mcp.UseCase.Concept.{log_entry}
use go_tahu_okf_semantic_mcp.UseCase.Concept.Log.{log_path}
use go_tahu_okf_semantic_mcp.UseCase.Concept.Writers.{
  wrote, idle, waiting, locked, loaded, returning, System, in_phase, set_holder, set_log, at_rest,
}

abbrev no_logs : Bytes → Bytes → Bytes
no_logs a p = []

abbrev a_ref : ConceptRef
a_ref = record { bundle_alias = codes "k"; relative_path = codes "a.md" }

abbrev b_ref : ConceptRef
b_ref = record { bundle_alias = codes "k"; relative_path = codes "b.md" }

-- Both call, and the first goes through before the second has the mutex.
abbrev both_waiting : System
both_waiting = in_phase 2 (waiting b_ref) (in_phase 1 (waiting a_ref) (at_rest no_logs))

abbrev first_locked : System
first_locked = record (in_phase 1 (locked a_ref) both_waiting) {
  holder = set_holder (codes "k") (some 1) both_waiting.holder;
}

abbrev first_written : System
first_written = record (in_phase 1 (returning a_ref) (in_phase 1 (loaded a_ref []) first_locked)) {
  logs = set_log (codes "k") (log_path a_ref) (log_entry (codes "T") a_ref) no_logs;
  done = wrote a_ref (codes "T") ∷ [];
}

abbrev second_read : System
second_read =
    let is_free = record (in_phase 1 idle first_written) {
      holder = set_holder (codes "k") none first_written.holder;
    } in
    let has_lock = record (in_phase 2 (locked b_ref) is_free) {
      holder = set_holder (codes "k") (some 2) is_free.holder;
    } in
    in_phase 2 (loaded b_ref (first_written.logs (codes "k") (log_path b_ref))) has_lock
