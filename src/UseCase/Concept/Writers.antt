-- ===== src/UseCase/Concept/Writers.antt =====
-- WriteConcept of internal/usecase/concept.go in several goroutines: the mutex of each bundle, and the steps
-- at the logs. The steps before the log touch no log, and stand for one here.
pub mod Logged
use go_tahu_okf_semantic_mcp.Prelude.{
  ◌≡◌, Bool, true, not, Option, none, some, ℕ, ◌==◌, [], ◌∷◌, ◌++◌, List, if◌then◌else◌, Bytes,
  str_eq, ◌&&◌,
}
use go_tahu_okf_semantic_mcp.Domain.Ref.{ConceptRef}
use go_tahu_okf_semantic_mcp.Domain.Types.{Time}
use go_tahu_okf_semantic_mcp.UseCase.Concept.{log_entry}
use go_tahu_okf_semantic_mcp.UseCase.Concept.Log.{log_path}

-- Where a goroutine is in a call of WriteConcept.
pub data Phase : Type 0 where
  idle : Phase
  waiting : ConceptRef → Phase
  locked : ConceptRef → Phase
  loaded : ConceptRef → Bytes → Phase
  returning : ConceptRef → Phase

-- What a write of a log has come to: the line at a time, or an error, with the text that it has left. os.WriteFile empties
-- the file before it writes, so that this may be any text.
pub data Event : Type 0 where
  wrote : ConceptRef → Bytes → Event
  tore : ConceptRef → Bytes → Event

-- The logs by bundle and path, and the writes of them, the last one first.
pub record System : Type 0 where
  pub logs : Bytes → Bytes → Bytes
  -- bundleMu: the goroutine that holds the mutex of a bundle
  pub holder : Bytes → Option ℕ
  pub phase : ℕ → Phase
  pub done : List Event

unfoldable pub set_phase : ℕ → Phase → (ℕ → Phase) → ℕ → Phase
set_phase i x phase j = if i == j then x else phase j

abbrev pub in_phase : ℕ → Phase → System → System
in_phase i x s = record s { phase = set_phase i x s.phase }

-- The mutex of the bundle `a` with another holder.
unfoldable pub set_holder : Bytes → Option ℕ → (Bytes → Option ℕ) → Bytes → Option ℕ
set_holder a h holder b = if str_eq a b then h else holder b

unfoldable pub set_log : Bytes → Bytes → Bytes → (Bytes → Bytes → Bytes) → Bytes → Bytes → Bytes
set_log a p text logs b q = if str_eq a b && str_eq p q then text else logs b q

-- The log of the directory of a concept.
abbrev pub log_of : ConceptRef → (Bytes → Bytes → Bytes) → Bytes
log_of ref logs = logs ref.bundle_alias (log_path ref)

pub data Step : System → System → Type 0 where
  call :
      (s : System) (i : ℕ) (ref : ConceptRef)
      → s.phase i ≡ idle
      → Step s (in_phase i (waiting ref) s)
  -- mu.Lock() goes on where no goroutine holds the mutex of the bundle.
  lock :
      (s : System) (i : ℕ) (ref : ConceptRef)
      → s.phase i ≡ waiting ref
      → s.holder ref.bundle_alias ≡ none
      → Step s (record (in_phase i (locked ref) s) {
        holder = set_holder ref.bundle_alias (some i) s.holder;
      })
  -- ReadReserved of appendLog
  read :
      (s : System) (i : ℕ) (ref : ConceptRef)
      → s.phase i ≡ locked ref
      → Step s (in_phase i (loaded ref (log_of ref s.logs)) s)
  -- WriteReserved of appendLog
  write :
      (s : System) (i : ℕ) (ref : ConceptRef) (text time : Bytes)
      → s.phase i ≡ loaded ref text
      → Step s (record (in_phase i (returning ref) s) {
        logs = set_log ref.bundle_alias (log_path ref) (text ++ log_entry time ref) s.logs;
        done = wrote ref time ∷ s.done;
      })
  -- An error of Put, of the index or of the read.
  no_read :
      (s : System) (i : ℕ) (ref : ConceptRef)
      → s.phase i ≡ locked ref
      → Step s (in_phase i (returning ref) s)
  -- An error of WriteReserved of appendLog, which leaves some text.
  no_write :
      (s : System) (i : ℕ) (ref : ConceptRef) (text left : Bytes)
      → s.phase i ≡ loaded ref text
      → Step s (record (in_phase i (returning ref) s) {
        logs = set_log ref.bundle_alias (log_path ref) left s.logs;
        done = tore ref left ∷ s.done;
      })
  -- The deferred mu.Unlock()
  unlock :
      (s : System) (i : ℕ) (ref : ConceptRef)
      → s.phase i ≡ returning ref
      → Step s (record (in_phase i idle s) { holder = set_holder ref.bundle_alias none s.holder })

pub data Reach (s : System) : System → Type 0 where
  start : Reach s s
  later : {t u : System} → Reach s t → Step t u → Reach s u

-- No goroutine is in a call, and the mutexes are free.
abbrev pub at_rest : (Bytes → Bytes → Bytes) → System
at_rest logs = record { logs = logs; holder = λ a. none; phase = λ i. idle; done = [] }

abbrev pub at_log : ConceptRef → Bytes → Bytes → Bool
at_log ref a p = str_eq ref.bundle_alias a && str_eq (log_path ref) p

-- What the writes, one after the other, make of the log of the bundle `a` at `p`.
unfoldable pub replay : List Event → (Bytes → Bytes → Bytes) → Bytes → Bytes → Bytes
replay [] logs a p = logs a p
replay (wrote ref time ∷ done) logs a p =
    let before = replay done logs a p in
    if at_log ref a p then before ++ log_entry time ref else before
replay (tore ref left ∷ done) logs a p =
    let before = replay done logs a p in if at_log ref a p then left else before

-- The lines of the writes to the log, in their order.
unfoldable pub lines_of : List Event → Bytes → Bytes → Bytes
lines_of [] a p = []
lines_of (wrote ref time ∷ done) a p =
    let before = lines_of done a p in
    if at_log ref a p then before ++ log_entry time ref else before
lines_of (tore ref left ∷ done) a p = lines_of done a p

-- No write of the log has failed.
unfoldable pub is_untorn : List Event → Bytes → Bytes → Bool
is_untorn [] a p = true
is_untorn (wrote ref time ∷ done) a p = is_untorn done a p
is_untorn (tore ref left ∷ done) a p =
    let before = is_untorn done a p in not (at_log ref a p) && before
