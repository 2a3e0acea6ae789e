-- ===== src/Registry/Processes.antt =====
-- Put and Delete of internal/infra/registry/yaml.go in several processes at once, with the lock of flock.go.
-- A step is what one process does between two points where another may run: to take the lock, to read the
-- file, to rename the new file into place, and to close the lock file. The reads of Get and List change
-- nothing and are no steps.
pub mod Serial
use go_tahu_okf_semantic_mcp.Prelude.{
  ◌≡◌, Bool, Option, none, some, ℕ, ◌==◌, [], ◌∷◌, List, Bytes, if◌then◌else◌,
}
use go_tahu_okf_semantic_mcp.Domain.Types.{BundleEntry}
use go_tahu_okf_semantic_mcp.Registry.{YamlFile, to_yaml, put_entry, delete_entry}

pub data Call : Type 0 where
  put_call : BundleEntry → Call
  delete_call : Bytes → Call

-- What a call writes for the registry that it read.
abbrev pub effect : Call → YamlFile → YamlFile
effect (put_call entry) file = put_entry (to_yaml entry) file
effect (delete_call alias) file = delete_entry alias file

-- Where a process is: between calls; before the lock; behind it; behind load, with what that returned; and
-- before the deferred close, after a rename or an error.
pub data Phase : Type 0 where
  idle : Phase
  waiting : Call → Phase
  locked : Call → Phase
  loaded : Call → YamlFile → Phase
  returning : Phase

-- The file, the holder of the lock, the phase of each process, and the calls that have replaced the file, the
-- last one first.
pub record System : Type 0 where
  pub file : YamlFile
  pub holder : Option ℕ
  pub phase : ℕ → Phase
  pub done : List Call

unfoldable pub set_phase : ℕ → Phase → (ℕ → Phase) → ℕ → Phase
set_phase i x phase j = if i == j then x else phase j

abbrev pub in_phase : ℕ → Phase → System → System
in_phase i x s = record s { phase = set_phase i x s.phase }

pub data Step : System → System → Type 0 where
  call : (s : System) (i : ℕ) (c : Call) → s.phase i ≡ idle → Step s (in_phase i (waiting c) s)
  -- flock with LOCK_EX goes on where nobody holds the lock.
  lock :
      (s : System) (i : ℕ) (c : Call)
      → s.phase i ≡ waiting c
      → s.holder ≡ none
      → Step s (record (in_phase i (locked c) s) { holder = some i })
  load :
      (s : System) (i : ℕ) (c : Call)
      → s.phase i ≡ locked c
      → Step s (in_phase i (loaded c s.file) s)
  -- The rename of save puts the new file in place.
  save :
      (s : System) (i : ℕ) (c : Call) (file : YamlFile)
      → s.phase i ≡ loaded c file
      → Step s (record (in_phase i returning s) { file = effect c file; done = c ∷ s.done })
  -- An error of the lock, of load or of save.
  no_lock : (s : System) (i : ℕ) (c : Call) → s.phase i ≡ waiting c → Step s (in_phase i idle s)
  no_load : (s : System) (i : ℕ) (c : Call) → s.phase i ≡ locked c → Step s (in_phase i returning s)
  no_save :
      (s : System) (i : ℕ) (c : Call) (file : YamlFile)
      → s.phase i ≡ loaded c file
      → Step s (in_phase i returning s)
  -- The deferred close gives the lock back.
  close :
      (s : System) (i : ℕ)
      → s.phase i ≡ returning
      → Step s (record (in_phase i idle s) { holder = none })

pub data Reach (s : System) : System → Type 0 where
  start : Reach s s
  later : {t u : System} → Reach s t → Step t u → Reach s u

-- No process is in a call, and the lock is free.
abbrev pub at_rest : YamlFile → System
at_rest file = record { file = file; holder = none; phase = λ i. idle; done = [] }

-- The calls one after the other, the first of the list last.
unfoldable pub replay : List Call → YamlFile → YamlFile
replay [] file = file
replay (c ∷ cs) file = effect c (replay cs file)
