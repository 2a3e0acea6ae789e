-- ===== src/UseCase/Concept/Writers/Logged.antt =====
-- The logs, whatever goroutines write.
use go_tahu_okf_semantic_mcp.Prelude.{◌≡◌, true, false, Option, some, ℕ, Bytes, str_eq, ◌++◌}
use go_tahu_okf_semantic_mcp.UseCase.Concept.Writers.{
  Phase, idle, waiting, locked, loaded, returning, System, log_of, replay, lines_of, is_untorn,
}

-- What holds of the phase of the goroutine `i`: behind the mutex it is the holder, and what it has read is what the log
-- still is.
abbrev Fits : (Bytes → Bytes → Bytes) → (Bytes → Option ℕ) → ℕ → Phase → Type 0
Fits logs holder i idle = Unit
Fits logs holder i (waiting ref) = Unit
Fits logs holder i (locked ref) = holder ref.bundle_alias ≡ some i
Fits logs holder i (loaded ref text) = (holder ref.bundle_alias ≡ some i) × (text ≡ log_of ref logs)
Fits logs holder i (returning ref) = holder ref.bundle_alias ≡ some i

record IsReplayed (logs₀ : Bytes → Bytes → Bytes) (s : System) : Type 0 where
  pub fits : (i : ℕ) → Fits s.logs s.holder i (s.phase i)
  pub replayed : (a p : Bytes) → s.logs a p ≡ replay s.done logs₀ a p

-- The log is what the writes make of the old one; and where none of them has failed, it is the old one with their lines
-- behind it.
pub record IsLogged (logs₀ : Bytes → Bytes → Bytes) (s : System) : Type 0 where
  pub fits : (i : ℕ) → Fits s.logs s.holder i (s.phase i)
  pub replayed : (a p : Bytes) → s.logs a p ≡ replay s.done logs₀ a p
  pub whole :
      (a p : Bytes) → is_untorn s.done a p ≡ true → s.logs a p ≡ logs₀ a p ++ lines_of s.done a p

-- What a step at the bundle `a` may change of the logs and of the mutexes.
record Only (a : Bytes) (logs logs' : Bytes → Bytes → Bytes) (holder holder' : Bytes → Option ℕ)
    : Type 0 where
  log : (b p : Bytes) → str_eq a b ≡ false → logs' b p ≡ logs b p
  mutex : (b : Bytes) → str_eq a b ≡ false → holder' b ≡ holder b
