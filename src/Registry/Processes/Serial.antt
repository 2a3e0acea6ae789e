-- ===== src/Registry/Processes/Serial.antt =====
-- Calls of several processes have the effect of the same calls one after the other.
use go_tahu_okf_semantic_mcp.Prelude.{
  ◌≡◌, refl, ap, ◌∙◌, subst, false, Bool-cases, inl, inr, Option, none, some, ℕ, ◌==◌, ==_iff,
  not-some,
}
use go_tahu_okf_semantic_mcp.Registry.{YamlFile}
use go_tahu_okf_semantic_mcp.Registry.Processes.{
  effect, Phase, idle, waiting, locked, loaded, returning, System, set_phase, Step, call, lock,
  load, save, no_lock, no_load, no_save, close, Reach, start, later, at_rest, replay,
}

-- What holds of the phase of the process `i`: behind the lock it is the holder, and what it has read is
-- what the file still holds.
abbrev Fits : YamlFile → Option ℕ → ℕ → Phase → Type 0
Fits file holder i idle = Unit
Fits file holder i (waiting c) = Unit
Fits file holder i (locked c) = holder ≡ some i
Fits file holder i (loaded c y) = (holder ≡ some i) × (y ≡ file)
Fits file holder i returning = holder ≡ some i

pub record IsSerial (file₀ : YamlFile) (s : System) : Type 0 where
  pub fits : (i : ℕ) → Fits s.file s.holder i (s.phase i)
  pub serial : s.file ≡ replay s.done file₀

set_phase-Fits :
    (file : YamlFile) (holder : Option ℕ) (i : ℕ) (x : Phase) (phase : ℕ → Phase)
    → Fits file holder i x
    → ((j : ℕ) → (i == j) ≡ false → Fits file holder j (phase j))
    → (j : ℕ) → Fits file holder j (set_phase i x phase j)
unfolding set_phase
set_phase-Fits file holder i x phase h hs j = elim (Bool-cases (i == j)) [
  | inl e ↦ rw e (subst (λ k. Fits file holder k x) ((==_iff i j).0 e) h)
  | inr n ↦ rw n (hs j n)
]

-- Where nobody, or another process, holds the lock, a process is before it, whatever the file and the new holder are.
outside-Fits :
    (file file' : YamlFile) (holder holder' : Option ℕ) (j : ℕ) (x : Phase)
    → (holder ≡ some j → ⊥)
    → Fits file holder j x
    → Fits file' holder' j x
outside-Fits file file' holder holder' j idle n h = tt
outside-Fits file file' holder holder' j (waiting c) n h = tt
outside-Fits file file' holder holder' j (locked c) n h = absurd (n h)
outside-Fits file file' holder holder' j (loaded c y) n h = absurd (n h.0)
outside-Fits file file' holder holder' j returning n h = absurd (n h)

Step-IsSerial : {s t : System} (file₀ : YamlFile) → Step s t → IsSerial file₀ s → IsSerial file₀ t
unfolding replay
Step-IsSerial file₀ (call s i c at) h = record {
  fits = set_phase-Fits s.file s.holder i (waiting c) s.phase tt λ j n. h.fits j;
  serial = h.serial;
}
Step-IsSerial file₀ (lock s i c at free) h = record {
  fits = set_phase-Fits s.file (some i) i (locked c) s.phase refl λ j n.
      outside-Fits s.file s.file s.holder (some i) j (s.phase j) (λ e. cc (e, free)) (h.fits j);
  serial = h.serial;
}
Step-IsSerial file₀ (load s i c at) h =
    let holds : s.holder ≡ some i = subst (Fits s.file s.holder i) at (h.fits i) in
    record {
      fits =
          set_phase-Fits s.file s.holder i (loaded c s.file) s.phase (holds, refl) λ j n. h.fits j;
      serial = h.serial;
    }
Step-IsSerial file₀ (save s i c y at) h =
    let (holds, same) = subst (Fits s.file s.holder i) at (h.fits i) in
    record {
      fits = set_phase-Fits (effect c y) s.holder i returning s.phase holds λ j n.
          outside-Fits s.file (effect c y) s.holder s.holder j (s.phase j)
            (not-some s.holder i j holds n) (h.fits j);
      serial = ap (effect c) (same ∙ h.serial);
    }
Step-IsSerial file₀ (no_lock s i c at) h = record {
  fits = set_phase-Fits s.file s.holder i idle s.phase tt λ j n. h.fits j;
  serial = h.serial;
}
Step-IsSerial file₀ (no_load s i c at) h = record {
  fits =
      set_phase-Fits s.file s.holder i returning s.phase
        (subst (Fits s.file s.holder i) at (h.fits i)) λ j n. h.fits j;
  serial = h.serial;
}
Step-IsSerial file₀ (no_save s i c y at) h = record {
  fits =
      set_phase-Fits s.file s.holder i returning s.phase
        (subst (Fits s.file s.holder i) at (h.fits i)).0 λ j n. h.fits j;
  serial = h.serial;
}
Step-IsSerial file₀ (close s i at) h =
    let holds : s.holder ≡ some i = subst (Fits s.file s.holder i) at (h.fits i) in
    record {
      fits = set_phase-Fits s.file none i idle s.phase tt λ j n.
          outside-Fits s.file s.file s.holder none j (s.phase j) (not-some s.holder i j holds n)
            (h.fits j);
      serial = h.serial;
    }

-- From a registry at rest, in whatever order the processes take their steps and whichever calls fail: no update is
-- lost. The file is what the calls that have replaced it make of the first registry one after the other, in the order of their
-- renames; and a process that has read it and not returned holds the lock, and has what the file still holds.
pub Reach-IsSerial : (file : YamlFile) {s : System} → Reach (at_rest file) s → IsSerial file s
unfolding replay
Reach-IsSerial file start = record { fits = λ i. tt; serial = refl }
Reach-IsSerial file (later r step) = Step-IsSerial file step (Reach-IsSerial file r)
