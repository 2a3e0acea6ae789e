-- ===== src/Tests/Processes.antt =====
-- The serial order of the calls at two processes that register a bundle each.
use go_tahu_okf_semantic_mcp.Prelude.{refl, none, some, [], ◌∷◌, codes}
use go_tahu_okf_semantic_mcp.Domain.Types.{BundleEntry}
use go_tahu_okf_semantic_mcp.Registry.Processes.{
  Call, put_call, idle, waiting, locked, loaded, returning, effect, System, in_phase, set_phase,
  call, lock, load, save, close, Reach, start, later, at_rest,
}
use go_tahu_okf_semantic_mcp.Registry.Processes.Serial.{IsSerial, Reach-IsSerial}
use go_tahu_okf_semantic_mcp.Tests.Files.{kb}

abbrev other_bundle : BundleEntry
other_bundle = record kb { alias = codes "ops"; root_path = codes "/srv/ops" }

abbrev first_call : Call
first_call = put_call kb

abbrev second_call : Call
second_call = put_call other_bundle

-- Both processes call, the first goes through, and the second after it.
abbrev both_waiting : System
both_waiting = in_phase 2 (waiting second_call) (in_phase 1 (waiting first_call) (at_rest []))

abbrev first_saved : System
first_saved =
    let has_lock = record (in_phase 1 (locked first_call) both_waiting) { holder = some 1 } in
    record (in_phase 1 returning (in_phase 1 (loaded first_call []) has_lock)) {
      file = effect first_call [];
      done = first_call ∷ [];
    }

abbrev second_saved : System
second_saved =
    let is_free = record (in_phase 1 idle first_saved) { holder = none } in
    let has_lock = record (in_phase 2 (locked second_call) is_free) { holder = some 2 } in
    let file = effect first_call [] in
    record (in_phase 2 returning (in_phase 2 (loaded second_call file) has_lock)) {
      file = effect second_call file;
      done = second_call ∷ first_call ∷ [];
    }

run_first : Reach (at_rest []) first_saved
unfolding set_phase
run_first =
    later
      (later
        (later
          (later (later start (call (at_rest []) 1 first_call refl)) (call _ 2 second_call refl))
          (lock both_waiting 1 first_call refl refl))
        (load _ 1 first_call refl))
      (save _ 1 first_call [] refl)

run_both : Reach (at_rest []) second_saved
unfolding set_phase
run_both =
    later
      (later (later (later run_first (close first_saved 1 refl)) (lock _ 2 second_call refl refl))
        (load _ 2 second_call refl))
      (save _ 2 second_call (effect first_call []) refl)

Reach-IsSerial_example : IsSerial [] second_saved
Reach-IsSerial_example = Reach-IsSerial [] run_both
