-- ===== src/Core/Tests.antt =====
-- A command that is carried out, and sent again with work that would throw.
use new_humans.Prelude.{
  String, List, [], ◌∷◌, Option, none, some, false, ◌==◌, if◌then◌else◌, true, ◌≡◌, refl,
}
use new_humans.Js.{Value, string}
use new_humans.Core.Events.{Event}
use new_humans.Core.Commands.{
  Actor, Command, Database, Worked, returns, throws, completed, run_command,
}
use new_humans.Core.Receipts.{repeated, run_command-repeats}

abbrev clerk : Actor
clerk = record {
  entity_id = "a1";
  world_id = "w";
  entity_type = "HUMAN";
  identity_status = "ACTIVE";
}

abbrev entity_of : List String → String → Option Actor
entity_of notes id = if id == "a1" then some clerk else none

abbrev kept : Value → Value
kept v = v

abbrev note_down : String → Actor → List String → List Event → Worked (List String)
note_down id actor notes es = returns (string "noted") ("note" ∷ notes) es

abbrev give_up : String → Actor → List String → List Event → Worked (List String)
give_up id actor notes es = throws (some "TOO_LATE")

abbrev empty_database : Database (List String)
empty_database = record { domain = []; events = []; actions = [] }

abbrev note_command : Command
note_command = record {
  world_id = "w";
  actor_entity_id = "a1";
  action_type = "NOTE";
  idempotency_key = "k1";
  payload_hash = "h1";
}

abbrev after_note : Database (List String)
after_note = (run_command entity_of kept note_down empty_database "id1" note_command).1

run_command-repeats_example :
    run_command entity_of kept give_up after_note "id2" note_command
    ≡ (completed true "id1" (string "noted"), after_note)
unfolding run_command repeated
run_command-repeats_example =
    run_command-repeats entity_of kept note_down give_up empty_database "id1" "id2" note_command
      (completed false "id1" (string "noted")) after_note refl refl
