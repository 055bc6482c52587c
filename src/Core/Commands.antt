-- ===== src/Core/Commands.antt =====
-- `resolveActor` and `runCommand` of src/services/core.js: the transaction around every command, which
-- records the command as an action under its idempotency key. An identifier or a key that is left
-- out is the empty text; `hashPayload`, a failure of the function's own queries and the message of
-- an error are left out.
use new_humans.Prelude.{
  String, Bool, true, false, not, List, [], ◌∷◌, Option, none, some, ◌==◌, ◌&&◌, ◌||◌,
  if◌then◌else◌,
}
use new_humans.Js.{Value, null}
use new_humans.Core.Events.{Event, append_event}

pub record Actor : Type 0 where
  pub entity_id : String
  pub world_id : String
  pub entity_type : String
  pub identity_status : String

pub record Command : Type 0 where
  pub world_id : String
  pub actor_entity_id : String
  pub action_type : String
  pub idempotency_key : String
  pub payload_hash : String

pub data ActionStatus : Type 0 where
  pending succeeded failed : ActionStatus

pub record Action : Type 0 where
  pub action_id : String
  pub command : Command
  pub status : ActionStatus
  pub result_json : Option Value
  pub error_code : Option String

-- The tables that commands work on, the log of events, and the actions, the newest first.
pub record Database (D : Type 0) : Type 0 where
  pub domain : D
  pub events : List Event
  pub actions : List Action

-- What the work of a command does: it returns a result and what it made of the tables, or throws an
-- error, whose `code` may be absent.
pub data Worked (D : Type 0) : Type 0 where
  returns : Value → D → List Event → Worked D
  throws : Option String → Worked D

pub data Reply : Type 0 where
  completed : (replayed : Bool) (action_id : String) (result : Value) → Reply
  fails : (code : Option String) (action_id : Option String) → Reply

-- `code || fallback`.
unfoldable pub code_or : Option String → String → String
code_or none fallback = fallback
code_or (some code) fallback = if code == "" then fallback else code

abbrev is_active_actor : Option Actor → Option Actor
is_active_actor none = none
is_active_actor (some a) = if a.identity_status == "ACTIVE" then some a else none

abbrev has_key : Command → Action → Bool
has_key c a =
    (a.command.world_id == c.world_id)
    && (a.command.actor_entity_id == c.actor_entity_id)
    && (a.command.idempotency_key == c.idempotency_key)

unfoldable pub find_action : Command → List Action → Option Action
find_action c [] = none
find_action c (a ∷ rows) = let rest = find_action c rows in if has_key c a then some a else rest

abbrev or_null : Option Value → Value
or_null none = null
or_null (some v) = v

abbrev pub by_status : Action → ActionStatus → Reply
by_status a succeeded = completed true a.action_id (or_null a.result_json)
by_status a _ = fails (some (code_or a.error_code "COMMAND_NOT_REPLAYABLE")) none

-- The answer from the action that has the key.
unfoldable pub replay : Command → Action → Reply
unfolding code_or
replay c a =
    if not (a.command.action_type == c.action_type)
      || not (a.command.payload_hash == c.payload_hash)
    then fails (some "IDEMPOTENCY_CONFLICT") none
    else by_status a a.status

-- The table of entities in `D`, and what jsonb keeps of a value.
module _ {D : Type 0} (entity_row : D → String → Option Actor) (jsonb : Value → Value) where
  -- `none` is UNAUTHENTICATED.
  unfoldable pub resolve_actor : D → String → Option Actor
  resolve_actor d id = if id == "" then none else is_active_actor (entity_row d id)

  abbrev action_event : String → String → Command → List Event → List Event
  action_event event_type id c es = append_event "ACTION" id event_type (some c.actor_entity_id) es

  -- An error rolls the tables back to where the work began.
  unfoldable pub finish : Database D → String → Command → Worked D → Reply × Database D
  unfolding code_or
  finish db id c (returns v d es) = (
    completed false id v,
    record {
      domain = d;
      events = action_event "ACTION_SUCCEEDED" id c es;
      actions =
          record {
            action_id = id;
            command = c;
            status = succeeded;
            result_json = some (jsonb v);
            error_code = none;
          }
          ∷ db.actions;
    },
  )
  finish db id c (throws code) = (
    fails code (some id),
    record {
      domain = db.domain;
      events = action_event "ACTION_FAILED" id c db.events;
      actions =
          record {
            action_id = id;
            command = c;
            status = failed;
            result_json = none;
            error_code = some (code_or code "COMMAND_FAILED");
          }
          ∷ db.actions;
    },
  )

  -- `id` is the identifier of a new action.
  module _ (execute : String → Actor → D → List Event → Worked D) (db : Database D) (id : String)
      (c : Command) where
    unfoldable pub at_key : Actor → Option Action → Reply × Database D
    unfolding replay finish
    at_key actor (some a) = (replay c a, db)
    at_key actor none = finish db id c (execute id actor db.domain db.events)

    unfoldable pub with_actor : Option Actor → Reply × Database D
    unfolding at_key find_action
    with_actor none = (fails (some "UNAUTHENTICATED") none, db)
    with_actor (some actor) =
        if actor.world_id == c.world_id
        then at_key actor (find_action c db.actions)
        else (fails (some "WORLD_MISMATCH") none, db)

    unfoldable pub run_command : Reply × Database D
    unfolding with_actor resolve_actor
    run_command =
        if c.idempotency_key == ""
        then (fails (some "IDEMPOTENCY_KEY_REQUIRED") none, db)
        else with_actor (resolve_actor db.domain c.actor_entity_id)
