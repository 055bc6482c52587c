-- ===== src/Core/Receipts.antt =====
-- A command that is sent again under its key.
use new_humans.Prelude.{
  String, true, false, not, List, ◌∷◌, Option, none, some, ◌==◌, ◌||◌, ◌≡◌, refl, sym, ◌∙◌, ap,
  subst, eq_refl, Bool-cases, inl, inr,
}
use new_humans.Js.{Value}
use new_humans.Core.Events.{Event}
use new_humans.Core.Commands.{
  ActionStatus, by_status, Actor, Command, Action, Database, Worked, returns, throws, Reply,
  completed, fails, code_or, find_action, replay, resolve_actor, finish, at_key, with_actor,
  run_command, pending, succeeded, failed,
}

-- What the code that a failure was recorded under is read as.
recorded_code :
    (code : Option String)
    → code_or (some (code_or code "COMMAND_FAILED")) "COMMAND_NOT_REPLAYABLE"
      ≡ code_or code "COMMAND_FAILED"
unfolding code_or
recorded_code none = refl
recorded_code (some code) = elim (Bool-cases (code == "")) [
  | inl blank ↦ rw blank refl
  | inr given ↦ rw (given, given) refl
]

same_command :
    (c : Command) (rows : List Action) (a : Action)
    → a.command ≡ c
    → find_action c (a ∷ rows) ≡ some a
unfolding find_action
same_command c rows a h =
    rw (h, eq_refl c.world_id, eq_refl c.actor_entity_id, eq_refl c.idempotency_key)

-- The answer that a reply is repeated as: a result as jsonb keeps it, an error under its code.
unfoldable pub repeated : (Value → Value) → Reply → Reply
repeated jsonb (completed false id v) = completed true id (jsonb v)
repeated jsonb (completed true id v) = completed true id v
repeated jsonb (fails code (some id)) = fails (some (code_or code "COMMAND_FAILED")) none
repeated jsonb (fails code none) = fails code none

module _ (jsonb : Value → Value) where
  status_again : (a : Action) (t : ActionStatus) → repeated jsonb (by_status a t) ≡ by_status a t
  unfolding repeated
  status_again a pending = refl
  status_again a succeeded = refl
  status_again a failed = refl

  replay_again : (c : Command) (a : Action) → repeated jsonb (replay c a) ≡ replay c a
  unfolding repeated replay
  replay_again c a =
      let other =
        not (a.command.action_type == c.action_type)
        || not (a.command.payload_hash == c.payload_hash) in
      elim (Bool-cases other) [
        | inl differs ↦ rw differs refl
        | inr same ↦ rw same (status_again a a.status)
      ]

  same_reply : (c : Command) (a : Action) → a.command ≡ c → replay c a ≡ by_status a a.status
  unfolding replay
  same_reply c a h = rw (h, eq_refl c.action_type, eq_refl c.payload_hash) refl

module _ {D : Type 0} (entity_row : D → String → Option Actor) (jsonb : Value → Value)
    (execute again : String → Actor → D → List Event → Worked D) (db : Database D)
    (id fresh : String) (c : Command) where
  abbrev Again : Reply × Database D → (Database D → Reply × Database D) → Type 0
  Again first second = second first.1 ≡ (repeated jsonb first.0, first.1)

  -- The second run finds the action of the first.
  found_again :
      (a : Action) (rows : List Action)
      → a.command ≡ c
      → (d : D) (es : List Event) (actor : Actor)
      → let after : Database D = record { domain = d; events = es; actions = a ∷ rows } in
        at_key entity_row jsonb again after fresh c actor (find_action c (a ∷ rows))
        ≡ (by_status a a.status, after)
  unfolding at_key
  found_again a rows h d es actor = rw (same_command c rows a h, same_reply jsonb c a h) refl

  finished_again :
      (actor : Actor) (o : Worked D)
      → Again
          (finish entity_row jsonb db id c o)
          (λ d. at_key entity_row jsonb again d fresh c actor (find_action c d.actions))
  unfolding finish repeated
  finished_again actor (returns v d es) = found_again _ db.actions refl _ _ actor
  finished_again actor (throws code) =
      let after : Database D = (finish entity_row jsonb db id c (throws code)).1 in
      found_again _ db.actions refl _ _ actor
      ∙ ap (λ t. (fails (some t) none, after)) (recorded_code code)

  keyed_again :
      (actor : Actor) (o : Option Action)
      → find_action c db.actions ≡ o
      → Again
          (at_key entity_row jsonb execute db id c actor o)
          (λ d. at_key entity_row jsonb again d fresh c actor (find_action c d.actions))
  unfolding at_key
  keyed_again actor none h = finished_again actor _
  keyed_again actor (some a) h = rw h (ap (λ r. (r, db)) (sym (replay_again jsonb c a)))

  admitted_again :
      (o : Option Actor)
      → Again
          (with_actor entity_row jsonb execute db id c o)
          (λ d. with_actor entity_row jsonb again d fresh c o)
  unfolding with_actor repeated
  admitted_again none = refl
  admitted_again (some actor) = elim (Bool-cases (actor.world_id == c.world_id)) [
    | inl same ↦ rw same (keyed_again actor _ refl)
    | inr other ↦ rw other refl
  ]

  rerun :
      resolve_actor entity_row jsonb
          (run_command entity_row jsonb execute db id c).1.domain
          c.actor_entity_id
        ≡ resolve_actor entity_row jsonb db.domain c.actor_entity_id
      → Again
          (run_command entity_row jsonb execute db id c)
          (λ d. run_command entity_row jsonb again d fresh c)
  unfolding run_command repeated
  rerun same = elim (Bool-cases (c.idempotency_key == "")) [
    | inl blank ↦ rw blank refl
    | inr given ↦ rw (given, rw given at same) (admitted_again _)
  ]

-- A command that is sent again under its key, with whatever work, changes nothing more and is
-- answered as the first time: a result as jsonb keeps it, a failure of its work under its recorded
-- code, any other refusal by the same code. The condition is that resolveActor finds for the actor
-- after the first run what it found before it.
pub run_command-repeats :
    {D : Type 0} (entity_row : D → String → Option Actor) (jsonb : Value → Value)
    (execute again : String → Actor → D → List Event → Worked D) (db : Database D)
    (id fresh : String) (c : Command) (reply : Reply) (after : Database D)
    → run_command entity_row jsonb execute db id c ≡ (reply, after)
    → resolve_actor entity_row jsonb after.domain c.actor_entity_id
      ≡ resolve_actor entity_row jsonb db.domain c.actor_entity_id
    → run_command entity_row jsonb again after fresh c ≡ (repeated jsonb reply, after)
run_command-repeats entity_row jsonb execute again db id fresh c reply after h =
    subst
      (λ r.
        resolve_actor entity_row jsonb r.1.domain c.actor_entity_id
          ≡ resolve_actor entity_row jsonb db.domain c.actor_entity_id
        → run_command entity_row jsonb again r.1 fresh c ≡ (repeated jsonb r.0, r.1))
      h (rerun entity_row jsonb execute again db id fresh c)
