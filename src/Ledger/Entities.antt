-- ===== src/Ledger/Entities.antt =====
-- `createEntity` of src/services/core.js: the row of an entity, with its wallet at 0.
use new_humans.Prelude.{
  String, Bool, true, false, not, List, [], ◌∷◌, Option, none, some, Result, ok, fail_if, ◌>>◌,
  ◌==◌, includes, if◌then◌else◌, invalid_entity_type, unique_violation,
}
use new_humans.Prelude.Int.{pos}
use new_humans.Core.Events.{append_event}
use new_humans.Ledger.Rows.{Ledger}

abbrev pub entity_types : List String
entity_types = "HUMAN" ∷ "AGENT" ∷ "COMPANY" ∷ "ORGANIZATION" ∷ "SYSTEM" ∷ []

pub record NewEntity : Type 0 where
  pub entity_id : String
  pub entity_type : String
  pub created_by : Option String
  pub actor_entity_id : Option String

abbrev pub is_some {ℓ} : {A : Type ℓ} → Option A → Bool
is_some none = false
is_some (some _) = true

abbrev or_created_by : Option String → Option String → Option String
or_created_by none created = created
or_created_by (some actor) created = some actor

-- The database makes the identifier, and its primary keys refuse one that is taken.
unfoldable pub create_entity : Ledger → NewEntity → Result Ledger
unfolding append_event
create_entity l q = do
  fail_if (not (includes entity_types q.entity_type)) invalid_entity_type
  fail_if (is_some (l.entities q.entity_id)) unique_violation
  fail_if (is_some (l.wallets q.entity_id)) unique_violation
  ok record l {
    entities = λ k.
        if k == q.entity_id
        then some (record { entity_type = q.entity_type; identity_status = "ACTIVE" })
        else l.entities k;
    wallets = λ k.
        if k == q.entity_id
        then some (record { posted_balance = pos 0; frozen = pos 0 })
        else l.wallets k;
    events =
        append_event "ENTITY" q.entity_id "ENTITY_CREATED"
          (or_created_by q.actor_entity_id q.created_by) l.events;
  }
