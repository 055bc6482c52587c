-- ===== src/Core/Events.antt =====
-- `appendEvent` of src/services/core.js: the log, newest first, numbered for each aggregate. The
-- payload and the row of the outbox that repeats it are left out.
use new_humans.Prelude.{ℕ, ◌+◌, String, Bool, List, [], ◌∷◌, Option, ◌==◌, ◌&&◌, if◌then◌else◌, ltb}

pub record Event : Type 0 where
  pub aggregate_type : String
  pub aggregate_id : String
  pub aggregate_seq : ℕ
  pub event_type : String
  pub actor_entity_id : Option String

abbrev pub is_of : String → String → Event → Bool
is_of kind id e = (e.aggregate_type == kind) && (e.aggregate_id == id)

abbrev pub max_of : ℕ → ℕ → ℕ
max_of m n = if ltb m n then n else m

-- `COALESCE(MAX(aggregate_seq), 0)` of one aggregate.
unfoldable pub max_seq : String → String → List Event → ℕ
max_seq kind id [] = 0
max_seq kind id (e ∷ es) =
    let rest = max_seq kind id es in if is_of kind id e then max_of e.aggregate_seq rest else rest

unfoldable pub append_event : String → String → String → Option String → List Event → List Event
unfolding max_seq
append_event kind id event_type actor es =
    record {
      aggregate_type = kind;
      aggregate_id = id;
      aggregate_seq = max_seq kind id es + 1;
      event_type = event_type;
      actor_entity_id = actor;
    }
    ∷ es
