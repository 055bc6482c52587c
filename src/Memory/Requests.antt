-- ===== src/Memory/Requests.antt =====
-- The requests and commands of the port. A field that is left out of a request is `undefined` here.
use new_humans.Prelude.{
  Bool, true, false, not, Option, none, some, Result, ok, fail_if, ◌>>◌, ◌>>=◌, ◌&&◌, ◌||◌,
  if◌then◌else◌, invalid_memory_contract, auth_failed,
}
use new_humans.Prelude.Int.{pos, leb_ℤ}
use new_humans.Platform.{Platform}
use new_humans.Js.{
  when_defined, same_text, Value, undefined, number, int, object, instance_of, end, get,
  is_undefined, is_null,
}
use new_humans.Memory.Bindings.{
  Check, require_string, require_object, require_date_time, assert_trusted_binding,
  assert_memory_subject_scope, assert_source_provenance,
}

pub data MemoryOperation : Type 0 where
  recall append_experience update_relation history : MemoryOperation

-- Schema version, port and authority are constants of every request.
pub record BaseRequest : Type 0 where
  pub world_id : Value
  pub operation : MemoryOperation
  pub subject_id : Value
  pub actor_entity_id : Value
  pub subject_binding : Value

unfoldable pub base_request : Value → Value → MemoryOperation → Result BaseRequest
unfolding get
base_request binding subject operation = do
  resolved ← assert_memory_subject_scope binding subject
  ok record {
    world_id = get "world_id" binding;
    operation = operation;
    subject_id = resolved;
    actor_entity_id = get "actor_entity_id" binding;
    subject_binding = get "mode" binding;
  }

-- `Object.keys(v).length === 0`.
abbrev is_empty : Value → Bool
is_empty (object end) = true
is_empty (instance_of end) = true
is_empty _ = false

abbrev pub require_content : Value → Check
require_content v = require_object v >> fail_if (is_empty v) invalid_memory_contract

-- `null` is read as no cursor.
unfoldable pub normalize_cursor : Value → Result Value
normalize_cursor v =
    if is_undefined v || is_null v then ok undefined else require_string 8192 v >> ok v

abbrev is_limit : Value → Bool
is_limit (number (int z)) = leb_ℤ (pos 1) z && leb_ℤ z (pos 200)
is_limit _ = false

unfoldable pub normalize_limit : Value → Result Value
normalize_limit v =
    if is_undefined v then ok v else fail_if (not (is_limit v)) invalid_memory_contract >> ok v

pub record TimeRange : Type 0 where
  pub from : Value
  pub to : Value

unfoldable pub time_range : Platform → Value → Result (Option TimeRange)
unfolding get
time_range p v =
    let range = do
      require_object v
      when_defined (get "from" v) (require_date_time p)
      when_defined (get "to" v) (require_date_time p)
      fail_if (is_undefined (get "from" v) && is_undefined (get "to" v)) invalid_memory_contract
      ok (some record { from = get "from" v; to = get "to" v })
    in if is_undefined v then ok none else range

pub record RecallRequest : Type 0 where
  pub base : BaseRequest
  pub query : Value
  pub cursor : Value
  pub limit : Value
  pub range : Option TimeRange

unfoldable pub build_recall_request :
    Platform → (binding subject query cursor limit time : Value) → Result RecallRequest
unfolding time_range
build_recall_request p binding subject query cursor limit time = do
  require_content query
  base ← base_request binding subject recall
  c ← normalize_cursor cursor
  n ← normalize_limit limit
  range ← time_range p time
  ok (record { base = base; query = query; cursor = c; limit = n; range = range })

unfoldable pub assert_write_inputs : Platform → (binding key provenance : Value) → Check
unfolding get
assert_write_inputs p binding key provenance = do
  require_string 512 key
  assert_trusted_binding binding
  assert_source_provenance p provenance
  fail_if (not (same_text (get "executor_entity_id" provenance) (get "actor_entity_id" binding)))
      auth_failed

pub record ExperienceCommand : Type 0 where
  pub base : BaseRequest
  pub idempotency_key : Value
  pub occurred_at : Value
  pub experience : Value
  pub provenance : Value

unfoldable pub build_append_experience_command :
    Platform
    → (binding subject key experience occurred_at provenance : Value) → Result ExperienceCommand
build_append_experience_command p binding subject key experience occurred_at provenance = do
  assert_write_inputs p binding key provenance
  require_content experience
  require_date_time p occurred_at
  base ← base_request binding subject append_experience
  ok record {
    base = base;
    idempotency_key = key;
    occurred_at = occurred_at;
    experience = experience;
    provenance = provenance;
  }

abbrev pub is_version : Value → Bool
is_version (number (int z)) = leb_ℤ (pos 0) z
is_version _ = false

pub record RelationCommand : Type 0 where
  pub base : BaseRequest
  pub idempotency_key : Value
  pub relation : Value
  pub provenance : Value
  pub expected_version : Value

unfoldable pub build_update_relation_command :
    Platform
    → (binding subject key relation expected_version provenance : Value) → Result RelationCommand
build_update_relation_command p binding subject key relation expected_version provenance = do
  assert_write_inputs p binding key provenance
  require_content relation
  when_defined expected_version λ v. fail_if (not (is_version v)) invalid_memory_contract
  base ← base_request binding subject update_relation
  ok record {
    base = base;
    idempotency_key = key;
    relation = relation;
    provenance = provenance;
    expected_version = expected_version;
  }

pub record HistoryRequest : Type 0 where
  pub base : BaseRequest
  pub cursor : Value
  pub limit : Value
  pub from : Value
  pub to : Value
  pub kind : Value

unfoldable pub build_history_request :
    Platform → (binding subject cursor limit from to kind : Value) → Result HistoryRequest
build_history_request p binding subject cursor limit from to kind = do
  base ← base_request binding subject history
  c ← normalize_cursor cursor
  n ← normalize_limit limit
  when_defined from (require_date_time p)
  when_defined to (require_date_time p)
  when_defined kind (require_string 128)
  ok (record { base = base; cursor = c; limit = n; from = from; to = to; kind = kind })
