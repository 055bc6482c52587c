-- ===== src/Idempotency/Attempt.antt =====
-- An attempt, its scope across products, and the checks that a retry is of the same operation.
use new_humans.Prelude.{
  Code, String, not, ◌||◌, ◌==◌, leb, if◌then◌else◌, Option, none, some, Result, ok, err, fail_if,
  ◌>>=◌, ◌>>◌, invalid_kb_idempotency_context, idempotency_scope_mismatch, correlation_id_changed,
  request_id_reused, idempotency_conflict,
}
use new_humans.Prelude.Int.{ℤ, pos, leb_ℤ}
use new_humans.Platform.{Platform}
use new_humans.Js.{int, Value, undefined, number, string}
use new_humans.Js.Text.{length_of}
use new_humans.Js.Json.{◌<>◌}
use new_humans.Idempotency.Canonical.{payload_digest}

abbrev pub kb_idempotency_contract_version : String
kb_idempotency_contract_version = "nh.kb-idempotency.v1"

abbrev pub kb_authority : String
kb_authority = "knowledge-ball"

pub data OperationClass : Type 0 where
  read write funds_write : OperationClass

pub data OriginProduct : Type 0 where
  newhumans knowledge_ball : OriginProduct

abbrev pub default_to : Value → Value → Value
default_to undefined w = w
default_to v w = v

-- `OPERATION_CLASSES.has(v)`, with the class that was found.
unfoldable pub read_operation_class : Value → Option OperationClass
read_operation_class (string s) =
    if s == "READ"
    then some read
    else if s == "WRITE"
    then some write
    else if s == "FUNDS_WRITE"
    then some funds_write
    else none
read_operation_class _ = none

read_origin_product : Value → Option OriginProduct
read_origin_product (string s) =
    if s == "newhumans"
    then some newhumans
    else if s == "knowledge-ball"
    then some knowledge_ball
    else none
read_origin_product _ = none

-- `Number.isInteger(v)`, with the number, where it is not below `least`.
unfoldable pub integer_from : ℤ → Value → Option ℤ
integer_from least (number (int z)) = if leb_ℤ least z then some z else none
integer_from least _ = none

abbrev pub or_fail {ℓ} : {A : Type ℓ} → Option A → Code → Result A
or_fail none e = err e
or_fail (some a) e = ok a

unfoldable pub require_string : Value → Result String
unfolding length_of
require_string (string s) =
    if s == "" || not (leb (length_of s) 200) then err invalid_kb_idempotency_context else ok s
require_string _ = err invalid_kb_idempotency_context

abbrev pub separator : String
separator = "\u{1f}"

unfoldable pub build_cross_product_scope : Value → Value → Value → Value → Result String
unfolding require_string
build_cross_product_scope world actor operation key = do
  w ← require_string world
  a ← require_string actor
  o ← require_string operation
  k ← require_string key
  ok (kb_authority <> separator <> w <> separator <> a <> separator <> o <> separator <> k)

pub record AttemptInput : Type 0 where
  pub world_id : Value
  pub actor_id : Value
  pub operation : Value
  pub operation_class : Value
  pub origin_product : Value
  pub idempotency_key : Value
  pub request_id : Value
  pub correlation_id : Value
  pub payload : Value
  pub attempt_number : Value
  pub retry_budget : Value

pub record KbAttempt : Type 0 where
  pub contract_version : String
  pub authority : String
  pub world_id : String
  pub actor_entity_id : String
  pub operation : String
  pub operation_class : OperationClass
  pub origin_product : OriginProduct
  pub idempotency_key : String
  pub request_id : String
  pub correlation_id : String
  pub payload_digest : String
  pub payload : Value
  pub attempt_number : ℤ
  pub retry_budget : ℤ
  pub scope_key : String

unfoldable pub build_kb_attempt : Platform → AttemptInput → Result KbAttempt
unfolding read_operation_class read_origin_product integer_from build_cross_product_scope
build_kb_attempt p i = do
  class ←
      or_fail (read_operation_class (default_to i.operation_class (string "WRITE")))
        invalid_kb_idempotency_context
  origin ← or_fail (read_origin_product i.origin_product) invalid_kb_idempotency_context
  count ← or_fail (integer_from (pos 1) i.attempt_number) invalid_kb_idempotency_context
  budget ←
      or_fail (integer_from (pos 0) (default_to i.retry_budget (Value.number (int (pos 3)))))
        invalid_kb_idempotency_context
  world ← require_string i.world_id
  actor ← require_string i.actor_id
  operation ← require_string i.operation
  key ← require_string i.idempotency_key
  request ← require_string i.request_id
  correlation ← require_string i.correlation_id
  digest ← payload_digest p i.payload
  scope ← build_cross_product_scope i.world_id i.actor_id i.operation i.idempotency_key
  ok (record {
    contract_version = kb_idempotency_contract_version;
    authority = kb_authority;
    world_id = world;
    actor_entity_id = actor;
    operation = operation;
    operation_class = class;
    origin_product = origin;
    idempotency_key = key;
    request_id = request;
    correlation_id = correlation;
    payload_digest = digest;
    payload = i.payload;
    attempt_number = count;
    retry_budget = budget;
    scope_key = scope;
  })

unfoldable pub assert_same_logical_operation : KbAttempt → KbAttempt → Result (Unit {0})
assert_same_logical_operation existing incoming = do
  fail_if (not (existing.scope_key == incoming.scope_key)) idempotency_scope_mismatch
  fail_if (not (existing.correlation_id == incoming.correlation_id)) correlation_id_changed
  fail_if (existing.request_id == incoming.request_id) request_id_reused
  fail_if (not (existing.payload_digest == incoming.payload_digest)) idempotency_conflict

unfoldable pub assert_duplicate_payload : Platform → String → Value → Result String
unfolding payload_digest
assert_duplicate_payload p existing payload = do
  incoming ← payload_digest p payload
  fail_if (not (existing == incoming)) idempotency_conflict
  ok incoming
