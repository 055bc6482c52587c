-- ===== src/Saga/Create.antt =====
-- The creation of a saga.
use new_humans.Prelude.{
  String, none, Result, ok, err, ◌>>=◌, ◌>>◌, invalid_saga_input, if◌then◌else◌, Bool, true, false,
  not, fail_if,
}
use new_humans.Prelude.Int.{ℤ, pos, leb_ℤ}
use new_humans.Platform.{Platform}
use new_humans.Js.{int, Value, number, null}
use new_humans.Saga.Types.{
  SagaKind, contract_activation, contract_settlement, other_kind, pending_remote, Saga,
  primary_step_of, non_empty_text, saga_operation_key,
}
use new_humans.Saga.Requests.{canonical_financial_request, digest_financial_request}

abbrev pub protocol_version : String
protocol_version = "nh.cross_product_saga.v1"

pub record SagaInput : Type 0 where
  pub saga_id : Value
  pub world_id : Value
  pub contract_id : Value
  pub contract_version : Value
  pub business_attempt_id : Value
  pub request : Value

-- `Object.values(SagaKind).includes(kind)`.
abbrev pub is_kind : SagaKind → Bool
is_kind (other_kind s) = false
is_kind _ = true

-- `positiveVersion`.
unfoldable pub positive_version : Value → Result ℤ
positive_version (number (int z)) = if leb_ℤ (pos 1) z then ok z else err invalid_saga_input
positive_version _ = err invalid_saga_input

unfoldable pub create_saga : Platform → SagaKind → SagaInput → Result Saga
create_saga p kind i = do
  fail_if (not (is_kind kind)) invalid_saga_input
  saga_id ← non_empty_text i.saga_id
  world_id ← non_empty_text i.world_id
  contract_id ← non_empty_text i.contract_id
  business_attempt_id ← non_empty_text i.business_attempt_id
  contract_version ← positive_version i.contract_version
  primary_request ← canonical_financial_request p (primary_step_of kind) i.request
  key ← saga_operation_key world_id business_attempt_id (primary_step_of kind)
  digest ← digest_financial_request p primary_request
  ok (record {
    protocol_version = protocol_version;
    kind = kind;
    saga_id = saga_id;
    business_attempt_id = business_attempt_id;
    world_id = world_id;
    contract_id = contract_id;
    contract_version = contract_version;
    state = pending_remote;
    primary_step = primary_step_of kind;
    primary_operation_key = key;
    primary_payload_digest = digest;
    primary_request = primary_request;
    primary_result = none;
    compensation_operation_key = none;
    compensation_payload_digest = none;
    compensation_request = null;
    compensation_result = none;
    compensation_reason = none;
  })

unfoldable pub create_contract_activation_saga : Platform → SagaInput → Result Saga
create_contract_activation_saga p i = create_saga p contract_activation i

unfoldable pub create_contract_settlement_saga : Platform → SagaInput → Result Saga
create_contract_settlement_saga p i = create_saga p contract_settlement i
