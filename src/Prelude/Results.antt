-- ===== src/Prelude/Results.antt =====
-- Fallible code: a returned value or the `code` of the thrown error.
use mathlib.Core.Path.{◌≡◌, refl}
use mathlib.Core.Logic.{◌⊎◌, inl, inr}
use mathlib.Core.Bool.{Bool, true, false}
use new_humans.Prelude.Tests.{if◌then◌else◌}

-- The `code` of an error; messages are left out. `type_error` and `range_error` are the
-- language's own.
pub data Code : Type 0 where
  type_error range_error : Code
  invalid_kb_idempotency_context invalid_kb_payload : Code
  idempotency_scope_mismatch correlation_id_changed request_id_reused idempotency_conflict : Code
  invalid_retry_budget invalid_retry_state unsafe_funds_retry : Code
  invalid_economy_port_envelope invalid_economy_port_request : Code
  unknown_economy_port_operation economy_port_version_mismatch : Code
  invalid_micro_e escrow_allocation_mismatch invalid_economy_port_response : Code
  invalid_saga_input invalid_saga_result invalid_saga invalid_saga_state : Code
  saga_idempotency_conflict saga_result_conflict invalid_saga_transition : Code
  unexpected_saga_operation settlement_compensation_forbidden : Code
  saga_already_active saga_operation_not_found saga_version_conflict saga_not_found : Code
  saga_outbox_lease_lost : Code
  kb_capability_write_blocked invalid_sandbox_contract dependency_unavailable : Code
  invalid_saga_worker_input : Code
  wallet_not_found invalid_amount invalid_transfer forbidden insufficient_energy : Code
  reservation_not_found reservation_not_releasable reservation_not_settleable : Code
  reservation_exceeded daily_fee_unfunded first_activation_minimum_unfunded : Code
  already_activated not_activated check_violation raise_exception unauthenticated world_mismatch :
      Code
  idempotency_key_required invalid_entity_type command_not_replayable : Code
  invalid_relationship_type invalid_relationship_status : Code
  invalid_relationship_dispute_status invalid_validity_period invalid_relationship_parties : Code
  invalid_timestamp action_evidence_missing invalid_source_ref relationship_not_found : Code
  mutual_confirmations_required relationship_mode_mismatch unilateral_actor_mismatch : Code
  mutual_proposer_not_party relationship_header_mismatch mutual_proposal_not_found : Code
  mutual_confirmer_not_party mutual_second_party_required unique_violation : Code
  relationship_version_required invalid_knowledge_port_contract : Code
  invalid_memory_contract binding_missing auth_failed invalid_memory_authority : Code
  model_scoped_long_term_memory_forbidden : Code

pub data Result {ℓ} (A : Type ℓ) : Type ℓ where
  err : Code → Result A
  ok : A → Result A

-- `if (bad) fail(code)`.
abbrev pub fail_if : Bool → Code → Result (Unit {0})
fail_if bad code = if bad then err code else ok tt

infixl 5 ◌>>◌ ◌>>=◌
abbrev pub ◌>>=◌ {κ ℓ} : {X : Type κ} {Y : Type ℓ} → Result X → (X → Result Y) → Result Y
err code >>= next = err code
ok x >>= next = next x

abbrev pub ◌>>◌ {ℓ} : {Y : Type ℓ} → Result (Unit {0}) → Result Y → Result Y
check >> next = check >>= λ done. next

pub >>=-eq-ok {κ ℓ} :
    {X : Type κ} {Y : Type ℓ} (r : Result X) (next : X → Result Y) {y : Y}
    → r >>= next ≡ ok y
    → (x : X) × (r ≡ ok x) × (next x ≡ ok y)
>>=-eq-ok (err code) next e = cc
>>=-eq-ok (ok x) next e = (x, refl, e)

pub Result-cases {ℓ} :
    {A : Type ℓ} (r : Result A) → ((a : A) × (r ≡ ok a)) ⊎ ((e : Code) × (r ≡ err e))
Result-cases (ok a) = inl (a, refl)
Result-cases (err e) = inr (e, refl)

pub ok_inj {ℓ} : {A : Type ℓ} {a b : A} → ok a ≡ ok b → a ≡ b
ok_inj h = cc

pub fail_if-eq-ok : (b : Bool) (e : Code) {u : Unit {0}} → fail_if b e ≡ ok u → b ≡ false
fail_if-eq-ok true e h = cc
fail_if-eq-ok false e h = refl

-- What follows a check that let it pass.
pub guarded {ℓ} :
    {Y : Type ℓ} (b : Bool) (e : Code) (next : Result Y) {y : Y}
    → fail_if b e >> next ≡ ok y
    → next ≡ ok y
guarded true e next h = cc
guarded false e next h = h
