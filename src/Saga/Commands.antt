-- ===== src/Saga/Commands.antt =====
-- The commands and the plan of a reachable saga.
use new_humans.Prelude.{String, ◌≡◌, ◌≢◌, refl, Option, none, some, ok, arith}
use new_humans.Platform.{Platform}
use new_humans.Js.{Value, object, get, get_field}
use new_humans.Saga.Types.{
  SagaState, pending_remote, remote_succeeded, completed, compensation_pending, compensated,
  reconciliation_required, other_state, SagaStep, release_escrow, Saga, primary_step_of,
}
use new_humans.Saga.Requests.{clone, digest_financial_request}
use new_humans.Saga.Normal.{Normal, clone-json}
use new_humans.Saga.Transitions.{
  FinancialCommand, PlanAction, query_primary_then_retry_same_key, commit_local_only,
  revalidate_and_create_new_saga, query_compensation_then_retry_same_key, manual_reconciliation,
  no_action, intent, expected_financial_intent, command_of, build_financial_command, plan_of,
  reconciliation_plan,
}
use new_humans.Saga.Sound.{Evidence, Sound}
use new_humans.Saga.Reach.{Reachable, Reachable-Sound, Reachable-invariant}

-- The command `c` asks for the request `r` under the key `k` and the digest `d`.
pub record Commands (c : FinancialCommand) (k d : String) (step : SagaStep) (r : Value)
    : Type 0 where
  pub operation_key : c.operation_key ≡ k
  pub idempotency_key : c.idempotency_key ≡ k
  pub payload_digest : c.payload_digest ≡ d
  pub saga_step : c.saga_step ≡ step
  pub principal_ref : c.principal_ref ≡ get "principal_ref" r
  pub payload : c.payload ≡ get "payload" r

module _ (p : Platform) where
  clone_of_Normal :
      (step : SagaStep) (n : Value)
      → Normal p step n
      → clone p (get "payload" n) ≡ ok (get "payload" n)
  unfolding get get_field
  clone_of_Normal step n c = rw c.shape (clone-json p (object c.fields) c.json)

  intent_of :
      (k correlation d : String) (step of : SagaStep) (n : Value)
      → Normal p of n
      → digest_financial_request p n ≡ ok d
      → (c : FinancialCommand) × (expected_financial_intent p k correlation step n ≡ ok c)
        × Commands c k d step n
  unfolding expected_financial_intent
  intent_of k correlation d step of n normal digest = (
    intent k correlation step n d (get "payload" n),
    rw (digest, clone_of_Normal of n normal) refl,
    record {
      operation_key = refl;
      idempotency_key = refl;
      payload_digest = refl;
      saga_step = refl;
      principal_ref = refl;
      payload = refl;
    },
  )

-- The command of a state: in the two pending states that of the pending operation, under its own
-- key and digest; elsewhere none.
abbrev pub IsCommandOf : SagaState → Saga → Option FinancialCommand → Type 0
IsCommandOf pending_remote s o =
    (c : FinancialCommand) × (o ≡ some c)
    × Commands c s.primary_operation_key s.primary_payload_digest s.primary_step s.primary_request
IsCommandOf compensation_pending s o =
    (c : FinancialCommand) × (k d : String) × (o ≡ some c)
    × (s.compensation_operation_key ≡ some k)
    × (s.compensation_payload_digest ≡ some d)
    × Commands c k d release_escrow s.compensation_request
IsCommandOf _ s o = o ≡ none

command_at :
    (p : Platform) (s : Saga) (state : SagaState)
    → Sound p s
    → Evidence state p s
    → (o : Option FinancialCommand) × (command_of p state s ≡ ok o) × IsCommandOf state s o
unfolding command_of
command_at p s pending_remote h v =
    let (c, e, is) =
      intent_of p s.primary_operation_key s.business_attempt_id s.primary_payload_digest
        s.primary_step (primary_step_of s.kind) s.primary_request h.normal h.digest in
    (some c, rw e refl, (c, refl, is))
command_at p s compensation_pending h v =
    let w = v.1 in
    let (c, e, is) =
      intent_of p w.key s.business_attempt_id w.digest release_escrow release_escrow
        s.compensation_request w.normal w.digested in
    (some c, rw (w.has_key, e) refl, (c, w.key, w.digest, refl, w.has_key, w.has_digest, is))
command_at p s remote_succeeded h v = (none, refl, refl)
command_at p s _ h v = (none, refl, refl)

-- `buildFinancialCommand` succeeds on every reachable saga. In PENDING_REMOTE it gives the primary
-- operation, in COMPENSATION_PENDING the compensation, under the recorded key and digest; in the
-- other states it gives none.
pub Reachable-command :
    (p : Platform) (s : Saga)
    → Reachable p s
    → (o : Option FinancialCommand) × (build_financial_command p s ≡ ok o) × IsCommandOf s.state s o
unfolding build_financial_command
Reachable-command p s r =
    let h = Reachable-Sound p r in
    let (o, e, is) = command_at p s s.state h h.evidence in
    (o, rw (Reachable-invariant p s r) e, is)

-- What the plan of a state names: the pending operation's own key where there is a retry.
abbrev pub IsPlanOf : SagaState → Saga → PlanAction → Option String → Type 0
IsPlanOf pending_remote s a k =
    (a ≡ query_primary_then_retry_same_key) × (k ≡ some s.primary_operation_key)
IsPlanOf remote_succeeded s a k = (a ≡ commit_local_only) × (k ≡ none)
IsPlanOf SagaState.failed s a k = (a ≡ revalidate_and_create_new_saga) × (k ≡ none)
IsPlanOf compensation_pending s a k =
    (a ≡ query_compensation_then_retry_same_key) × (k ≡ s.compensation_operation_key) × (k ≢ none)
IsPlanOf reconciliation_required s a k =
    (a ≡ manual_reconciliation) × (k ≡ s.compensation_operation_key) × (k ≢ none)
IsPlanOf _ s a k = (a ≡ no_action) × (k ≡ none)

plan_at :
    (p : Platform) (s : Saga) (state : SagaState)
    → Evidence state p s
    → (a : PlanAction) × (k : Option String) × (plan_of state s ≡ ok (a, k)) × IsPlanOf state s a k
unfolding plan_of
plan_at p s pending_remote v = (_, _, refl, (refl, refl))
plan_at p s remote_succeeded v = (_, _, refl, (refl, refl))
plan_at p s SagaState.failed v = (_, _, refl, (refl, refl))
plan_at p s completed v = (_, _, refl, (refl, refl))
plan_at p s compensation_pending v = (_, _, refl, (refl, refl, λ e. ground (arith, v.1.has_key)))
plan_at p s compensated v = (_, _, refl, (refl, refl))
plan_at p s reconciliation_required v = (_, _, refl, (refl, refl, λ e. ground (arith, v.1.has_key)))
plan_at p s (other_state t) v = absurd v

-- `reconciliationPlan` succeeds on every reachable saga, and names an operation key exactly where
-- an operation is open: the primary key in PENDING_REMOTE, the recorded compensation key in
-- COMPENSATION_PENDING and RECONCILIATION_REQUIRED.
pub Reachable-plan :
    (p : Platform) (s : Saga)
    → Reachable p s
    → (a : PlanAction) × (k : Option String) × (reconciliation_plan p s ≡ ok (a, k))
      × IsPlanOf s.state s a k
unfolding reconciliation_plan
Reachable-plan p s r =
    let (a, k, e, is) = plan_at p s s.state (Reachable-Sound p r).evidence in
    (a, k, rw (Reachable-invariant p s r) e, is)
