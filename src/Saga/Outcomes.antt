-- ===== src/Saga/Outcomes.antt =====
-- Replays, final states and the order of states.
use new_humans.Prelude.{◌≡◌, refl, sym, subst, true, false, ◌==◌, eq_refl, none, some, ok, arith}
use new_humans.Platform.{Platform}
use new_humans.Js.{Value}
use new_humans.Saga.Types.{
  contract_settlement, SagaState, pending_remote, remote_succeeded, completed, compensation_pending,
  compensated, reconciliation_required, other_state, FinancialResult, result_value, Saga,
}
use new_humans.Saga.Holds.{same_json_refl}
use new_humans.Saga.Guards.{is_key, has_key, is_compensating}
use new_humans.Saga.Observe.{
  observe_financial_result, observe, observe_primary, observe_compensation, same_result,
}
use new_humans.Saga.Inversion.{
  PrimaryObserved, CompensationObserved, Observed, commit-eq-ok, compensation-eq-ok, observe-eq-ok,
  observe_result-eq-ok,
}
use new_humans.Saga.Sound.{Evidence}
use new_humans.Saga.Reach.{
  Step, observes, commits, compensates, Reachable, Reachable-Sound, continues, Reachable-invariant,
}

pub same_result_refl : (r : FinancialResult) → same_result r r ≡ true
unfolding same_result
same_result_refl r = same_json_refl (result_value r)

-- A saga that has the result already, under its digest and key.
module _ (t : Saga) (r : FinancialResult) where
  replays_primary :
      (old : FinancialResult)
      → r.operation_key ≡ t.primary_operation_key
      → r.payload_digest ≡ t.primary_payload_digest
      → t.primary_result ≡ some old
      → same_result old r ≡ true
      → observe t r ≡ ok t
  unfolding observe observe_primary
  replays_primary old k d e same =
      simp (k, d, eq_refl t.primary_operation_key, eq_refl t.primary_payload_digest, e, same) refl

  replays_compensation :
      (old : FinancialResult)
      → (r.operation_key == t.primary_operation_key) ≡ false
      → is_key t.compensation_operation_key r.operation_key ≡ true
      → has_key t.compensation_operation_key ≡ true
      → is_key t.compensation_payload_digest r.payload_digest ≡ true
      → t.compensation_result ≡ some old
      → same_result old r ≡ true
      → observe t r ≡ ok t
  unfolding observe observe_compensation
  replays_compensation old other k present d e same = ground arith

module _ (s : Saga) (r : FinancialResult) where
  again_primary :
      {t : Saga}
      → r.operation_key ≡ s.primary_operation_key
      → r.payload_digest ≡ s.primary_payload_digest
      → PrimaryObserved s r t
      → observe t r ≡ ok t
  again_primary k d (PrimaryObserved.replayed old e same q) =
      subst (λ t. observe t r ≡ ok t) (sym q) (replays_primary s r old k d e same)
  again_primary k d (PrimaryObserved.recorded e state q) =
      subst (λ t. observe t r ≡ ok t) (sym q) (replays_primary _ r r k d refl (same_result_refl r))

  again_compensation :
      {t : Saga}
      → (r.operation_key == s.primary_operation_key) ≡ false
      → is_key s.compensation_operation_key r.operation_key ≡ true
      → has_key s.compensation_operation_key ≡ true
      → is_key s.compensation_payload_digest r.payload_digest ≡ true
      → CompensationObserved s r t
      → observe t r ≡ ok t
  again_compensation other k present d (CompensationObserved.replayed old e same q) =
      subst (λ t. observe t r ≡ ok t) (sym q)
        (replays_compensation s r old other k present d e same)
  again_compensation other k present d (CompensationObserved.recorded e state q) =
      subst (λ t. observe t r ≡ ok t) (sym q)
        (replays_compensation _ r r other k present d refl (same_result_refl r))

  again : (p : Platform) {t : Saga} → Observed p s r t → observe t r ≡ ok t
  again p (Observed.primary k d o) = again_primary k d o
  again p (Observed.compensation other k present d o) = again_compensation other k present d o

-- A financial result that a reachable saga accepted is accepted again and changes nothing.
pub observe_idempotent :
    (p : Platform) (s t : Saga) (raw : Value)
    → Reachable p s
    → observe_financial_result p s raw ≡ ok t
    → observe_financial_result p t raw ≡ ok t
unfolding observe_financial_result
observe_idempotent p s t raw reach h =
    let (r, e, o) = observe_result-eq-ok p s raw h in
    rw (Reachable-invariant p t (continues reach (observes raw h)), e)
      (again s r p (observe-eq-ok p s r o))

-- COMPLETED, FAILED, COMPENSATED and RECONCILIATION_REQUIRED.
abbrev pub IsFinal : SagaState → Type 0
IsFinal completed = Unit {0}
IsFinal SagaState.failed = Unit {0}
IsFinal compensated = Unit {0}
IsFinal reconciliation_required = Unit {0}
IsFinal _ = ⊥

final-Observed :
    (p : Platform) (s : Saga) (r : FinancialResult) {t : Saga}
    → IsFinal s.state
    → Observed p s r t
    → t ≡ s
final-Observed p s r f (Observed.primary k d (PrimaryObserved.replayed old e same q)) = q
final-Observed p s r f (Observed.primary k d (PrimaryObserved.recorded e state q)) =
    absurd (subst IsFinal state f)
final-Observed p s r f
      (Observed.compensation other k present d (CompensationObserved.replayed old e same q)) =
    q
final-Observed p s r f
      (Observed.compensation other k present d (CompensationObserved.recorded e state q)) =
    absurd (subst IsFinal state f)

-- In a final state every operation that succeeds leaves the saga as it is.
pub final_unchanged : (p : Platform) (s t : Saga) → IsFinal s.state → Step p s t → t ≡ s
final_unchanged p s t f (observes raw e) =
    let (r, _, o) = observe_result-eq-ok p s raw e in final-Observed p s r f (observe-eq-ok p s r o)
final_unchanged p s t f (commits local e) = absurd (subst IsFinal (commit-eq-ok p s local e).0 f)
final_unchanged p s t f (compensates reason e) =
    absurd (subst IsFinal (compensation-eq-ok p s reason e).state f)

settlement_at :
    (p : Platform) (s : Saga) (state : SagaState)
    → s.kind ≡ contract_settlement
    → Evidence state p s
    → (is_compensating state ≡ false) × (s.compensation_operation_key ≡ none)
settlement_at p s pending_remote k v = (refl, v.1)
settlement_at p s remote_succeeded k v = (refl, v.1)
settlement_at p s SagaState.failed k v = (refl, v.1)
settlement_at p s completed k v = (refl, v.1)
settlement_at p s compensation_pending k v = absurd (cc (v.1.activation))
settlement_at p s compensated k v = absurd (cc (v.1.activation))
settlement_at p s reconciliation_required k v = absurd (cc (v.1.activation))
settlement_at p s (other_state x) k v = absurd v

-- A reachable settlement saga is in no compensating state and has no compensation key.
pub settlement-not_compensated :
    (p : Platform) (s : Saga)
    → Reachable p s
    → s.kind ≡ contract_settlement
    → (is_compensating s.state ≡ false) × (s.compensation_operation_key ≡ none)
settlement-not_compensated p s r k = settlement_at p s s.state k (Reachable-Sound p r).evidence
