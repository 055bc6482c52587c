-- ===== src/Saga/Inversion.antt =====
-- What a successful operation went through, read off from its result.
use new_humans.Prelude.{
  String, ◌≡◌, refl, sym, Bool, true, false, not, ◌||◌, ◌==◌, eq_iff, none, some, ok, fail_if,
  arith, >>=-eq-ok, fail_if-eq-ok, ok_inj, Bool-cases, inl, inr, Option-cases,
  saga_idempotency_conflict, invalid_saga_transition, settlement_compensation_forbidden,
}
use new_humans.Platform.{Platform}
use new_humans.Js.{Value}
use new_humans.Saga.Types.{
  SagaKind, contract_activation, SagaState, pending_remote, remote_succeeded, completed,
  compensation_pending, release_escrow, FinancialResult, Saga, saga_operation_key, non_empty,
}
use new_humans.Saga.Requests.{canonical_financial_request, digest_financial_request}
use new_humans.Saga.Guards.{assert_saga_invariant, is_key, has_key, is_activation, has_succeeded}
use new_humans.Saga.Observe.{
  observe_financial_result, result_identity, observe, observe_primary, observe_compensation,
  same_result, after_primary, after_compensation, is_pending_remote, is_compensation_pending,
}
use new_humans.Saga.Transitions.{
  mark_local_transition_committed, request_activation_compensation, is_remote_succeeded,
  compensation_input, expected_local_state,
}

pub pending_of : (x : SagaState) → not (is_pending_remote x) ≡ false → x ≡ pending_remote
pending_of pending_remote h = refl
pending_of _ h = cc

pub compensation_pending_of :
    (x : SagaState) → not (is_compensation_pending x) ≡ false → x ≡ compensation_pending
compensation_pending_of compensation_pending h = refl
compensation_pending_of _ h = cc

pub remote_succeeded_of :
    (x : SagaState) (b : Bool) → (not (is_remote_succeeded x) || b) ≡ false → x ≡ remote_succeeded
remote_succeeded_of remote_succeeded b h = refl
remote_succeeded_of _ b h = cc

pub activation_of : (k : SagaKind) → not (is_activation k) ≡ false → k ≡ contract_activation
activation_of contract_activation h = refl
activation_of _ h = cc

module _ (s : Saga) (r : FinancialResult) where
  -- A recorded result was given again, or the first one is recorded.
  pub data PrimaryObserved (t : Saga) : Type 0 where
    replayed :
        (old : FinancialResult)
        → s.primary_result ≡ some old
        → same_result old r ≡ true
        → t ≡ s
        → PrimaryObserved t
    recorded :
        s.primary_result ≡ none
        → s.state ≡ pending_remote
        → t ≡ record s { state = after_primary r.status; primary_result = some r }
        → PrimaryObserved t

  pub observe_primary-eq-ok :
      {t : Saga}
      → observe_primary s r ≡ ok t
      → (r.payload_digest ≡ s.primary_payload_digest) × PrimaryObserved t
  unfolding observe_primary
  observe_primary-eq-ok h =
      let (_, digest, h1) =
        >>=-eq-ok
          (fail_if (not (r.payload_digest == s.primary_payload_digest)) saga_idempotency_conflict) _
          h in
      (
        (eq_iff _ _).0 (ground (arith, fail_if-eq-ok _ _ digest)),
        elim (Option-cases s.primary_result) [
          | inl first ↦
              let (_, pending, h2) =
                >>=-eq-ok (fail_if (not (is_pending_remote s.state)) invalid_saga_transition) _
                  (rw first at h1) in
              recorded first (pending_of s.state (fail_if-eq-ok _ _ pending)) (sym (ok_inj h2))
          | inr (old, again) ↦ replayed old again (ground arith) (ground arith)
        ],
      )

  pub data CompensationObserved (t : Saga) : Type 0 where
    replayed :
        (old : FinancialResult)
        → s.compensation_result ≡ some old
        → same_result old r ≡ true
        → t ≡ s
        → CompensationObserved t
    recorded :
        s.compensation_result ≡ none
        → s.state ≡ compensation_pending
        → t ≡ record s { state = after_compensation r.status; compensation_result = some r }
        → CompensationObserved t

  pub observe_compensation-eq-ok :
      {t : Saga}
      → observe_compensation s r ≡ ok t
      → (has_key s.compensation_operation_key ≡ true)
        × (is_key s.compensation_payload_digest r.payload_digest ≡ true)
        × CompensationObserved t
  unfolding observe_compensation
  observe_compensation-eq-ok h =
      let (_, digest, h1) =
        >>=-eq-ok
          (fail_if
            (not (has_key s.compensation_operation_key)
              || not (is_key s.compensation_payload_digest r.payload_digest))
            saga_idempotency_conflict)
          _ h in
      (
        ground (arith, fail_if-eq-ok _ _ digest),
        ground (arith, fail_if-eq-ok _ _ digest),
        elim (Option-cases s.compensation_result) [
          | inl first ↦
              let (_, pending, h2) =
                >>=-eq-ok (fail_if (not (is_compensation_pending s.state)) invalid_saga_transition)
                  _ (rw first at h1) in
              recorded first (compensation_pending_of s.state (fail_if-eq-ok _ _ pending))
                (sym (ok_inj h2))
          | inr (old, again) ↦ replayed old again (ground arith) (ground arith)
        ],
      )

module _ (p : Platform) (s : Saga) where
  pub commit-eq-ok :
      (local : String) {t : Saga}
      → mark_local_transition_committed p s local ≡ ok t
      → (s.state ≡ remote_succeeded)
        × (local ≡ expected_local_state s.kind)
        × (t ≡ record s { state = completed })
  unfolding mark_local_transition_committed
  commit-eq-ok local h =
      let (_, _, h1) = >>=-eq-ok (assert_saga_invariant p s) _ h in
      let (_, state, h2) =
        >>=-eq-ok
          (fail_if (not (is_remote_succeeded s.state) || not (has_succeeded s.primary_result))
            invalid_saga_transition)
          _ h1 in
      let (_, expected, h3) =
        >>=-eq-ok (fail_if (not (local == expected_local_state s.kind)) invalid_saga_transition) _
          h2 in
      (
        remote_succeeded_of s.state _ (fail_if-eq-ok _ _ state),
        (eq_iff local (expected_local_state s.kind)).0 (ground (arith, fail_if-eq-ok _ _ expected)),
        sym (ok_inj h3),
      )

  -- The parts of a compensation that was requested.
  pub record Requested (reason : String) (t : Saga) : Type 0 where
    pub activation : s.kind ≡ contract_activation
    pub state : s.state ≡ remote_succeeded
    pub request : Value
    pub made :
        canonical_financial_request p release_escrow (compensation_input s reason) ≡ ok request
    pub key : String
    pub keyed : saga_operation_key s.world_id s.business_attempt_id release_escrow ≡ ok key
    pub digest : String
    pub digested : digest_financial_request p request ≡ ok digest
    pub result : t ≡ record s {
      state = compensation_pending;
      compensation_operation_key = some key;
      compensation_payload_digest = some digest;
      compensation_request = request;
      compensation_reason = some reason;
    }

  pub compensation-eq-ok :
      (reason : String) {t : Saga}
      → request_activation_compensation p s reason ≡ ok t
      → Requested reason t
  unfolding request_activation_compensation
  compensation-eq-ok reason h =
      let (_, _, h1) = >>=-eq-ok (assert_saga_invariant p s) _ h in
      let (_, activation, h2) =
        >>=-eq-ok (fail_if (not (is_activation s.kind)) settlement_compensation_forbidden) _ h1 in
      let (_, state, h3) =
        >>=-eq-ok
          (fail_if (not (is_remote_succeeded s.state) || not (has_succeeded s.primary_result))
            invalid_saga_transition)
          _ h2 in
      let (_, _, h4) = >>=-eq-ok (non_empty reason) _ h3 in
      let (request, made, h5) =
        >>=-eq-ok (canonical_financial_request p release_escrow (compensation_input s reason)) _
          h4 in
      let (key, keyed, h6) =
        >>=-eq-ok (saga_operation_key s.world_id s.business_attempt_id release_escrow) _ h5 in
      let (digest, digested, h7) = >>=-eq-ok (digest_financial_request p request) _ h6 in
      record {
        activation = activation_of s.kind (fail_if-eq-ok _ _ activation);
        state = remote_succeeded_of s.state _ (fail_if-eq-ok _ _ state);
        request = request;
        made = made;
        key = key;
        keyed = keyed;
        digest = digest;
        digested = digested;
        result = sym (ok_inj h7);
      }

  -- Which operation a result was taken for.
  pub data Observed (r : FinancialResult) (t : Saga) : Type 0 where
    primary :
        r.operation_key ≡ s.primary_operation_key
        → r.payload_digest ≡ s.primary_payload_digest
        → PrimaryObserved s r t
        → Observed r t
    compensation :
        (r.operation_key == s.primary_operation_key) ≡ false
        → is_key s.compensation_operation_key r.operation_key ≡ true
        → has_key s.compensation_operation_key ≡ true
        → is_key s.compensation_payload_digest r.payload_digest ≡ true
        → CompensationObserved s r t
        → Observed r t

  pub observe-eq-ok : (r : FinancialResult) {t : Saga} → observe s r ≡ ok t → Observed r t
  unfolding observe
  observe-eq-ok r h = elim (Bool-cases (r.operation_key == s.primary_operation_key)) [
    | inl mine ↦
        let (digest, o) = observe_primary-eq-ok s r (rw mine at h) in
        primary ((eq_iff _ _).0 mine) digest o
    | inr other ↦ elim (Bool-cases (is_key s.compensation_operation_key r.operation_key)) [
      | inl mine ↦
          let (present, digest, o) = observe_compensation-eq-ok s r (rw (other, mine) at h) in
          compensation other mine present digest o
      | inr none_of ↦ absurd (ground arith)
    ]
  ]

  pub observe_result-eq-ok :
      (raw : Value) {t : Saga}
      → observe_financial_result p s raw ≡ ok t
      → (r : FinancialResult) × (result_identity raw ≡ ok r) × (observe s r ≡ ok t)
  unfolding observe_financial_result
  observe_result-eq-ok raw h =
      let (_, _, h1) = >>=-eq-ok (assert_saga_invariant p s) _ h in
      >>=-eq-ok (result_identity raw) _ h1
