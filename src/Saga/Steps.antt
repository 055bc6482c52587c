-- ===== src/Saga/Steps.antt =====
-- Each operation takes a sound saga to a sound saga.
use new_humans.Prelude.{
  String, ◌≡◌, refl, sym, subst, true, not, Option, some, ok, fail_if, >>=-eq-ok, invalid_saga,
}
use new_humans.Platform.{Platform}
use new_humans.Js.{Value, get, get_field}
use new_humans.Saga.Types.{
  SagaState, pending_remote, remote_succeeded, completed, compensation_pending, release_escrow,
  Status, succeeded, FinancialResult, Saga,
}
use new_humans.Saga.Create.{is_kind}
use new_humans.Saga.Guards.{assert_primary, is_state}
use new_humans.Saga.Observe.{after_primary, after_compensation}
use new_humans.Saga.Transitions.{
  mark_local_transition_committed, request_activation_compensation, compensation_input,
}
use new_humans.Saga.Normal.{Normal-of_ok, kept_principal, kept_field}
use new_humans.Saga.Inversion.{
  PrimaryObserved, CompensationObserved, Requested, Observed, commit-eq-ok, compensation-eq-ok,
}
use new_humans.Saga.Sound.{Evidence, Sound, Compensates}

module _ (p : Platform) (s : Saga) where
  -- The checks of the primary operation read nothing else that a step changes.
  primary_in :
      (state : SagaState) (r q : Option FinancialResult) (k d : Option String) (c : Value)
      (reason : Option String)
      → is_state state ≡ true
      → assert_primary p s ≡ ok tt
      → assert_primary p (record s {
        state = state;
        primary_result = r;
        compensation_operation_key = k;
        compensation_payload_digest = d;
        compensation_request = c;
        compensation_result = q;
        compensation_reason = reason;
      })
        ≡ ok tt
  unfolding assert_primary
  primary_in state r q k d c reason named h =
      let (_, known, h1) = >>=-eq-ok (fail_if (not (is_kind s.kind)) invalid_saga) _ h in
      let (_, _, h2) = >>=-eq-ok (fail_if (not (is_state s.state)) invalid_saga) _ h1 in
      rw (known, named) h2

  Compensates-with :
      (state : SagaState) (q : Option FinancialResult)
      → Compensates p s
      → Compensates p (record s { state = state; compensation_result = q })
  Compensates-with state q c = record {
    activation = c.activation;
    key = c.key;
    has_key = c.has_key;
    keyed = c.keyed;
    normal = c.normal;
    digest = c.digest;
    has_digest = c.has_digest;
    digested = c.digested;
    same_principal = c.same_principal;
    same_amount = c.same_amount;
    same_contract = c.same_contract;
  }

  module _ (h : Sound p s) where
    Sound-after_primary :
        (r : FinancialResult) (status : Status)
        → r.status ≡ status
        → Evidence pending_remote p s
        → Sound p (record s { state = after_primary status; primary_result = some r })
    Sound-after_primary r succeeded e v = record {
      primary = primary_in _ _ _ _ _ _ _ refl h.primary;
      key = h.key;
      normal = h.normal;
      digest = h.digest;
      evidence = ((r, refl, e), v.1, v.2);
    }
    Sound-after_primary r Status.failed e v = record {
      primary = primary_in _ _ _ _ _ _ _ refl h.primary;
      key = h.key;
      normal = h.normal;
      digest = h.digest;
      evidence = ((r, refl, e), v.1, v.2);
    }

    Sound-after_compensation :
        (r : FinancialResult) (status : Status)
        → r.status ≡ status
        → Evidence compensation_pending p s
        → Sound p (record s { state = after_compensation status; compensation_result = some r })
    Sound-after_compensation r succeeded e v = record {
      primary = primary_in _ _ _ _ _ _ _ refl h.primary;
      key = h.key;
      normal = h.normal;
      digest = h.digest;
      evidence = (v.0, Compensates-with _ _ v.1, (r, refl, e));
    }
    Sound-after_compensation r Status.failed e v = record {
      primary = primary_in _ _ _ _ _ _ _ refl h.primary;
      key = h.key;
      normal = h.normal;
      digest = h.digest;
      evidence = (v.0, Compensates-with _ _ v.1, (r, refl, e));
    }

    Sound-completed : Evidence remote_succeeded p s → Sound p (record s { state = completed })
    Sound-completed v = record {
      primary = primary_in _ _ _ _ _ _ _ refl h.primary;
      key = h.key;
      normal = h.normal;
      digest = h.digest;
      evidence = v;
    }

  Sound-compensation : (reason : String) {t : Saga} → Sound p s → Requested p s reason t → Sound p t
  unfolding get get_field
  Sound-compensation reason {t} h q =
      let v = subst (λ (x : SagaState). Evidence x p s) q.state h.evidence in
      subst (Sound p) (sym q.result) (record {
        primary = primary_in _ _ _ _ _ _ _ refl h.primary;
        key = h.key;
        normal = h.normal;
        digest = h.digest;
        evidence = (
          v.0,
          record {
            activation = q.activation;
            key = q.key;
            has_key = refl;
            keyed = q.keyed;
            normal = Normal-of_ok p release_escrow (compensation_input s reason) q.request q.made;
            digest = q.digest;
            has_digest = refl;
            digested = q.digested;
            same_principal =
                kept_principal p release_escrow (compensation_input s reason) q.request q.made;
            same_amount =
                kept_field p release_escrow (compensation_input s reason) q.request "amount_micro_e"
                  q.made refl;
            same_contract =
                kept_field p release_escrow (compensation_input s reason) q.request "contract_ref"
                  q.made refl;
          },
          v.2,
        );
      })

  Sound-primary : (r : FinancialResult) {t : Saga} → Sound p s → PrimaryObserved s r t → Sound p t
  Sound-primary r h (PrimaryObserved.replayed old e same q) = subst (Sound p) (sym q) h
  Sound-primary r h (PrimaryObserved.recorded e state q) = subst (Sound p) (sym q) (
      Sound-after_primary h r r.status refl
        (subst (λ (x : SagaState). Evidence x p s) state h.evidence))

  Sound-observed_compensation :
      (r : FinancialResult) {t : Saga} → Sound p s → CompensationObserved s r t → Sound p t
  Sound-observed_compensation r h (CompensationObserved.replayed old e same q) =
      subst (Sound p) (sym q) h
  Sound-observed_compensation r h (CompensationObserved.recorded e state q) =
      subst (Sound p) (sym q) (
        Sound-after_compensation h r r.status refl
          (subst (λ (x : SagaState). Evidence x p s) state h.evidence))

  pub Observed-Sound : (r : FinancialResult) {t : Saga} → Sound p s → Observed p s r t → Sound p t
  Observed-Sound r h (Observed.primary k d o) = Sound-primary r h o
  Observed-Sound r h (Observed.compensation other k present d o) = Sound-observed_compensation r h o

  pub committed-Sound :
      (local : String) {t : Saga}
      → Sound p s
      → mark_local_transition_committed p s local ≡ ok t
      → Sound p t
  committed-Sound local h e =
      let (state, _, q) = commit-eq-ok p s local e in
      subst (Sound p) (sym q)
        (Sound-completed h (subst (λ (x : SagaState). Evidence x p s) state h.evidence))

  pub requested-Sound :
      (reason : String) {t : Saga}
      → Sound p s
      → request_activation_compensation p s reason ≡ ok t
      → Sound p t
  requested-Sound reason h e = Sound-compensation reason h (compensation-eq-ok p s reason e)
