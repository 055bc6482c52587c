-- ===== src/SagaStore/Recovery.antt =====
-- An unknown outcome loses nothing: the result that arrives later is taken as if it had come at once.
use new_humans.Prelude.{
  ℕ, ◌+◌, String, true, false, not, ◌&&◌, ◌||◌, ◌==◌, ltb, none, Code, ok, err, fail_if, ◌>>◌,
  >>=-eq-ok, ok_inj, invalid_saga_input, saga_outbox_lease_lost, unexpected_saga_operation,
  saga_operation_not_found, ◌≡◌, refl, sym, subst, ◌∙◌, ap, arith, Result-cases, inl, inr, eq_iff,
  eq_refl,
}
use new_humans.Platform.{Platform}
use new_humans.Js.{Value}
use new_humans.Saga.{
  Saga, pending_remote, FinancialResult, reconciliation_required, observe, assert_saga_invariant,
}
use new_humans.SagaStore.Rows.{Store, require_text, freeze}
use new_humans.SagaStore.Failures.{
  Failure, is_leased, owns, delay_of, saga_after_failure, status_after,
  record_saga_dispatch_failure,
}
use new_humans.SagaStore.Results.{
  is_none, thaw, normalize_result, observed_by, accepted, after_observation, with_inbox, Recorded,
  record_saga_financial_result,
}

-- A store that waits for the result of the primary operation.
pub record Waiting (s : Store) : Type 0 where
  pub row : s.saga.state ≡ pending_remote
  pub snapshot : s.saga.snapshot.state ≡ pending_remote
  pub no_result : s.saga.snapshot.primary_result ≡ none
  pub primary : s.outbox.operation_key ≡ s.saga.snapshot.primary_operation_key
  pub no_inbox : s.inbox ≡ none

same_snapshot : (s : Saga) → s.state ≡ pending_remote → record s { state = pending_remote } ≡ s
same_snapshot s h = ap (λ x. record s { state = x }) (sym h)

thaw_frozen :
    (s : Saga)
    → s.state ≡ pending_remote
    → s.primary_result ≡ none
    → thaw s.primary_operation_key (record s { state = reconciliation_required }) ≡ s
unfolding thaw
thaw_frozen s h n =
    let first : (is_none s.primary_result && s.primary_operation_key == s.primary_operation_key)
        ≡ true =
      ground (arith, eq_refl s.primary_operation_key) in
    rw (first) (same_snapshot s h)

thaw_waiting : (key : String) (s : Saga) → s.state ≡ pending_remote → thaw key s ≡ s
unfolding thaw
thaw_waiting key s h = rw (h) refl

frozen_by_failure :
    (now : ℕ) (f : Failure) (s t : Store)
    → Waiting s
    → f.outcome_unknown ≡ true
    → record_saga_dispatch_failure now f s ≡ ok t
    → (t.saga.snapshot ≡ record s.saga.snapshot { state = reconciliation_required })
      × (t.outbox.operation_key ≡ s.outbox.operation_key)
      × (t.inbox ≡ s.inbox)
unfolding record_saga_dispatch_failure
frozen_by_failure now f s t w u h =
    let (_, _, h1) = >>=-eq-ok (require_text f.lease_owner) _ h in
    let (_, _, h2) = >>=-eq-ok (require_text f.error_code) _ h1 in
    let (_, _, h3) = >>=-eq-ok (fail_if (ltb f.max_attempts 1) invalid_saga_input) _ h2 in
    let (_, _, h4) =
      >>=-eq-ok
        (fail_if (not (is_leased s.outbox.status) || not (owns s.outbox.lease_owner f.lease_owner))
          saga_outbox_lease_lost)
        _ h3 in
    let after : saga_after_failure now f (status_after f s.outbox.attempts) s.saga
        ≡ freeze now f.error_code (now + delay_of f.retry_after_ms) s.saga =
      rw (u, w.row) refl in
    subst
      (λ x.
        (x.saga.snapshot ≡ record s.saga.snapshot { state = reconciliation_required })
        × (x.outbox.operation_key ≡ s.outbox.operation_key)
        × (x.inbox ≡ s.inbox))
      (ok_inj h4) (ap (λ r. r.snapshot) after, refl, refl)

module _ (p : Platform) (key : String) (raw : Value) (n : FinancialResult)
    (named : require_text key ≡ ok tt) (normal : normalize_result raw key ≡ ok n)
    (same_key : (n.operation_key == key) ≡ true) where
  accepts :
      (now : ℕ) (s : Store) (next : Saga)
      → s.outbox.operation_key ≡ key
      → s.inbox ≡ none
      → observed_by p n s ≡ ok next
      → record_saga_financial_result p now key raw s ≡ ok (accepted now n s next)
  unfolding record_saga_financial_result
  accepts now s next k i o =
      let found : (s.outbox.operation_key == key) ≡ true =
        ground (arith, eq_iff s.outbox.operation_key key) in
      let fresh : with_inbox s.inbox now n s (after_observation now n s (observed_by p n s))
          ≡ ok (accepted now n s next) =
        ap (λ x. with_inbox x now n s (after_observation now n s (observed_by p n s))) i
        ∙ ap (after_observation now n s) o in
      simp (named, normal, same_key, found) fresh

refused_as_conflict :
    (now : ℕ) (n : FinancialResult) (s : Store) (code : Code) {r : Recorded}
    → after_observation now n s (err code) ≡ ok r
    → r.conflict ≡ true
refused_as_conflict now n s code h = ground arith

same_observation :
    (p : Platform) (n : FinancialResult) (s t : Store)
    → Waiting s
    → n.operation_key ≡ s.outbox.operation_key
    → t.saga.snapshot ≡ record s.saga.snapshot { state = reconciliation_required }
    → observed_by p n t ≡ observed_by p n s
unfolding observed_by
same_observation p n s t w k frozen =
    let primary : s.saga.snapshot.primary_operation_key ≡ n.operation_key = sym (k ∙ w.primary) in
    let restored : thaw n.operation_key t.saga.snapshot ≡ s.saga.snapshot =
      ap (thaw n.operation_key) frozen
      ∙ ap (λ x. thaw x (record s.saga.snapshot { state = reconciliation_required })) (sym primary)
      ∙ thaw_frozen s.saga.snapshot w.snapshot w.no_result in
    let kept = thaw_waiting n.operation_key s.saga.snapshot w.snapshot in
    ap (λ x. assert_saga_invariant p x >> observe x n) (restored ∙ sym kept)

-- A result for the primary operation that is accepted at once is also accepted after the dispatch
-- was given up as an unknown outcome, at any later time, and leaves the same snapshot.
pub unknown-recovers :
    (p : Platform) (now at_once later : ℕ) (f : Failure) (s t : Store) (raw : Value) (r : Recorded)
    → Waiting s
    → f.outcome_unknown ≡ true
    → record_saga_dispatch_failure now f s ≡ ok t
    → record_saga_financial_result p at_once s.outbox.operation_key raw s ≡ ok r
    → r.conflict ≡ false
    → (r' : Recorded) × (record_saga_financial_result p later s.outbox.operation_key raw t ≡ ok r')
      × (r'.store.saga.snapshot ≡ r.store.saga.snapshot)
      × (r'.conflict ≡ false)
      × (r'.duplicate ≡ false)
unfolding record_saga_financial_result
unknown-recovers p now at_once later f s t raw r w u failed h c =
    let key = s.outbox.operation_key in
    let (snapshot, outbox, inbox) = frozen_by_failure now f s t w u failed in
    let (_, named, h1) = >>=-eq-ok (require_text key) _ h in
    let (n, normal, h2) = >>=-eq-ok (normalize_result raw key) _ h1 in
    let (_, e, h3) =
      >>=-eq-ok (fail_if (not (n.operation_key == key)) unexpected_saga_operation) _ h2 in
    let (_, _, h4) = >>=-eq-ok (fail_if (not (key == key)) saga_operation_not_found) _ h3 in
    let same : (n.operation_key == key) ≡ true = ground arith in
    let h5 : after_observation at_once n s (observed_by p n s) ≡ ok r =
      subst
        (λ i. with_inbox i at_once n s (after_observation at_once n s (observed_by p n s)) ≡ ok r)
        w.no_inbox h4 in
    elim (Result-cases (observed_by p n s)) [
      | inl (next, o) ↦
          let taken : ok (accepted at_once n s next) ≡ ok r =
            ap (after_observation at_once n s) (sym o) ∙ h5 in
          let again =
            same_observation p n s t w ((eq_iff n.operation_key key).0 same) snapshot ∙ o in
          (
            accepted later n t next,
            accepts p key raw n named normal same later t next outbox (inbox ∙ w.no_inbox) again,
            ap (λ x. x.store.saga.snapshot) (ok_inj taken),
            refl,
            refl,
          )
      | inr (code, o) ↦
          let refused =
            refused_as_conflict at_once n s code
              (ap (after_observation at_once n s) (sym o) ∙ h5) in
          absurd (ground arith)
    ]
