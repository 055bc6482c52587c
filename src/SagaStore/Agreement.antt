-- ===== src/SagaStore/Agreement.antt =====
-- What every transaction keeps.
use new_humans.Prelude.{
  ℕ, String, Bool, true, false, not, ◌&&◌, ◌||◌, ◌==◌, ltb, Option, none, some, if◌then◌else◌,
  Result, ok, err, fail_if, >>=-eq-ok, ok_inj, invalid_saga_input, saga_outbox_lease_lost,
  unexpected_saga_operation, saga_operation_not_found, ◌≡◌, refl, subst, arith, Bool-cases, inl,
  inr,
}
use new_humans.Platform.{Platform}
use new_humans.Js.{Value}
use new_humans.Saga.{Saga, FinancialResult, same_result, mark_local_transition_committed}
use new_humans.SagaStore.Rows.{SagaRow, OutboxStatus, Store, require_text}
use new_humans.SagaStore.Failures.{
  Failure, is_leased, is_claimable, owns, saga_after_failure, status_after, claim_saga_outbox,
  record_saga_dispatch_failure,
}
use new_humans.SagaStore.Results.{
  normalize_result, observed_by, after_observation, with_inbox, Recorded, conflicting, is_conflict,
  code_text, record_saga_financial_result,
}
use new_humans.SagaStore.Transitions.{mark_persisted_saga_local_transition_committed}

abbrev pub is_present {ℓ} : {A : Type ℓ} → Option A → Bool
is_present none = false
is_present (some x) = true

-- The state column is the state of the snapshot, and a lease has an owner and an end exactly when
-- the row is leased.
pub record Consistent (s : Store) : Type 0 where
  pub state : s.saga.state ≡ s.saga.snapshot.state
  pub owner : is_leased s.outbox.status ≡ is_present s.outbox.lease_owner
  pub until : is_leased s.outbox.status ≡ is_present s.outbox.lease_until

-- The key, the digest and the command of an operation.
pub record SameCommand (s t : Store) : Type 0 where
  pub key : t.outbox.operation_key ≡ s.outbox.operation_key
  pub digest : t.outbox.payload_digest ≡ s.outbox.payload_digest
  pub command : t.outbox.command ≡ s.outbox.command

module _ (p : Platform) where
  pub data StoreStep : Store → Store → Type 0 where
    claims :
        {s t : Store} (now : ℕ) (worker : String) (lease_ms : ℕ)
        → claim_saga_outbox now worker lease_ms s ≡ ok (some t)
        → StoreStep s t
    fails :
        {s t : Store} (now : ℕ) (f : Failure)
        → record_saga_dispatch_failure now f s ≡ ok t
        → StoreStep s t
    records :
        {s : Store} {r : Recorded} (now : ℕ) (key : String) (raw : Value)
        → record_saga_financial_result p now key raw s ≡ ok r
        → StoreStep s r.store
    commits :
        {s t : Store} (local_contract_state : String)
        → mark_persisted_saga_local_transition_committed p local_contract_state s ≡ ok t
        → StoreStep s t

abbrev Kept : Store → Store → Type 0
Kept s t = (Consistent s → Consistent t) × SameCommand s t

some_of_if : (b : Bool) (s t : Store) → (if b then some s else none) ≡ some t → s ≡ t
some_of_if true s t h = cc
some_of_if false s t h = cc

Kept-by_claim :
    (now : ℕ) (worker : String) (lease_ms : ℕ) (s t : Store)
    → claim_saga_outbox now worker lease_ms s ≡ ok (some t)
    → Kept s t
unfolding claim_saga_outbox
Kept-by_claim now worker lease_ms s t h =
    let (_, _, h1) = >>=-eq-ok (require_text worker) _ h in
    let (_, _, h2) =
      >>=-eq-ok (fail_if (ltb lease_ms 1000 || ltb 300000 lease_ms) invalid_saga_input) _ h1 in
    subst (Kept s) (some_of_if (is_claimable now s.outbox) _ t (ok_inj h2)) (
      λ c. record { state = c.state; owner = refl; until = refl },
      record { key = refl; digest = refl; command = refl },
    )

state_after_failure :
    (now : ℕ) (f : Failure) (status : OutboxStatus) (row : SagaRow)
    → row.state ≡ row.snapshot.state
    → (saga_after_failure now f status row).state
      ≡ (saga_after_failure now f status row).snapshot.state
state_after_failure now f status row h = ground arith

no_lease_after : (f : Failure) (attempts : ℕ) → is_leased (status_after f attempts) ≡ false
no_lease_after f attempts = ground arith

Kept-by_failure :
    (now : ℕ) (f : Failure) (s t : Store) → record_saga_dispatch_failure now f s ≡ ok t → Kept s t
unfolding record_saga_dispatch_failure
Kept-by_failure now f s t h =
    let (_, _, h1) = >>=-eq-ok (require_text f.lease_owner) _ h in
    let (_, _, h2) = >>=-eq-ok (require_text f.error_code) _ h1 in
    let (_, _, h3) = >>=-eq-ok (fail_if (ltb f.max_attempts 1) invalid_saga_input) _ h2 in
    let (_, _, h4) =
      >>=-eq-ok
        (fail_if (not (is_leased s.outbox.status) || not (owns s.outbox.lease_owner f.lease_owner))
          saga_outbox_lease_lost)
        _ h3 in
    let status = status_after f s.outbox.attempts in
    subst (Kept s) (ok_inj h4) (
      λ c. record {
        state = state_after_failure now f status s.saga c.state;
        owner = no_lease_after f s.outbox.attempts;
        until = no_lease_after f s.outbox.attempts;
      },
      record { key = refl; digest = refl; command = refl },
    )

Kept-by_conflict : (now : ℕ) (code : String) (s : Store) → Kept s (conflicting now code s).store
Kept-by_conflict now code s = (
  λ c. record { state = refl; owner = refl; until = refl },
  record { key = refl; digest = refl; command = refl },
)

Kept-by_inbox :
    (now : ℕ) (n : FinancialResult) (s : Store) (i : Option FinancialResult) (o : Result Saga)
    (r : Recorded)
    → with_inbox i now n s (after_observation now n s o) ≡ ok r
    → Kept s r.store
Kept-by_inbox now n s none (ok next) r h =
    subst (λ x. Kept s x.store) (ok_inj h)
      (
        λ c. record { state = refl; owner = refl; until = refl },
        record { key = refl; digest = refl; command = refl },
      )
Kept-by_inbox now n s none (err code) r h = elim (Bool-cases (is_conflict code)) [
  | inl e ↦
      let same : conflicting now (code_text code) (record s { inbox = some n }) ≡ r =
        ground arith in
      subst (λ x. Kept s x.store) same
        (
          λ c. record { state = refl; owner = refl; until = refl },
          record { key = refl; digest = refl; command = refl },
        )
  | inr e ↦ absurd (ground arith)
]
Kept-by_inbox now n s (some prior) o r h =
    elim (Bool-cases (prior.payload_digest == n.payload_digest && same_result prior n)) [
      | inl e ↦
          let same : record { duplicate = true; conflict = false; store = s } ≡ r = ground arith in
          subst (λ x. Kept s x.store) same
            (λ c. c, record { key = refl; digest = refl; command = refl })
      | inr e ↦
          let same : conflicting now "SAGA_RESULT_CONFLICT" s ≡ r = ground arith in
          subst (λ x. Kept s x.store) same (Kept-by_conflict now "SAGA_RESULT_CONFLICT" s)
    ]

Kept-by_result :
    (p : Platform) (now : ℕ) (key : String) (raw : Value) (s : Store) (r : Recorded)
    → record_saga_financial_result p now key raw s ≡ ok r
    → Kept s r.store
unfolding record_saga_financial_result
Kept-by_result p now key raw s r h =
    let (_, _, h1) = >>=-eq-ok (require_text key) _ h in
    let (n, _, h2) = >>=-eq-ok (normalize_result raw key) _ h1 in
    let (_, _, h3) =
      >>=-eq-ok (fail_if (not (n.operation_key == key)) unexpected_saga_operation) _ h2 in
    let (_, _, h4) =
      >>=-eq-ok (fail_if (not (s.outbox.operation_key == key)) saga_operation_not_found) _ h3 in
    Kept-by_inbox now n s s.inbox (observed_by p n s) r h4

Kept-by_commit :
    (p : Platform) (local : String) (s t : Store)
    → mark_persisted_saga_local_transition_committed p local s ≡ ok t
    → Kept s t
unfolding mark_persisted_saga_local_transition_committed
Kept-by_commit p local s t h =
    let (next, _, h1) = >>=-eq-ok (mark_local_transition_committed p s.saga.snapshot local) _ h in
    subst (Kept s) (ok_inj h1) (
      λ c. record { state = refl; owner = c.owner; until = c.until },
      record { key = refl; digest = refl; command = refl },
    )

-- Every transaction that succeeds, a claim, a failure, a result or a local commit, keeps the state
-- column equal to the state of the snapshot, keeps lease and status of the outbox row in step, and
-- never changes the operation key, the payload digest or the command of the operation.
pub StoreStep-Consistent :
    (p : Platform) (s t : Store) → StoreStep p s t → (Consistent s → Consistent t) × SameCommand s t
StoreStep-Consistent p s t (claims now worker lease_ms h) = Kept-by_claim now worker lease_ms s t h
StoreStep-Consistent p s t (fails now f h) = Kept-by_failure now f s t h
StoreStep-Consistent p s t (records {r = r} now key raw h) = Kept-by_result p now key raw s r h
StoreStep-Consistent p s t (commits local h) = Kept-by_commit p local s t h
