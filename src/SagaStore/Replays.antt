-- ===== src/SagaStore/Replays.antt =====
-- A result that was recorded is recorded once.
use new_humans.Prelude.{
  ℕ, String, true, false, not, ◌&&◌, ◌==◌, Option, none, some, Result, ok, err, fail_if, >>=-eq-ok,
  ok_inj, unexpected_saga_operation, saga_operation_not_found, ◌≡◌, refl, subst, ◌∙◌, ap, arith,
  eq_refl, Bool-cases, inl, inr,
}
use new_humans.Platform.{Platform}
use new_humans.Js.{Value}
use new_humans.Saga.{Saga, FinancialResult, same_result}
use new_humans.Saga.Outcomes.{same_result_refl}
use new_humans.SagaStore.Rows.{Store, require_text}
use new_humans.SagaStore.Results.{
  normalize_result, observed_by, after_observation, with_inbox, Recorded,
  record_saga_financial_result,
}

same_as_itself :
    (n : FinancialResult) → (n.payload_digest == n.payload_digest && same_result n n) ≡ true
same_as_itself n = ground (arith, eq_refl n.payload_digest, same_result_refl n)

-- What `r` has to show after `n` was recorded on `s`.
abbrev Kept : FinancialResult → Store → Recorded → Type 0
Kept n s r =
    (prior : FinancialResult) × (r.store.inbox ≡ some prior)
    × ((prior.payload_digest == n.payload_digest && same_result prior n) ≡ true)
    × (r.store.outbox.operation_key ≡ s.outbox.operation_key)

Kept-of :
    (now : ℕ) (n : FinancialResult) (s : Store) (i : Option FinancialResult) (o : Result Saga)
    (r : Recorded)
    → s.inbox ≡ i
    → with_inbox i now n s (after_observation now n s o) ≡ ok r
    → r.conflict ≡ false
    → Kept n s r
Kept-of now n s none (ok next) r i h c =
    subst (Kept n s) (ok_inj h) (n, refl, same_as_itself n, refl)
Kept-of now n s none (err code) r i h c = absurd (ground arith)
Kept-of now n s (some prior) o r i h c =
    elim (Bool-cases (prior.payload_digest == n.payload_digest && same_result prior n)) [
      | inl e ↦
          let same : record { duplicate = true; conflict = false; store = s } ≡ r = ground arith in
          subst (Kept n s) same (prior, i, e, refl)
      | inr e ↦ absurd (ground arith)
    ]

-- The result of the inbox, after a recording without conflict.
Kept-in_inbox :
    (now : ℕ) (n : FinancialResult) (s : Store) (o : Result Saga) {r : Recorded}
    → with_inbox s.inbox now n s (after_observation now n s o) ≡ ok r
    → r.conflict ≡ false
    → Kept n s r
Kept-in_inbox now n s o {r} h c = Kept-of now n s s.inbox o r refl h c

-- A result that was recorded without a conflict and arrives again, at any time, is reported as a
-- duplicate and changes nothing.
pub recorded_once :
    (p : Platform) (now later : ℕ) (key : String) (raw : Value) (s : Store) (r : Recorded)
    → record_saga_financial_result p now key raw s ≡ ok r
    → r.conflict ≡ false
    → record_saga_financial_result p later key raw r.store
      ≡ ok (record { duplicate = true; conflict = false; store = r.store })
unfolding record_saga_financial_result
recorded_once p now later key raw s r h c =
    let (_, named, h1) = >>=-eq-ok (require_text key) _ h in
    let (n, normal, h2) = >>=-eq-ok (normalize_result raw key) _ h1 in
    let (_, e, h3) =
      >>=-eq-ok (fail_if (not (n.operation_key == key)) unexpected_saga_operation) _ h2 in
    let (_, k, h4) =
      >>=-eq-ok (fail_if (not (s.outbox.operation_key == key)) saga_operation_not_found) _ h3 in
    let same : (n.operation_key == key) ≡ true = ground arith in
    let (prior, held, equal, outbox) = Kept-in_inbox now n s (observed_by p n s) h4 c in
    let found : (r.store.outbox.operation_key == key) ≡ true =
      ap (λ x. x == key) outbox ∙ ground arith in
    let replayed : with_inbox r.store.inbox later n r.store
          (after_observation later n r.store (observed_by p n r.store))
        ≡ ok (record { duplicate = true; conflict = false; store = r.store }) =
      ap
        (λ x.
          with_inbox x later n r.store
            (after_observation later n r.store (observed_by p n r.store)))
        held
      ∙ rw (equal) refl in
    simp (named, normal, same, found) replayed
