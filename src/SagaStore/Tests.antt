-- ===== src/SagaStore/Tests.antt =====
-- The theorems on the store, at an activation whose dispatch ends without an answer.
use new_humans.Prelude.{true, false, ok, ◌≡◌, refl}
use new_humans.Saga.Runs.{platform, success, funded}
use new_humans.SagaStore.Results.{Recorded, record_saga_financial_result}
use new_humans.SagaStore.Recovery.{unknown-recovers}
use new_humans.SagaStore.Replays.{recorded_once}
use new_humans.SagaStore.Agreement.{Consistent, SameCommand, fails, StoreStep-Consistent}
use new_humans.SagaStore.Runs.{
  key, dispatched, no_answer, frozen_store, failed, answered, recorded, waiting,
}

unknown-recovers_example :
    (r : Recorded) × (record_saga_financial_result platform 300 key success frozen_store ≡ ok r)
    × (r.store.saga.snapshot ≡ funded)
    × (r.conflict ≡ false)
    × (r.duplicate ≡ false)
unknown-recovers_example =
    unknown-recovers platform 100 200 300 no_answer dispatched frozen_store success answered waiting
      refl failed recorded refl

recorded_once_example :
    record_saga_financial_result platform 300 key success answered.store
    ≡ ok (record { duplicate = true; conflict = false; store = answered.store })
recorded_once_example = recorded_once platform 200 300 key success dispatched answered recorded refl

StoreStep-Consistent_example :
    (Consistent dispatched → Consistent frozen_store) × SameCommand dispatched frozen_store
StoreStep-Consistent_example =
    StoreStep-Consistent platform dispatched frozen_store (fails 100 no_answer failed)
