-- ===== src/Ledger/Fees.antt =====
-- The daily activity fee and the first activation of src/services/economy.js.
use new_humans.Prelude.{
  ℕ, String, Bool, true, false, not, ◌∷◌, Option, none, some, Result, ok, err, fail_if, Code, ◌>>◌,
  ◌>>=◌, ◌==◌, ◌&&◌, ◌||◌, if◌then◌else◌, forbidden, already_activated, not_activated,
}
use new_humans.Prelude.Int.{ℤ, pos, ◌-ℤ◌, leb_ℤ}
use new_humans.Js.Json.{◌<>◌}
use new_humans.Energy.{
  daily_activity_fee_micro_e, ActivationDecision, first_activation_minimum_unfunded,
  daily_fee_unfunded, allowed, activation_decision, Eligibility, activity_eligibility,
}
use new_humans.Ledger.Rows.{
  system, charges_daily_fee, ActivityFee, Entity, Ledger, WalletView, lock_wallet, get_wallet,
  find_fee,
}
use new_humans.Ledger.Journals.{Entered, create_balanced_journal}
use new_humans.Ledger.Transfers.{wallet_event, moved}

pub record Charge : Type 0 where
  pub entity_id : String
  pub billing_date : String
  pub actor_entity_id : String

pub record FeeCharged : Type 0 where
  pub journal_id : ℕ
  pub amount : ℤ
  pub replayed : Bool

abbrev fee_row : Charge → Entered × Ledger → FeeCharged × Ledger
fee_row c (j, l) = (
  record { journal_id = j.journal_id; amount = daily_activity_fee_micro_e; replayed = false },
  wallet_event c.entity_id "DAILY_ACTIVITY_FEE_CHARGED" c.actor_entity_id record l {
    activity_fees =
        record {
          activity_subject = c.entity_id;
          billing_date = c.billing_date;
          amount = daily_activity_fee_micro_e;
          journal_id = j.journal_id;
        }
        ∷ l.activity_fees;
  },
)

unfoldable pub fee_found : Ledger → Charge → ℤ → Option ActivityFee → Result (FeeCharged × Ledger)
unfolding ◌-ℤ◌
fee_found l c available (some f) =
    ok (record { journal_id = f.journal_id; amount = f.amount; replayed = true }, l)
fee_found l c available none = do
  fail_if (leb_ℤ (available -ℤ daily_activity_fee_micro_e) (pos 0)) Code.daily_fee_unfunded
  j ←
      create_balanced_journal l ("daily-fee:" <> c.entity_id <> ":" <> c.billing_date)
        charges_daily_fee
        (moved c.entity_id (system "CONSUMPTION_REDEMPTION") daily_activity_fee_micro_e)
  ok (fee_row c j)

unfoldable pub charge_fee : Ledger → Charge → Result (FeeCharged × Ledger)
unfolding fee_found
charge_fee l c = do
  wallet ← lock_wallet l c.entity_id
  fee_found l c wallet.available_micro_e (find_fee c.entity_id c.billing_date l.activity_fees)

abbrev is_active_system : Option Entity → Bool
is_active_system none = false
is_active_system (some e) = (e.entity_type == "SYSTEM") && (e.identity_status == "ACTIVE")

unfoldable pub assert_activity_initiator : Ledger → String → String → Result (Unit {0})
assert_activity_initiator l entity actor =
    fail_if (not (actor == entity || is_active_system (l.entities actor))) forbidden

pub record Activity : Type 0 where
  pub fee : FeeCharged
  pub wallet : WalletView
  pub eligibility : Eligibility

-- The wallet after the fee, and what it allows.
unfoldable pub activity_after : FeeCharged → Ledger → String → Result (Activity × Ledger)
activity_after fee l e = do
  wallet ← get_wallet l e
  ok (
    record {
      fee = fee;
      wallet = wallet;
      eligibility = activity_eligibility wallet.available_micro_e true;
    },
    l,
  )

abbrev pub refusal : ActivationDecision → Result (Unit {0})
refusal first_activation_minimum_unfunded = err Code.first_activation_minimum_unfunded
refusal daily_fee_unfunded = err Code.daily_fee_unfunded
refusal (allowed _ _ _) = ok tt

abbrev pub mark_activated : String → Ledger → Ledger
mark_activated e l = record l {
  first_activated = λ k. if k == e then true else l.first_activated k;
}

unfoldable pub first_activation : Ledger → Charge → Result (Activity × Ledger)
unfolding activity_after
first_activation l c = do
  assert_activity_initiator l c.entity_id c.actor_entity_id
  fail_if (l.first_activated c.entity_id) already_activated
  wallet ← lock_wallet l c.entity_id
  refusal (activation_decision wallet.available_micro_e)
  fee ← charge_fee l c
  activity_after fee.0 (mark_activated c.entity_id fee.1) c.entity_id

unfoldable pub charge_daily_activity_fee : Ledger → Charge → Result (Activity × Ledger)
unfolding activity_after
charge_daily_activity_fee l c = do
  assert_activity_initiator l c.entity_id c.actor_entity_id
  fail_if (not (l.first_activated c.entity_id)) not_activated
  fee ← charge_fee l c
  activity_after fee.0 fee.1 c.entity_id
