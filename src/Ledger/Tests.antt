-- ===== src/Ledger/Tests.antt =====
-- Runs of the ledger on concrete rows.
use new_humans.Prelude.{
  false, true, String, Result, ok, err, ◌>>=◌, insufficient_energy, ◌≡◌, refl, none,
}
use new_humans.Prelude.Int.{pos, ◌+ℤ◌, ◌-ℤ◌}
use new_humans.Energy.{bigint, parse_micro_e}
use new_humans.Ledger.Rows.{Ledger, lock_wallet, find_journal, find_fee, reservation_of_key}
use new_humans.Ledger.Journals.{create_balanced_journal}
use new_humans.Ledger.Books.{Sound}
use new_humans.Ledger.Transfers.{Mint, mint, Transfer, transfer}
use new_humans.Ledger.Entities.{NewEntity, create_entity}
use new_humans.Ledger.Reach.{
  empty_ledger, Reachable, starts, continues, creates, mints, transfers, Reachable-Sound,
}
use new_humans.Ledger.Reservations.{Reserve, Reserved, reserve}
use new_humans.Ledger.Undo.{Undone, reserve-release}
use new_humans.Ledger.Retries.{transfer_again, charge_fee_again}
use new_humans.Ledger.Fees.{Charge, FeeCharged, charge_fee}

abbrev entity : String → String → NewEntity
entity id kind = record {
  entity_id = id;
  entity_type = kind;
  created_by = none;
  actor_entity_id = none;
}

abbrev returned {ℓ} : {A : Type ℓ} → A → Result A → A
returned a (ok b) = b
returned a _ = a

abbrev after {ℓ} : {A : Type ℓ} → Ledger → Result (A × Ledger) → Ledger
after l (ok b) = b.1
after l _ = l

abbrev two_entities : Ledger
two_entities = returned empty_ledger (
    create_entity (returned empty_ledger (create_entity empty_ledger (entity "bank" "SYSTEM")))
      (entity "ann" "HUMAN"))

abbrev mint_five : Mint
mint_five = record {
  target_entity_id = "ann";
  amount = bigint (pos 5000000);
  basis_key = "b1";
  actor_entity_id = "bank";
}

abbrev pay_three : Transfer
pay_three = record {
  from_entity_id = "ann";
  to_entity_id = "bank";
  amount = bigint (pos 3000000);
  business_key = "p1";
  actor_entity_id = "ann";
}

abbrev funded : Ledger
funded = after two_entities (mint two_entities mint_five)

abbrev paid : Ledger
paid = after funded (transfer funded pay_three)

ann_left : (lock_wallet paid "ann" >>= λ w. ok w.available_micro_e) ≡ ok (pos 2000000)
unfolding lock_wallet transfer mint create_entity parse_micro_e create_balanced_journal find_journal
    ◌-ℤ◌ ◌+ℤ◌
ann_left = refl

paid-Reachable : Reachable paid
unfolding lock_wallet transfer mint create_entity parse_micro_e create_balanced_journal find_journal
    ◌-ℤ◌ ◌+ℤ◌
paid-Reachable =
    continues
      (continues
        (continues (continues starts (creates (entity "bank" "SYSTEM") refl))
          (creates (entity "ann" "HUMAN") refl))
        (mints mint_five _ refl))
      (transfers pay_three _ refl)

Reachable-Sound_example : Sound paid
Reachable-Sound_example = Reachable-Sound paid paid-Reachable

-- The retry of a transfer that took place, with too little left.
transfer_again_example : transfer paid pay_three ≡ err insufficient_energy
unfolding lock_wallet transfer mint create_entity parse_micro_e create_balanced_journal find_journal
    ◌-ℤ◌ ◌+ℤ◌
transfer_again_example = transfer_again funded pay_three _ paid _ _ refl refl refl

abbrev today : Charge
today = record { entity_id = "ann"; billing_date = "2026-01-01"; actor_entity_id = "ann" }

abbrev paid_fee : FeeCharged
paid_fee = record { journal_id = 2; amount = pos 1000000; replayed = false }

abbrev charged : Ledger
charged = after paid (charge_fee paid today)

charge_fee_again_example :
    charge_fee charged today ≡ ok (record paid_fee { replayed = true }, charged)
unfolding charge_fee find_fee lock_wallet transfer mint create_entity parse_micro_e
    create_balanced_journal find_journal ◌-ℤ◌ ◌+ℤ◌
charge_fee_again_example = charge_fee_again paid today paid_fee charged _ refl refl

abbrev hold_one : Reserve
hold_one = record {
  entity_id = "ann";
  amount = bigint (pos 1000000);
  business_key = "h1";
  actor_entity_id = "ann";
}

abbrev made : Reserved
made = record { reservation_id = 2; amount = pos 1000000; replayed = false }

reserve-release_example : Undone paid hold_one (made, after paid (reserve paid hold_one))
unfolding transfer parse_micro_e lock_wallet mint create_entity create_balanced_journal find_journal
    ◌-ℤ◌ ◌+ℤ◌ reserve reservation_of_key
reserve-release_example =
    reserve-release paid hold_one (made, after paid (reserve paid hold_one)) tt refl refl
