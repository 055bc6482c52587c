-- ===== src/Ledger/Reservations.antt =====
-- `reserve`, `releaseReservation` and `settleReservation` of src/services/economy.js.
use new_humans.Prelude.{
  ℕ, suc, String, Bool, true, false, not, List, [], ◌∷◌, Option, none, some, Result, ok, err,
  fail_if, ◌>>◌, ◌>>=◌, ◌==◌, ◌||◌, eqb, if◌then◌else◌, invalid_amount, forbidden,
  insufficient_energy, idempotency_conflict, reservation_not_found, reservation_not_releasable,
  reservation_not_settleable, reservation_exceeded, type_error,
}
use new_humans.Prelude.Int.{ℤ, pos, leb_ℤ, ltb_ℤ}
use new_humans.Js.Json.{◌<>◌}
use new_humans.Energy.{Amount, parse_micro_e}
use new_humans.Ledger.Rows.{
  system, charges_resource, Status, active, settled, released, Reservation, Ledger, is_active,
  lock_wallet, reservation_of_key, find_reservation,
}
use new_humans.Ledger.Journals.{create_balanced_journal}
use new_humans.Ledger.Transfers.{wallet_event, moved}

-- `a !== b` on BigInts.
abbrev pub differs : ℤ → ℤ → Bool
differs a b = ltb_ℤ a b || ltb_ℤ b a

pub record Reserve : Type 0 where
  pub entity_id : String
  pub amount : Amount
  pub business_key : String
  pub actor_entity_id : String

pub record Reserved : Type 0 where
  pub reservation_id : ℕ
  pub amount : ℤ
  pub replayed : Bool

unfoldable pub new_reservation : Ledger → Reserve → ℤ → Reserved × Ledger
new_reservation l q x = (
  record { reservation_id = l.next_id; amount = x; replayed = false },
  wallet_event q.entity_id "ENERGY_RESERVED" q.actor_entity_id record l {
    reservations =
        record {
          reservation_id = l.next_id;
          entity_id = q.entity_id;
          business_key = q.business_key;
          amount = x;
          status = active;
          settled_amount = none;
          settlement_journal = none;
        }
        ∷ l.reservations;
    next_id = suc l.next_id;
  },
)

unfoldable pub reserve_found :
    Ledger → Reserve → ℤ → Option Reservation → Result (Reserved × Ledger)
unfolding new_reservation
reserve_found l q x none = ok (new_reservation l q x)
reserve_found l q x (some r) =
    fail_if (differs r.amount x || not (is_active r.status)) idempotency_conflict
    >> ok (record { reservation_id = r.reservation_id; amount = x; replayed = true }, l)

unfoldable pub reserve : Ledger → Reserve → Result (Reserved × Ledger)
unfolding reserve_found
reserve l q = do
  x ← parse_micro_e q.amount
  fail_if (leb_ℤ x (pos 0)) invalid_amount
  fail_if (not (q.actor_entity_id == q.entity_id)) forbidden
  wallet ← lock_wallet l q.entity_id
  fail_if (ltb_ℤ wallet.available_micro_e x) insufficient_energy
  reserve_found l q x (reservation_of_key q.entity_id q.business_key l.reservations)

-- `UPDATE … WHERE reservation_id=$1`.
unfoldable pub update_reservation :
    ℕ → (Reservation → Reservation) → List Reservation → List Reservation
update_reservation id f [] = []
update_reservation id f (r ∷ rs) =
    let rest = update_reservation id f rs in
    if eqb r.reservation_id id then f r ∷ rest else r ∷ rest

abbrev pub release : Reservation → Reservation
release r = record r { status = released }

pub record Release : Type 0 where
  pub entity_id : String
  pub reservation_id : ℕ
  pub actor_entity_id : String

pub record Released : Type 0 where
  pub reservation_id : ℕ
  pub status : Status
  pub replayed : Bool

unfoldable pub release_row : Ledger → Release → Status → Result (Released × Ledger)
unfolding update_reservation
release_row l q released =
    ok (record { reservation_id = q.reservation_id; status = released; replayed = true }, l)
release_row l q settled = err reservation_not_releasable
release_row l q active = ok (
  record { reservation_id = q.reservation_id; status = released; replayed = false },
  wallet_event q.entity_id "ENERGY_RESERVATION_RELEASED" q.actor_entity_id
      record l { reservations = update_reservation q.reservation_id release l.reservations },
)

unfoldable pub release_found : Ledger → Release → Option Reservation → Result (Released × Ledger)
unfolding release_row
release_found l q none = err reservation_not_found
release_found l q (some r) = release_row l q r.status

unfoldable pub release_reservation : Ledger → Release → Result (Released × Ledger)
unfolding release_found
release_reservation l q = do
  fail_if (not (q.actor_entity_id == q.entity_id)) forbidden
  _ ← lock_wallet l q.entity_id
  release_found l q (find_reservation q.entity_id q.reservation_id l.reservations)

pub record Settle : Type 0 where
  pub entity_id : String
  pub reservation_id : ℕ
  pub actual_amount : Amount
  pub business_key : String
  pub actor_entity_id : String

pub record Settlement : Type 0 where
  pub reservation_id : ℕ
  pub amount : ℤ
  pub journal_id : Option ℕ
  pub replayed : Bool

-- `if (amount > 0n)`: a settlement at 0 enters no journal.
abbrev pub charge : Ledger → Settle → ℤ → Result (Option ℕ × Ledger)
charge l q x =
    let journal = do
      j ←
          create_balanced_journal l ("resource-charge:" <> q.business_key) charges_resource
            (moved q.entity_id (system "CONSUMPTION_REDEMPTION") x)
      ok (some j.0.journal_id, j.1)
    in if ltb_ℤ (pos 0) x then journal else ok (none, l)

abbrev pub settle : ℤ → Option ℕ → Reservation → Reservation
settle x journal r = record r {
  status = settled;
  settled_amount = some x;
  settlement_journal = journal;
}

abbrev pub settled_row : Settle → ℤ → Option ℕ × Ledger → Settlement × Ledger
settled_row q x (journal, l) = (
  record { reservation_id = q.reservation_id; amount = x; journal_id = journal; replayed = false },
  wallet_event q.entity_id "ENERGY_RESERVATION_SETTLED" q.actor_entity_id record l {
    reservations = update_reservation q.reservation_id (settle x journal) l.reservations;
  },
)

-- `BigInt(row.settled_amount_micro_e) !== amount`; `BigInt(null)` throws a TypeError.
abbrev pub assert_settled_as : Option ℤ → ℤ → Result (Unit {0})
assert_settled_as none x = err type_error
assert_settled_as (some y) x = fail_if (differs y x) idempotency_conflict

unfoldable pub settle_row :
    Ledger → Settle → ℤ → Reservation → Status → Result (Settlement × Ledger)
settle_row l q x r settled =
    assert_settled_as r.settled_amount x
    >> ok (
      record {
        reservation_id = q.reservation_id;
        amount = x;
        journal_id = r.settlement_journal;
        replayed = true;
      },
      l,
    )
settle_row l q x r released = err reservation_not_settleable
settle_row l q x r active =
    fail_if (ltb_ℤ r.amount x) reservation_exceeded >> charge l q x >>= λ charged.
    ok (settled_row q x charged)

unfoldable pub settle_found :
    Ledger → Settle → ℤ → Option Reservation → Result (Settlement × Ledger)
unfolding settle_row
settle_found l q x none = err reservation_not_found
settle_found l q x (some r) = settle_row l q x r r.status

unfoldable pub settle_reservation : Ledger → Settle → Result (Settlement × Ledger)
unfolding settle_found
settle_reservation l q = do
  fail_if (not (q.actor_entity_id == q.entity_id)) forbidden
  x ← parse_micro_e q.actual_amount
  fail_if (ltb_ℤ x (pos 0)) invalid_amount
  _ ← lock_wallet l q.entity_id
  settle_found l q x (find_reservation q.entity_id q.reservation_id l.reservations)
