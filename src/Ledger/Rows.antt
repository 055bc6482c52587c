-- ===== src/Ledger/Rows.antt =====
-- The tables of the ledger of one world, and the reads of src/services/economy.js.
use new_humans.Prelude.{
  ℕ, String, Bool, true, false, List, [], ◌∷◌, Option, none, some, Result, ok, err, ◌==◌, ◌&&◌, eqb,
  if◌then◌else◌, wallet_not_found,
}
use new_humans.Prelude.Int.{ℤ, pos, ◌+ℤ◌, ◌-ℤ◌}
use new_humans.Core.Events.{Event}

pub record Wallet : Type 0 where
  pub posted_balance : ℤ
  pub frozen : ℤ

pub data Account : Type 0 where
  entity_wallet : String → Account
  system : String → Account

pub record Posting : Type 0 where
  pub account : Account
  pub amount : ℤ

pub data JournalType : Type 0 where
  mints transfers charges_resource charges_daily_fee : JournalType

pub record Journal : Type 0 where
  pub journal_id : ℕ
  pub business_key : String
  pub journal_type : JournalType
  pub postings : List Posting

pub data Status : Type 0 where
  active settled released : Status

pub record Reservation : Type 0 where
  pub reservation_id : ℕ
  pub entity_id : String
  pub business_key : String
  pub amount : ℤ
  pub status : Status
  pub settled_amount : Option ℤ
  pub settlement_journal : Option ℕ

pub record ActivityFee : Type 0 where
  pub activity_subject : String
  pub billing_date : String
  pub amount : ℤ
  pub journal_id : ℕ

pub record Entity : Type 0 where
  pub entity_type : String
  pub identity_status : String

-- Lists have the newest row first; `next_id` stands for the fresh identifier of the next row.
pub record Ledger : Type 0 where
  pub entities : String → Option Entity
  pub wallets : String → Option Wallet
  pub journals : List Journal
  pub reservations : List Reservation
  pub activity_fees : List ActivityFee
  pub first_activated : String → Bool
  pub events : List Event
  pub next_id : ℕ

abbrev pub is_active : Status → Bool
is_active active = true
is_active _ = false

-- `SUM(amount_micro_e)` of the entity's active reservations.
unfoldable pub reserved : String → List Reservation → ℤ
reserved e [] = pos 0
reserved e (r ∷ rs) =
    let rest = reserved e rs in
    if (r.entity_id == e) && is_active r.status then r.amount +ℤ rest else rest

abbrev pub available : Wallet → ℤ → ℤ
available w held = w.posted_balance -ℤ w.frozen -ℤ held

pub record WalletView : Type 0 where
  pub wallet : Wallet
  pub reserved_micro_e : ℤ
  pub available_micro_e : ℤ

unfoldable pub view_of : List Reservation → String → Option Wallet → Result WalletView
unfolding reserved
view_of rs e none = err wallet_not_found
view_of rs e (some w) = ok record {
  wallet = w;
  reserved_micro_e = reserved e rs;
  available_micro_e = available w (reserved e rs);
}

unfoldable pub lock_wallet : Ledger → String → Result WalletView
unfolding view_of
lock_wallet l e = view_of l.reservations e (l.wallets e)

-- The view `wallet_balances` computes the same columns.
unfoldable pub get_wallet : Ledger → String → Result WalletView
unfolding lock_wallet
get_wallet l e = lock_wallet l e

unfoldable pub find_journal : String → List Journal → Option Journal
find_journal key [] = none
find_journal key (j ∷ js) =
    let rest = find_journal key js in if j.business_key == key then some j else rest

unfoldable pub reservation_of_key : String → String → List Reservation → Option Reservation
reservation_of_key e key [] = none
reservation_of_key e key (r ∷ rs) =
    let rest = reservation_of_key e key rs in
    if (r.entity_id == e) && (r.business_key == key) then some r else rest

unfoldable pub find_reservation : String → ℕ → List Reservation → Option Reservation
find_reservation e id [] = none
find_reservation e id (r ∷ rs) =
    let rest = find_reservation e id rs in
    if (r.entity_id == e) && eqb r.reservation_id id then some r else rest

unfoldable pub find_fee : String → String → List ActivityFee → Option ActivityFee
find_fee e date [] = none
find_fee e date (f ∷ fs) =
    let rest = find_fee e date fs in
    if (f.activity_subject == e) && (f.billing_date == date) then some f else rest
