-- ===== src/Ledger/Reach.antt =====
-- The ledgers that the operations make, from the empty one.
use new_humans.Prelude.{false, [], none, ok, ◌≡◌, refl}
use new_humans.Ledger.Rows.{Ledger, reserved}
use new_humans.Ledger.Books.{Sound, ledger_total}
use new_humans.Ledger.Transfers.{Mint, Transfer, Receipt, mint, transfer}
use new_humans.Ledger.Reservations.{
  Reserve, Reserved, reserve, Release, Released, release_reservation, Settle, Settlement,
  settle_reservation,
}
use new_humans.Ledger.Fees.{Charge, Activity, first_activation, charge_daily_activity_fee}
use new_humans.Ledger.Entities.{NewEntity, create_entity}
use new_humans.Ledger.Moves.{mint-Sound, transfer-Sound}
use new_humans.Ledger.Holds.{reserve-Sound, release-Sound}
use new_humans.Ledger.Settlements.{settle-Sound}
use new_humans.Ledger.Activity.{first_activation-Sound, charge_daily-Sound, create_entity-Sound}

abbrev pub empty_ledger : Ledger
empty_ledger = record {
  entities = λ e. none;
  wallets = λ e. none;
  journals = [];
  reservations = [];
  activity_fees = [];
  first_activated = λ e. false;
  events = [];
  next_id = 0;
}

-- One operation that returned; one that throws is rolled back.
pub data Step (l l' : Ledger) : Type 0 where
  creates : (q : NewEntity) → create_entity l q ≡ ok l' → Step l l'
  mints : (m : Mint) (r : Receipt) → mint l m ≡ ok (r, l') → Step l l'
  transfers : (t : Transfer) (r : Receipt) → transfer l t ≡ ok (r, l') → Step l l'
  reserves : (q : Reserve) (r : Reserved) → reserve l q ≡ ok (r, l') → Step l l'
  releases : (q : Release) (r : Released) → release_reservation l q ≡ ok (r, l') → Step l l'
  settles : (q : Settle) (r : Settlement) → settle_reservation l q ≡ ok (r, l') → Step l l'
  activates : (c : Charge) (r : Activity) → first_activation l c ≡ ok (r, l') → Step l l'
  charges : (c : Charge) (r : Activity) → charge_daily_activity_fee l c ≡ ok (r, l') → Step l l'

pub data Reachable : Ledger → Type 0 where
  starts : Reachable empty_ledger
  continues : {l l' : Ledger} → Reachable l → Step l l' → Reachable l'

empty-Sound : Sound empty_ledger
unfolding ledger_total reserved
empty-Sound = record {
  balanced = tt;
  positive = tt;
  agrees = λ e w g. cc;
  unused = λ e g. (refl, refl);
}

Step-Sound : {l l' : Ledger} → Step l l' → Sound l → Sound l'
Step-Sound {l} {l'} (creates q e) h = create_entity-Sound l q l' e h
Step-Sound {l} {l'} (mints m r e) h = mint-Sound l m r l' e h
Step-Sound {l} {l'} (transfers t r e) h = transfer-Sound l t r l' e h
Step-Sound {l} {l'} (reserves q r e) h = reserve-Sound l q r l' e h
Step-Sound {l} {l'} (releases q r e) h = release-Sound l q r l' e h
Step-Sound {l} {l'} (settles q r e) h = settle-Sound l q r l' e h
Step-Sound {l} {l'} (activates c r e) h = first_activation-Sound l c r l' e h
Step-Sound {l} {l'} (charges c r e) h = charge_daily-Sound l c r l' e h

-- In every ledger that the operations make from the empty one, in any order: each journal's postings
-- sum to 0, each reservation is positive, each wallet's balance is the total of all postings to it,
-- and its active reservations do not exceed that balance, so no available balance is ever negative.
pub Reachable-Sound : (l : Ledger) → Reachable l → Sound l
Reachable-Sound l starts = empty-Sound
Reachable-Sound l (continues r s) = Step-Sound s (Reachable-Sound _ r)
