-- ===== src/Ledger/Books.antt =====
-- What every ledger keeps: balanced journals, wallets that agree with their postings, and covered
-- reservations.
use new_humans.Prelude.{String, List, [], ◌∷◌, Option, none, some, ok, ◌≡◌, ◌∙◌}
use new_humans.Prelude.Int.{ℤ, pos, ◌+ℤ◌, ◌≤ℤ◌, ◌<ℤ◌, int_laws}
use new_humans.Ledger.Rows.{
  Wallet, Posting, JournalType, Journal, Reservation, Ledger, reserved, available,
}
use new_humans.Ledger.Journals.{Entered, insert_postings}
use new_humans.Ledger.Entries.{
  wallet_total, sum, Entry, found, written, with_journal, insert_postings-Added,
  insert_postings-none, Unposted,
}

-- What all journals add to one wallet.
unfoldable pub ledger_total : String → List Journal → ℤ
ledger_total e [] = pos 0
ledger_total e (j ∷ js) = wallet_total e j.postings +ℤ ledger_total e js

abbrev pub AllBalanced : List Journal → Type 0
AllBalanced [] = Unit {0}
AllBalanced (j ∷ js) = (sum j.postings ≡ pos 0) × AllBalanced js

abbrev pub AllPositive : List Reservation → Type 0
AllPositive [] = Unit {0}
AllPositive (r ∷ rs) = (pos 0 <ℤ r.amount) × AllPositive rs

-- A wallet's balance is the total of its postings, nothing in it is frozen, and its active
-- reservations do not exceed it.
pub record Agrees (js : List Journal) (rs : List Reservation) (e : String) (w : Wallet)
    : Type 0 where
  pub balance : w.posted_balance ≡ ledger_total e js
  pub unfrozen : w.frozen ≡ pos 0
  pub covered : pos 0 ≤ℤ available w (reserved e rs)

abbrev pub Unused : Ledger → String → Type 0
Unused l e = (ledger_total e l.journals ≡ pos 0) × (reserved e l.reservations ≡ pos 0)

pub record Sound (l : Ledger) : Type 0 where
  pub balanced : AllBalanced l.journals
  pub positive : AllPositive l.reservations
  pub agrees :
      (e : String) (w : Wallet) → l.wallets e ≡ some w → Agrees l.journals l.reservations e w
  pub unused : (e : String) → l.wallets e ≡ none → Unused l e

-- With the reservations `rs`, the postings leave every wallet with what it holds for them.
abbrev pub Covers : Ledger → List Reservation → List Posting → Type 0
Covers l rs ps =
    (e : String) (w : Wallet)
    → l.wallets e ≡ some w
    → pos 0 ≤ℤ available w (reserved e rs) +ℤ wallet_total e ps

-- `rs` may stand in for the reservations of `l`.
pub record Replaces (l : Ledger) (rs : List Reservation) : Type 0 where
  pub positive : AllPositive rs
  pub unused : (e : String) → l.wallets e ≡ none → reserved e rs ≡ pos 0
  pub covers : Covers l rs []

pub replaced-Sound :
    (l : Ledger) (rs : List Reservation)
    → Replaces l rs
    → Sound l
    → Sound (record l { reservations = rs })
unfolding wallet_total
replaced-Sound l rs p h = record {
  balanced = h.balanced;
  positive = p.positive;
  agrees = λ e w g. record {
    balance = (h.agrees e w g).balance;
    unfrozen = (h.agrees e w g).unfrozen;
    covered = omega (int_laws, p.covers e w g);
  };
  unused = λ e g. ((h.unused e g).0, p.unused e g);
}

written-Agrees :
    (l : Ledger) (key : String) (kind : JournalType) (ps : List Posting)
    → (ws : String → Option Wallet) (rs : List Reservation) → insert_postings ps l.wallets ≡ ok ws
    → Covers l rs ps
    → Sound l
    → (e : String) (w : Wallet) → ws e ≡ some w
    → Agrees (with_journal l key kind ps ws).journals rs e w
unfolding ledger_total
written-Agrees l key kind ps ws rs moved c h e w g =
    let a = insert_postings-Added ps l.wallets ws moved e w g in
    let b = h.agrees e a.before a.found in
    record {
      balance = rw (a.balance, b.balance) (omega int_laws);
      unfrozen = a.frozen ∙ b.unfrozen;
      covered = rw (a.balance, a.frozen) (omega (int_laws, c e a.before a.found));
    }

-- An entry of a balanced and covered journal, together with a change of the reservations.
pub Entry-replaced-Sound :
    {l l' : Ledger} {key : String} {kind : JournalType} {ps : List Posting} {d : Entered}
    → (rs : List Reservation) → Entry l key kind ps d l'
    → sum ps ≡ pos 0
    → Covers l rs ps
    → Replaces l rs
    → Sound l
    → Sound (record l' { reservations = rs })
unfolding ledger_total Unposted
Entry-replaced-Sound {l} rs (found f i r) zero_sum c p h = replaced-Sound l rs p h
Entry-replaced-Sound {l} {key} {kind} {ps} rs (written {ws} f moved i r) zero_sum c p h = record {
  balanced = (zero_sum, h.balanced);
  positive = p.positive;
  agrees = written-Agrees l key kind ps ws rs moved c h;
  unused = λ e g.
      (let (none_before, nothing) = insert_postings-none ps l.wallets ws moved e g in
        (rw (nothing, (h.unused e none_before).0) (omega int_laws), p.unused e none_before));
}

own-Replaces : (l : Ledger) → Sound l → Replaces l l.reservations
unfolding wallet_total
own-Replaces l h = record {
  positive = h.positive;
  unused = λ e g. (h.unused e g).1;
  covers = λ e w g. omega (int_laws, (h.agrees e w g).covered);
}

pub Entry-Sound :
    {l l' : Ledger} {key : String} {kind : JournalType} {ps : List Posting} {d : Entered}
    → Entry l key kind ps d l'
    → sum ps ≡ pos 0
    → Covers l l.reservations ps
    → Sound l
    → Sound l'
Entry-Sound (found f i r) zero_sum c h = h
Entry-Sound {l} (written f moved i r) zero_sum c h =
    Entry-replaced-Sound l.reservations (written f moved i r) zero_sum c (own-Replaces l h) h
