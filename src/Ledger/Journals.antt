-- ===== src/Ledger/Journals.antt =====
-- `createBalancedJournal` of src/services/economy.js, with the trigger on the postings in
-- migrations/001_p0_p1_foundation.sql that moves the wallets' balances.
use new_humans.Prelude.{
  ℕ, zero, suc, String, Bool, true, false, not, List, [], ◌∷◌, Option, none, some, Result, ok, err,
  fail_if, ◌>>◌, ◌>>=◌, ◌==◌, ◌&&◌, map, if◌then◌else◌, raise_exception, check_violation,
  idempotency_conflict,
}
use new_humans.Prelude.Int.{ℤ, pos, ◌+ℤ◌, ltb_ℤ}
use new_humans.Js.Json.{int_text, ◌<>◌}
use new_humans.Js.Order.{sort_entries}
use new_humans.Ledger.Rows.{
  Wallet, Account, entity_wallet, system, Posting, JournalType, mints, transfers, charges_resource,
  charges_daily_fee, Journal, Ledger, find_journal,
}

abbrev account_type : Account → String
account_type (entity_wallet _) = "ENTITY_WALLET"
account_type (system _) = "SYSTEM"

abbrev entity_text : Account → String
entity_text (entity_wallet e) = e
entity_text (system _) = ""

abbrev system_text : Account → String
system_text (entity_wallet _) = ""
system_text (system a) = a

unfoldable pub posting_signature : Posting → String
unfolding int_text
posting_signature p =
    account_type p.account
    <> "|"
    <> entity_text p.account
    <> "|"
    <> system_text p.account
    <> "|"
    <> int_text p.amount

abbrev keyed : Posting → String × Unit {0}
keyed p = (posting_signature p, tt)

unfoldable pub same_texts : List (String × Unit {0}) → List (String × Unit {0}) → Bool
same_texts [] [] = true
same_texts (s ∷ ss) (t ∷ ts) = (s.0 == t.0) && same_texts ss ts
same_texts _ _ = false

unfoldable pub same_postings : List Posting → List Posting → Bool
unfolding same_texts sort_entries
same_postings ps qs = same_texts (sort_entries (map keyed ps)) (sort_entries (map keyed qs))

abbrev pub same_type : JournalType → JournalType → Bool
same_type mints mints = true
same_type transfers transfers = true
same_type charges_resource charges_resource = true
same_type charges_daily_fee charges_daily_fee = true
same_type _ _ = false

unfoldable pub assert_existing_journal_matches :
    Journal → JournalType → List Posting → Result (Unit {0})
unfolding same_postings
assert_existing_journal_matches j kind ps =
    fail_if (not (same_type j.journal_type kind && same_postings ps j.postings))
      idempotency_conflict

abbrev pub is_zero : ℤ → Bool
is_zero (pos zero) = true
is_zero _ = false

abbrev pub set_wallet : String → Wallet → (String → Option Wallet) → String → Option Wallet
set_wallet e w ws k = if k == e then some w else ws k

-- `posted_balance_micro_e + NEW.amount_micro_e`, under the column's CHECK.
unfoldable pub add_to_wallet :
    String → ℤ → (String → Option Wallet) → Option Wallet → Result (String → Option Wallet)
add_to_wallet e x ws none = err raise_exception
add_to_wallet e x ws (some w) =
    fail_if (ltb_ℤ (w.posted_balance +ℤ x) (pos 0)) check_violation
    >> ok (set_wallet e (record w { posted_balance = w.posted_balance +ℤ x }) ws)

unfoldable pub apply_posting :
    Account → ℤ → (String → Option Wallet) → Result (String → Option Wallet)
unfolding add_to_wallet
apply_posting (system _) x ws = ok ws
apply_posting (entity_wallet e) x ws = add_to_wallet e x ws (ws e)

-- The row's own CHECK, then the trigger.
unfoldable pub insert_postings :
    List Posting → (String → Option Wallet) → Result (String → Option Wallet)
unfolding apply_posting
insert_postings [] ws = ok ws
insert_postings (p ∷ ps) ws =
    fail_if (is_zero p.amount) check_violation >> apply_posting p.account p.amount ws >>= λ ws'.
    insert_postings ps ws'

pub record Entered : Type 0 where
  pub journal_id : ℕ
  pub replayed : Bool

unfoldable pub new_journal :
    Ledger → String → JournalType → List Posting → Result (Entered × Ledger)
unfolding insert_postings
new_journal l key kind ps = do
  ws ← insert_postings ps l.wallets
  ok (
    record { journal_id = l.next_id; replayed = false },
    record l {
      wallets = ws;
      journals =
          record { journal_id = l.next_id; business_key = key; journal_type = kind; postings = ps }
          ∷ l.journals;
      next_id = suc l.next_id;
    },
  )

unfoldable pub enter :
    Ledger → String → JournalType → List Posting → Option Journal → Result (Entered × Ledger)
unfolding new_journal assert_existing_journal_matches
enter l key kind ps none = new_journal l key kind ps
enter l key kind ps (some j) =
    assert_existing_journal_matches j kind ps
    >> ok (record { journal_id = j.journal_id; replayed = true }, l)

unfoldable pub create_balanced_journal :
    Ledger → String → JournalType → List Posting → Result (Entered × Ledger)
unfolding enter
create_balanced_journal l key kind ps = enter l key kind ps (find_journal key l.journals)
