-- ===== src/Ledger/Retries.antt =====
-- An operation that is called again with the same arguments.
use new_humans.Prelude.{
  String, Bool, true, false, not, List, [], ◌∷◌, Option, none, some, Result, ok, err, fail_if, ◌>>◌,
  ◌==◌, ◌||◌, ◌≡◌, refl, sym, ◌∙◌, ap, subst, if◌then◌else◌, inl, inr, >>=-eq-ok, guarded, ok_inj,
  Bool-cases, eq_refl, Code, invalid_transfer, forbidden, insufficient_energy,
}
use new_humans.Prelude.Int.{ℤ, pos, ◌-ℤ◌, leb_ℤ, ltb_ℤ}
use new_humans.Js.Json.{◌<>◌}
use new_humans.Energy.{parse_micro_e, daily_activity_fee_micro_e}
use new_humans.Ledger.Rows.{
  entity_wallet, system, Posting, JournalType, mints, transfers, charges_resource,
  charges_daily_fee, ActivityFee, Ledger, WalletView, Journal, lock_wallet, find_journal, find_fee,
}
use new_humans.Ledger.Journals.{
  Entered, create_balanced_journal, enter, new_journal, insert_postings, same_postings, same_texts,
  same_type, assert_existing_journal_matches,
}
use new_humans.Ledger.Transfers.{Transfer, Receipt, receipt, transfer_events, transfer, moved}
use new_humans.Ledger.Fees.{Charge, FeeCharged, fee_found, charge_fee}

same_texts_refl : (ss : List (String × Unit {0})) → same_texts ss ss ≡ true
unfolding same_texts
same_texts_refl [] = refl
same_texts_refl (s ∷ ss) = rw (eq_refl s.0) (same_texts_refl ss)

same_type_refl : (t : JournalType) → same_type t t ≡ true
same_type_refl mints = refl
same_type_refl transfers = refl
same_type_refl charges_resource = refl
same_type_refl charges_daily_fee = refl

found_first :
    (key : String) (j : Journal) (js : List Journal)
    → j.business_key ≡ key
    → find_journal key (j ∷ js) ≡ some j
unfolding find_journal
found_first key j js e = rw (e, eq_refl key)

matches_again :
    (j : Journal) (kind : JournalType) (ps : List Posting)
    → j.journal_type ≡ kind
    → j.postings ≡ ps
    → assert_existing_journal_matches j kind ps ≡ ok tt
unfolding assert_existing_journal_matches same_postings
matches_again j kind ps e f = rw (e, f, same_type_refl kind, same_texts_refl)

enter_found :
    (l : Ledger) (key : String) (kind : JournalType) (ps : List Posting) (j : Journal)
    → find_journal key l.journals ≡ some j
    → assert_existing_journal_matches j kind ps ≡ ok tt
    → create_balanced_journal l key kind ps
      ≡ ok (record { journal_id = j.journal_id; replayed = true }, l)
unfolding create_balanced_journal enter
enter_found l key kind ps j f m = rw (f, m)

abbrev row_of : Ledger → String → JournalType → List Posting → Journal
row_of l key kind ps = record {
  journal_id = l.next_id;
  business_key = key;
  journal_type = kind;
  postings = ps;
}

entered_again :
    (l l2 : Ledger) (key : String) (kind : JournalType) (ps : List Posting) (o : Option Journal)
    → (d : Entered) (l' : Ledger) → find_journal key l.journals ≡ o
    → enter l key kind ps o ≡ ok (d, l')
    → l2.journals ≡ l'.journals
    → create_balanced_journal l2 key kind ps ≡ ok (record d { replayed = true }, l2)
unfolding enter new_journal
entered_again l l2 key kind ps none d l' f h same =
    let (ws, moved, e) = >>=-eq-ok (insert_postings ps l.wallets) _ h in
    let made = ok_inj e in
    rw (ap (λ u. u.0.journal_id) (sym made)) (
      enter_found l2 key kind ps _
        (ap (find_journal key) (same ∙ ap (λ u. u.1.journals) (sym made))
          ∙ found_first key (row_of l key kind ps) l.journals refl)
        (matches_again (row_of l key kind ps) kind ps refl refl))
entered_again l l2 key kind ps (some j) d l' f h same =
    let (_, m, e) = >>=-eq-ok (assert_existing_journal_matches j kind ps) _ h in
    let made = ok_inj e in
    rw (ap (λ u. u.0.journal_id) (sym made)) (
      enter_found l2 key kind ps j
        (ap (find_journal key) (same ∙ ap (λ u. u.1.journals) (sym made)) ∙ f) m)

-- A journal that was entered, or found, is found again under its key, with the same content.
pub create_again :
    (l l2 : Ledger) (key : String) (kind : JournalType) (ps : List Posting)
    → (d : Entered) (l' : Ledger) → create_balanced_journal l key kind ps ≡ ok (d, l')
    → l2.journals ≡ l'.journals
    → create_balanced_journal l2 key kind ps ≡ ok (record d { replayed = true }, l2)
unfolding create_balanced_journal
create_again l l2 key kind ps d l' e same =
    entered_again l l2 key kind ps (find_journal key l.journals) d l' refl e same

receipt-journals :
    (x : ℤ) (t : Transfer) (d : Entered) (l : Ledger)
    → (receipt x (transfer_events t) (d, l)).1.journals ≡ l.journals
receipt-journals x t d l = elim (Bool-cases d.replayed) [ inl old ↦ rw old | inr fresh ↦ rw fresh ]

if_pair {ℓ} :
    {Y : Type ℓ} (b : Bool) (c : Code) (r : Result Y) {y : Y}
    → r ≡ ok y
    → fail_if b c >> r ≡ (if b then err c else ok y)
if_pair true c r h = refl
if_pair false c r h = h

repeated :
    (l : Ledger) (t : Transfer) (x : ℤ) (from to : WalletView) (d : Entered)
    → parse_micro_e t.amount ≡ ok x
    → fail_if (leb_ℤ x (pos 0) || t.from_entity_id == t.to_entity_id) invalid_transfer ≡ ok tt
    → fail_if (not (t.actor_entity_id == t.from_entity_id)) forbidden ≡ ok tt
    → lock_wallet l t.from_entity_id ≡ ok from
    → lock_wallet l t.to_entity_id ≡ ok to
    → create_balanced_journal l
        ("transfer:" <> t.business_key)
        transfers
        (moved t.from_entity_id (entity_wallet t.to_entity_id) x)
      ≡ ok (record d { replayed = true }, l)
    → transfer l t ≡ (
        if ltb_ℤ from.available_micro_e x
        then err insufficient_energy
        else ok (record { journal_id = d.journal_id; amount = x; replayed = true }, l))
unfolding transfer
repeated l t x from to d parsed valid owner f g again =
    rw (parsed, valid, owner, f, g, again)
      (if_pair (ltb_ℤ from.available_micro_e x) insufficient_energy _ refl)

-- A transfer that returned, called again with the same arguments, finds its journal and changes
-- nothing, provided that what it moved is still free in the wallet that paid; once it is not, the
-- repetition is refused as INSUFFICIENT_ENERGY, although the transfer has taken place.
pub transfer_again :
    (l : Ledger) (t : Transfer) (q : Receipt) (l' : Ledger) (from to : WalletView)
    → transfer l t ≡ ok (q, l')
    → lock_wallet l' t.from_entity_id ≡ ok from
    → lock_wallet l' t.to_entity_id ≡ ok to
    → transfer l' t ≡ (
        if ltb_ℤ from.available_micro_e q.amount
        then err insufficient_energy
        else ok (record q { replayed = true }, l'))
unfolding transfer
transfer_again l t q l' from to e f g =
    let (x, parsed, e1) = >>=-eq-ok (parse_micro_e t.amount) _ e in
    let (_, valid, e2) =
      >>=-eq-ok (fail_if (leb_ℤ x (pos 0) || t.from_entity_id == t.to_entity_id) invalid_transfer) _
        e1 in
    let (_, owner, e3) =
      >>=-eq-ok (fail_if (not (t.actor_entity_id == t.from_entity_id)) forbidden) _ e2 in
    let (v, _, e4) = >>=-eq-ok (lock_wallet l t.from_entity_id) _ e3 in
    let (_, _, e5) = >>=-eq-ok (lock_wallet l t.to_entity_id) _ e4 in
    let e6 = guarded (ltb_ℤ v.available_micro_e x) insufficient_energy _ e5 in
    let ((d, l1), made, e7) =
      >>=-eq-ok
        (create_balanced_journal l ("transfer:" <> t.business_key) transfers
          (moved t.from_entity_id (entity_wallet t.to_entity_id) x))
        _ e6 in
    let done = ok_inj e7 in
    let again =
      create_again l l' ("transfer:" <> t.business_key) transfers
        (moved t.from_entity_id (entity_wallet t.to_entity_id) x) d l1 made
        (ap (λ u. u.1.journals) (sym done) ∙ receipt-journals x t d l1) in
    subst
      (λ (u : Receipt × Ledger). transfer l' t ≡ (
        if ltb_ℤ from.available_micro_e u.0.amount
        then err insufficient_energy
        else ok (record u.0 { replayed = true }, l')))
      done (repeated l' t x from to d parsed valid owner f g again)

fee_first :
    (e date : String) (f : ActivityFee) (fs : List ActivityFee)
    → f.activity_subject ≡ e
    → f.billing_date ≡ date
    → find_fee e date (f ∷ fs) ≡ some f
unfolding find_fee
fee_first e date f fs p q = rw (p, q, eq_refl e, eq_refl date)

-- A row of fees for the day, and what a call returned of it.
FeeRow : Ledger → Charge → FeeCharged → Type 0
FeeRow l c d =
    (f : ActivityFee) × (find_fee c.entity_id c.billing_date l.activity_fees ≡ some f)
    × (f.journal_id ≡ d.journal_id)
    × (f.amount ≡ d.amount)

fee_found-FeeRow :
    (l : Ledger) (c : Charge) (a : ℤ) (o : Option ActivityFee) (d : FeeCharged) (l' : Ledger)
    → find_fee c.entity_id c.billing_date l.activity_fees ≡ o
    → fee_found l c a o ≡ ok (d, l')
    → FeeRow l' c d
unfolding fee_found FeeRow
fee_found-FeeRow l c a (some f) d l' s e =
    subst (λ u. FeeRow u.1 c u.0) (ok_inj e) (f, s, refl, refl)
fee_found-FeeRow l c a none d l' s e =
    let e1 =
      guarded (leb_ℤ (a -ℤ daily_activity_fee_micro_e) (pos 0)) Code.daily_fee_unfunded _ e in
    let ((j, l1), made, e2) =
      >>=-eq-ok
        (create_balanced_journal l ("daily-fee:" <> c.entity_id <> ":" <> c.billing_date)
          charges_daily_fee
          (moved c.entity_id (system "CONSUMPTION_REDEMPTION") daily_activity_fee_micro_e))
        _ e1 in
    subst (λ u. FeeRow u.1 c u.0) (ok_inj e2)
      (_, fee_first c.entity_id c.billing_date _ l1.activity_fees refl refl, refl, refl)

fee_of_row :
    (l : Ledger) (c : Charge) (a : ℤ) (d : FeeCharged)
    → FeeRow l c d
    → fee_found l c a (find_fee c.entity_id c.billing_date l.activity_fees)
      ≡ ok (record d { replayed = true }, l)
unfolding fee_found FeeRow
fee_of_row l c a d (f, s, id, amount) = rw (s, id, amount)

-- The daily fee is charged once: after a charge that returned, another one for the same subject and
-- day, in the ledger it left, returns the same journal and amount as replayed and changes nothing,
-- however little is left in the wallet.
pub charge_fee_again :
    (l : Ledger) (c : Charge) (d : FeeCharged) (l' : Ledger) (v : WalletView)
    → charge_fee l c ≡ ok (d, l')
    → lock_wallet l' c.entity_id ≡ ok v
    → charge_fee l' c ≡ ok (record d { replayed = true }, l')
unfolding charge_fee
charge_fee_again l c d l' v e f =
    let (w, _, e1) = >>=-eq-ok (lock_wallet l c.entity_id) _ e in
    rw f (
      fee_of_row l' c v.available_micro_e d
        (fee_found-FeeRow l c w.available_micro_e _ d l' refl e1))
