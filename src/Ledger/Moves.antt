-- ===== src/Ledger/Moves.antt =====
-- Minting and transfers keep the books.
use new_humans.Prelude.{
  ℕ, String, Bool, true, false, not, List, [], Option, none, some, ok, fail_if, ◌==◌, ◌||◌, ◌≡◌,
  refl, sym, ◌∙◌, ap, subst, inl, inr, arith, if◌then◌else◌, >>=-eq-ok, guarded, fail_if-eq-ok,
  ok_inj, some_inj, Bool-cases, eq_iff, invalid_amount, invalid_transfer, forbidden,
  insufficient_energy,
}
use new_humans.Prelude.Int.{ℤ, pos, ◌+ℤ◌, ◌≤ℤ◌, leb_ℤ, ltb_ℤ, int_laws}
use new_humans.Js.Json.{◌<>◌}
use new_humans.Energy.{parse_micro_e}
use new_humans.Core.Events.{Event}
use new_humans.Ledger.Rows.{
  ActivityFee, Wallet, Account, entity_wallet, mints, transfers, Reservation, Ledger, WalletView,
  reserved, available, view_of, lock_wallet,
}
use new_humans.Ledger.Journals.{Entered, create_balanced_journal}
use new_humans.Ledger.Entries.{is_wallet, wallet_total, sum, create-Entry}
use new_humans.Ledger.Books.{Sound, Covers, Entry-Sound}
use new_humans.Ledger.Transfers.{
  minus, moved, mint_postings, Mint, Transfer, Receipt, receipt, transfer_events, wallet_event,
  has_type, mint, transfer,
}

-- The row behind a view.
pub record Seen (l : Ledger) (e : String) (v : WalletView) : Type 0 where
  pub row : l.wallets e ≡ some v.wallet
  pub free : v.available_micro_e ≡ available v.wallet (reserved e l.reservations)

view-Seen :
    (l : Ledger) (e : String) (v : WalletView) (o : Option Wallet)
    → l.wallets e ≡ o
    → view_of l.reservations e o ≡ ok v
    → Seen l e v
unfolding view_of
view-Seen l e v none f h = cc
view-Seen l e v (some w) f h = subst (λ u. Seen l e u) (ok_inj h) record { row = f; free = refl }

pub lock-Seen : (l : Ledger) (e : String) (v : WalletView) → lock_wallet l e ≡ ok v → Seen l e v
unfolding lock_wallet
lock-Seen l e v h = view-Seen l e v (l.wallets e) refl h

pub moved-sum : (from : String) (to : Account) (x : ℤ) → sum (moved from to x) ≡ pos 0
unfolding sum
moved-sum from to x = omega int_laws

moved_less :
    (e from : String) (to : Account) (x held : ℤ) (b c : Bool)
    → pos 0 ≤ℤ x
    → pos 0 ≤ℤ held
    → (b ≡ true → x ≤ℤ held)
    → pos 0
      ≤ℤ held
        +ℤ (if b
            then minus x +ℤ (if c then x +ℤ pos 0 else pos 0)
            else if c
            then x +ℤ pos 0
            else pos 0)
moved_less e from to x held true true p q r = omega int_laws
moved_less e from to x held true false p q r = omega (int_laws, r refl)
moved_less e from to x held false true p q r = omega int_laws
moved_less e from to x held false false p q r = omega int_laws

-- What is free in the wallet pays a move out of it.
pub moved-Covers :
    (l : Ledger) (rs : List Reservation) (from : String) (to : Account) (x : ℤ) (v : Wallet)
    → l.wallets from ≡ some v
    → pos 0 ≤ℤ x
    → x ≤ℤ available v (reserved from rs)
    → Covers l rs []
    → Covers l rs (moved from to x)
unfolding wallet_total
moved-Covers l rs from to x v f p q c e w g =
    moved_less e from to x (available w (reserved e rs)) (e == from) (is_wallet e to) p
      (omega (int_laws, c e w g))
      λ same.
        (let k = (eq_iff e from).0 same in
          subst (λ u. x ≤ℤ u)
            (ap (λ u. available u (reserved from rs)) (some_inj (sym f ∙ sym (ap l.wallets k) ∙ g))
              ∙ ap (λ u. available w (reserved u rs)) (sym k))
            q)

pub own-Covers : (l : Ledger) → Sound l → Covers l l.reservations []
unfolding wallet_total
own-Covers l h e w g = omega (int_laws, (h.agrees e w g).covered)

minted_more :
    (held x : ℤ) (b : Bool)
    → pos 0 ≤ℤ x
    → pos 0 ≤ℤ held +ℤ pos 0
    → pos 0 ≤ℤ held +ℤ (if b then x +ℤ pos 0 else pos 0)
minted_more held x true p q = omega int_laws
minted_more held x false p q = q

mint-Covers :
    (l : Ledger) (target : String) (x : ℤ)
    → pos 0 ≤ℤ x
    → Sound l
    → Covers l l.reservations (mint_postings target x)
unfolding wallet_total
mint-Covers l target x p h e w g =
    minted_more (available w (reserved e l.reservations)) x (e == target) p (own-Covers l h e w g)

mint-sum : (target : String) (x : ℤ) → sum (mint_postings target x) ≡ pos 0
unfolding sum
mint-sum target x = omega int_laws

-- Rows beside the books: events, fees and the marks of activation.
pub beside-Sound :
    (l : Ledger) (fees : List ActivityFee) (act : String → Bool) (es : List Event) (n : ℕ)
    → Sound l
    → Sound (record l { activity_fees = fees; first_activated = act; events = es; next_id = n })
beside-Sound l fees act es n h = record {
  balanced = h.balanced;
  positive = h.positive;
  agrees = h.agrees;
  unused = h.unused;
}

pub logged-Sound : (l : Ledger) (es : List Event) → Sound l → Sound (record l { events = es })
logged-Sound l es h = beside-Sound l l.activity_fees l.first_activated es l.next_id h

receipt-Sound :
    (x : ℤ) (announce : Ledger → Ledger) (d : Entered) (l : Ledger)
    → Sound l
    → Sound (announce l)
    → Sound (receipt x announce (d, l)).1
receipt-Sound x announce d l h k = elim (Bool-cases d.replayed) [
  | inl old ↦ rw old h
  | inr fresh ↦ rw fresh k
]

le_of_guard : (x : ℤ) → leb_ℤ x (pos 0) ≡ false → pos 0 ≤ℤ x
le_of_guard x h = ground arith

positive_transfer : (x : ℤ) (b : Bool) → (leb_ℤ x (pos 0) || b) ≡ false → pos 0 ≤ℤ x
positive_transfer x b h = ground arith

pub enough_for : (a x : ℤ) → ltb_ℤ a x ≡ false → x ≤ℤ a
enough_for a x h = ground arith

pub mint-Sound :
    (l : Ledger) (m : Mint) (q : Receipt) (l' : Ledger) → mint l m ≡ ok (q, l') → Sound l → Sound l'
unfolding mint
mint-Sound l m q l' e h =
    let (x, _, e1) = >>=-eq-ok (parse_micro_e m.amount) _ e in
    let (_, positive, e2) = >>=-eq-ok (fail_if (leb_ℤ x (pos 0)) invalid_amount) _ e1 in
    let e3 = guarded (not (has_type "SYSTEM" (l.entities m.actor_entity_id))) forbidden _ e2 in
    let (_, _, e4) = >>=-eq-ok (lock_wallet l m.target_entity_id) _ e3 in
    let ((d, l1), made, e5) =
      >>=-eq-ok
        (create_balanced_journal l ("mint:" <> m.basis_key) mints
          (mint_postings m.target_entity_id x))
        _ e4 in
    let posted =
      Entry-Sound (create-Entry l _ mints (mint_postings m.target_entity_id x) d l1 made)
        (mint-sum m.target_entity_id x)
        (mint-Covers l m.target_entity_id x (le_of_guard x (fail_if-eq-ok _ _ positive)) h) h in
    subst (λ u. Sound u.1) (ok_inj e5)
      (receipt-Sound x (wallet_event m.target_entity_id "ENERGY_MINTED" m.actor_entity_id) d l1
        posted (logged-Sound l1 _ posted))

pub transfer-Sound :
    (l : Ledger) (t : Transfer) (q : Receipt) (l' : Ledger)
    → transfer l t ≡ ok (q, l')
    → Sound l
    → Sound l'
unfolding transfer
transfer-Sound l t q l' e h =
    let (x, _, e1) = >>=-eq-ok (parse_micro_e t.amount) _ e in
    let (_, valid, e2) =
      >>=-eq-ok (fail_if (leb_ℤ x (pos 0) || t.from_entity_id == t.to_entity_id) invalid_transfer) _
        e1 in
    let e3 = guarded (not (t.actor_entity_id == t.from_entity_id)) forbidden _ e2 in
    let (v, seen, e4) = >>=-eq-ok (lock_wallet l t.from_entity_id) _ e3 in
    let (_, _, e5) = >>=-eq-ok (lock_wallet l t.to_entity_id) _ e4 in
    let (_, enough, e6) =
      >>=-eq-ok (fail_if (ltb_ℤ v.available_micro_e x) insufficient_energy) _ e5 in
    let ((d, l1), made, e7) =
      >>=-eq-ok
        (create_balanced_journal l ("transfer:" <> t.business_key) transfers
          (moved t.from_entity_id (entity_wallet t.to_entity_id) x))
        _ e6 in
    let s = lock-Seen l t.from_entity_id v seen in
    let posted =
      Entry-Sound (create-Entry l _ transfers _ d l1 made) (moved-sum _ _ x)
        (moved-Covers l l.reservations t.from_entity_id (entity_wallet t.to_entity_id) x v.wallet
          s.row (positive_transfer x _ (fail_if-eq-ok _ _ valid))
          (subst (λ u. x ≤ℤ u) s.free (enough_for v.available_micro_e x (fail_if-eq-ok _ _ enough)))
          (own-Covers l h))
        h in
    subst (λ u. Sound u.1) (ok_inj e7)
      (receipt-Sound x (transfer_events t) d l1 posted (logged-Sound l1 _ posted))
