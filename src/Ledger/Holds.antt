-- ===== src/Ledger/Holds.antt =====
-- The operations on reservations keep the books.
use new_humans.Prelude.{
  ℕ, String, Bool, true, false, not, [], ◌∷◌, Option, none, some, ok, fail_if, ◌==◌, ◌&&◌, ◌||◌,
  ◌≡◌, refl, sym, ◌∙◌, ap, subst, arith, if◌then◌else◌, >>=-eq-ok, guarded, fail_if-eq-ok, ok_inj,
  some_inj, eq_iff, invalid_amount, forbidden, insufficient_energy, idempotency_conflict, inl, inr,
  Bool-cases,
}
use new_humans.Prelude.Int.{ℤ, pos, ◌+ℤ◌, ◌≤ℤ◌, ◌<ℤ◌, leb_ℤ, ltb_ℤ, int_laws}
use new_humans.Energy.{parse_micro_e}
use new_humans.Ledger.Rows.{
  Wallet, active, settled, released, Status, Reservation, Ledger, is_active, reserved, available,
  lock_wallet, find_reservation, system,
}
use new_humans.Ledger.Entries.{wallet_total}
use new_humans.Ledger.Books.{Sound, Covers, Replaces, replaced-Sound}
use new_humans.Ledger.Transfers.{moved}
use new_humans.Ledger.Updates.{reserved_nonneg, updated-AllPositive, updated_le, updated_by}
use new_humans.Ledger.Moves.{
  beside-Sound, lock-Seen, moved-Covers, own-Covers, logged-Sound, enough_for,
}
use new_humans.Ledger.Reservations.{
  Reserve, Reserved, reserve_found, new_reservation, reserve, update_reservation, release, Release,
  Released, release_row, release_found, release_reservation, Settle, settle, differs,
}

zero_between : (s t : ℤ) → pos 0 ≤ℤ s → s ≤ℤ t → t ≡ pos 0 → s ≡ pos 0
zero_between s t p q e = omega (int_laws, subst (λ u. s ≤ℤ u) e q)

-- A closed reservation, in the place of the active one.
pub closing-Replaces :
    (l : Ledger) (f : Reservation → Reservation)
    → ((r : Reservation) → is_active (f r).status ≡ false)
    → ((r : Reservation) → (f r).amount ≡ r.amount)
    → (id : ℕ) → Sound l
    → Replaces l (update_reservation id f l.reservations)
unfolding wallet_total
closing-Replaces l f closes keeps id h =
    let positive = updated-AllPositive f closes keeps id l.reservations h.positive in
    let less = λ (e : String). updated_le f closes keeps e id l.reservations h.positive in
    record {
      positive = positive;
      unused = λ e g. (zero_between _ _ (reserved_nonneg e _ positive) (less e) (h.unused e g).1);
      covers = λ e w g. omega (int_laws, less e, (h.agrees e w g).covered);
    }

released_row-Sound :
    (l : Ledger) (q : Release) (s : Status) (d : Released) (l' : Ledger)
    → release_row l q s ≡ ok (d, l')
    → Sound l
    → Sound l'
unfolding release_row
released_row-Sound l q released d l' e h = subst (λ u. Sound u.1) (ok_inj e) h
released_row-Sound l q settled d l' e h = cc
released_row-Sound l q active d l' e h =
    subst (λ u. Sound u.1) (ok_inj e)
      (logged-Sound _ _ (
        replaced-Sound l _ (closing-Replaces l release (λ r. refl) (λ r. refl) q.reservation_id h)
          h))

released_found-Sound :
    (l : Ledger) (q : Release) (o : Option Reservation) (d : Released) (l' : Ledger)
    → release_found l q o ≡ ok (d, l')
    → Sound l
    → Sound l'
unfolding release_found
released_found-Sound l q none d l' e h = cc
released_found-Sound l q (some r) d l' e h = released_row-Sound l q r.status d l' e h

pub release-Sound :
    (l : Ledger) (q : Release) (d : Released) (l' : Ledger)
    → release_reservation l q ≡ ok (d, l')
    → Sound l
    → Sound l'
unfolding release_reservation
release-Sound l q d l' e h =
    let e1 = guarded (not (q.actor_entity_id == q.entity_id)) forbidden _ e in
    let (_, _, e2) = >>=-eq-ok (lock_wallet l q.entity_id) _ e1 in
    released_found-Sound l q _ d l' e2 h

and_true : (b : Bool) → (b && true) ≡ true → b ≡ true
and_true true h = refl
and_true false h = h

some_ne_none {ℓ κ} : {A : Type ℓ} {P : Type κ} {a : A} → some a ≡ none → P
some_ne_none h = cc

held_after :
    (b : Bool) (w : Wallet) (x held : ℤ)
    → pos 0 ≤ℤ available w held +ℤ pos 0
    → (b ≡ true → x ≤ℤ available w held)
    → pos 0 ≤ℤ available w (if b then x +ℤ held else held) +ℤ pos 0
held_after true w x held p q = omega (int_laws, q refl)
held_after false w x held p q = p

-- What is free in a wallet covers a new reservation on it.
held-Covers :
    (l : Ledger) (r : Reservation) (v : Wallet)
    → l.wallets r.entity_id ≡ some v
    → r.status ≡ active
    → r.amount ≤ℤ available v (reserved r.entity_id l.reservations)
    → Sound l
    → Covers l (r ∷ l.reservations) []
unfolding wallet_total reserved
held-Covers l r v f on q h e w g = rw on (
    held_after ((r.entity_id == e) && true) w r.amount (reserved e l.reservations)
      (own-Covers l h e w g)
      λ same.
        (let k = (eq_iff r.entity_id e).0 (and_true (r.entity_id == e) same) in
          let same_row : v ≡ w = some_inj (sym f ∙ ap l.wallets k ∙ g) in
          subst (λ u. r.amount ≤ℤ u)
            (ap (λ u. available u (reserved r.entity_id l.reservations)) same_row
              ∙ ap (λ u. available w (reserved u l.reservations)) k)
            q))

held_none :
    (l : Ledger) (r : Reservation) (v : Wallet)
    → l.wallets r.entity_id ≡ some v
    → (e : String) → l.wallets e ≡ none
    → reserved e l.reservations ≡ pos 0
    → reserved e (r ∷ l.reservations) ≡ pos 0
unfolding reserved
held_none l r v f e g z = elim (Bool-cases (r.entity_id == e)) [
  | inl same ↦ some_ne_none (sym f ∙ ap l.wallets ((eq_iff r.entity_id e).0 same) ∙ g)
  | inr other ↦ rw other z
]

reserved_found-Sound :
    (l : Ledger) (q : Reserve) (x : ℤ) (o : Option Reservation) (d : Reserved) (l' : Ledger)
    → reserve_found l q x o ≡ ok (d, l')
    → (v : Wallet) → l.wallets q.entity_id ≡ some v
    → pos 0 <ℤ x
    → x ≤ℤ available v (reserved q.entity_id l.reservations)
    → Sound l
    → Sound l'
unfolding reserve_found new_reservation
reserved_found-Sound l q x none d l' e v f p c h =
    subst (λ u. Sound u.1) (ok_inj e)
      (beside-Sound _ l.activity_fees l.first_activated _ _ (
        replaced-Sound l _
          record {
            positive = (p, h.positive);
            unused = λ e g. held_none l _ v f e g (h.unused e g).1;
            covers = held-Covers l _ v f refl c h;
          }
          h))
reserved_found-Sound l q x (some r) d l' e v f p c h =
    let e1 = guarded (differs r.amount x || not (is_active r.status)) idempotency_conflict _ e in
    subst (λ u. Sound u.1) (ok_inj e1) h

pub positive_of_guard : (x : ℤ) → leb_ℤ x (pos 0) ≡ false → pos 0 <ℤ x
positive_of_guard x h = ground arith

pub reserve-Sound :
    (l : Ledger) (q : Reserve) (d : Reserved) (l' : Ledger)
    → reserve l q ≡ ok (d, l')
    → Sound l
    → Sound l'
unfolding reserve
reserve-Sound l q d l' e h =
    let (x, _, e1) = >>=-eq-ok (parse_micro_e q.amount) _ e in
    let (_, positive, e2) = >>=-eq-ok (fail_if (leb_ℤ x (pos 0)) invalid_amount) _ e1 in
    let e3 = guarded (not (q.actor_entity_id == q.entity_id)) forbidden _ e2 in
    let (v, seen, e4) = >>=-eq-ok (lock_wallet l q.entity_id) _ e3 in
    let (_, enough, e5) =
      >>=-eq-ok (fail_if (ltb_ℤ v.available_micro_e x) insufficient_energy) _ e4 in
    let s = lock-Seen l q.entity_id v seen in
    reserved_found-Sound l q x _ d l' e5 v.wallet s.row
      (positive_of_guard x (fail_if-eq-ok _ _ positive))
      (subst (λ u. x ≤ℤ u) s.free (enough_for v.available_micro_e x (fail_if-eq-ok _ _ enough))) h

enough_after :
    (w : Wallet) (x y held left : ℤ)
    → x ≤ℤ y
    → left +ℤ y ≤ℤ held
    → pos 0 ≤ℤ available w held
    → x ≤ℤ available w left
enough_after w x y held left p q r = omega int_laws

-- A settlement pays from what its reservation held.
pub settled-Covers :
    (l : Ledger) (q : Settle) (x : ℤ) (journal : Option ℕ) (r : Reservation) (v : Wallet)
    → l.wallets q.entity_id ≡ some v
    → find_reservation q.entity_id q.reservation_id l.reservations ≡ some r
    → is_active r.status ≡ true
    → pos 0 ≤ℤ x
    → x ≤ℤ r.amount
    → Sound l
    → Covers l
        (update_reservation q.reservation_id (settle x journal) l.reservations)
        (moved q.entity_id (system "CONSUMPTION_REDEMPTION") x)
settled-Covers l q x journal r v f g on p c h =
    moved-Covers l _ q.entity_id _ x v f p
      (enough_after v x r.amount (reserved q.entity_id l.reservations) _ c
        (updated_by (settle x journal) (λ r. refl) (λ r. refl) q.entity_id q.reservation_id
          l.reservations r h.positive g on)
        (h.agrees q.entity_id v f).covered)
      (closing-Replaces l (settle x journal) (λ r. refl) (λ r. refl) q.reservation_id h).covers
