-- ===== src/Ledger/Settlements.antt =====
-- Settling a reservation keeps the books.
use new_humans.Prelude.{
  ℕ, true, false, not, Option, none, some, ok, fail_if, ◌>>◌, ◌==◌, ◌≡◌, refl, sym, ap, subst,
  arith, inl, inr, >>=-eq-ok, guarded, fail_if-eq-ok, ok_inj, invalid_amount, forbidden,
  reservation_exceeded, Bool-cases,
}
use new_humans.Prelude.Int.{ℤ, pos, ◌≤ℤ◌, ltb_ℤ}
use new_humans.Js.Json.{◌<>◌}
use new_humans.Energy.{parse_micro_e}
use new_humans.Ledger.Rows.{
  Wallet, Status, active, settled, released, Reservation, Ledger, is_active, lock_wallet,
  find_reservation, system, charges_resource,
}
use new_humans.Ledger.Journals.{create_balanced_journal}
use new_humans.Ledger.Entries.{create-Entry, Entry-reservations}
use new_humans.Ledger.Books.{Sound, replaced-Sound, Entry-replaced-Sound}
use new_humans.Ledger.Transfers.{moved}
use new_humans.Ledger.Moves.{lock-Seen, moved-sum, logged-Sound}
use new_humans.Ledger.Holds.{closing-Replaces, settled-Covers}
use new_humans.Ledger.Reservations.{
  Settle, Settlement, charge, settle, settle_row, settle_found, settle_reservation,
  update_reservation, assert_settled_as,
}

-- What a charge makes, with the reservation closed: an entry, or nothing at 0.
charged-Sound :
    (l : Ledger) (q : Settle) (x : ℤ) (r : Reservation) (v : Wallet)
    → (c : Option ℕ × Ledger) → charge l q x ≡ ok c
    → l.wallets q.entity_id ≡ some v
    → find_reservation q.entity_id q.reservation_id l.reservations ≡ some r
    → is_active r.status ≡ true
    → pos 0 ≤ℤ x
    → x ≤ℤ r.amount
    → Sound l
    → (c.1.reservations ≡ l.reservations)
      × Sound record c.1 {
        reservations = update_reservation q.reservation_id (settle x c.0) l.reservations;
      }
charged-Sound l q x r v c e f g on p less h = elim (Bool-cases (ltb_ℤ (pos 0) x)) [
  | inl costs ↦
      let ((d, l1), made, e1) =
        >>=-eq-ok
          (create_balanced_journal l ("resource-charge:" <> q.business_key) charges_resource
            (moved q.entity_id (system "CONSUMPTION_REDEMPTION") x))
          _ (rw costs at e) in
      let entry = create-Entry l _ charges_resource _ d l1 made in
      subst
        (λ u.
          (u.1.reservations ≡ l.reservations)
          × Sound record u.1 {
            reservations = update_reservation q.reservation_id (settle x u.0) l.reservations;
          })
        (ok_inj e1)
        (
          Entry-reservations entry,
          Entry-replaced-Sound _ entry (moved-sum _ _ x)
              (settled-Covers l q x _ r v f g on p less h)
              (closing-Replaces l (settle x _) (λ r. refl) (λ r. refl) q.reservation_id h) h,
        )
  | inr free ↦
      subst
        (λ u.
          (u.1.reservations ≡ l.reservations)
          × Sound record u.1 {
            reservations = update_reservation q.reservation_id (settle x u.0) l.reservations;
          })
        (ok_inj (rw free at e))
        (
          refl,
          replaced-Sound l _
              (closing-Replaces l (settle x none) (λ r. refl) (λ r. refl) q.reservation_id h) h,
        )
]

not_less : (a b : ℤ) → ltb_ℤ a b ≡ false → b ≤ℤ a
not_less a b h = ground arith

settled_row-Sound :
    (l : Ledger) (q : Settle) (x : ℤ) (r : Reservation) (s : Status) (v : Wallet)
    → (d : Settlement) (l' : Ledger) → settle_row l q x r s ≡ ok (d, l')
    → r.status ≡ s
    → l.wallets q.entity_id ≡ some v
    → find_reservation q.entity_id q.reservation_id l.reservations ≡ some r
    → pos 0 ≤ℤ x
    → Sound l
    → Sound l'
unfolding settle_row
settled_row-Sound l q x r settled v d l' e s f g p h =
    let (_, _, e1) = >>=-eq-ok (assert_settled_as r.settled_amount x) _ e in
    subst (λ u. Sound u.1) (ok_inj e1) h
settled_row-Sound l q x r released v d l' e s f g p h = cc
settled_row-Sound l q x r active v d l' e s f g p h =
    let (c, made, e1) =
      >>=-eq-ok (fail_if (ltb_ℤ r.amount x) reservation_exceeded >> charge l q x) _ e in
    let (_, covered, made1) = >>=-eq-ok (fail_if (ltb_ℤ r.amount x) reservation_exceeded) _ made in
    let (same, sound) =
      charged-Sound l q x r v c made1 f g (ap is_active s) p
        (not_less r.amount x (fail_if-eq-ok _ _ covered)) h in
    subst (λ u. Sound u.1) (ok_inj e1)
      (logged-Sound _ _ (
        subst
          (λ u.
            Sound
              record c.1 { reservations = update_reservation q.reservation_id (settle x c.0) u })
          (sym same) sound))

settled_found-Sound :
    (l : Ledger) (q : Settle) (x : ℤ) (o : Option Reservation) (v : Wallet)
    → (d : Settlement) (l' : Ledger) → settle_found l q x o ≡ ok (d, l')
    → find_reservation q.entity_id q.reservation_id l.reservations ≡ o
    → l.wallets q.entity_id ≡ some v
    → pos 0 ≤ℤ x
    → Sound l
    → Sound l'
unfolding settle_found
settled_found-Sound l q x none v d l' e g f p h = cc
settled_found-Sound l q x (some r) v d l' e g f p h =
    settled_row-Sound l q x r r.status v d l' e refl f g p h

pub settle-Sound :
    (l : Ledger) (q : Settle) (d : Settlement) (l' : Ledger)
    → settle_reservation l q ≡ ok (d, l')
    → Sound l
    → Sound l'
unfolding settle_reservation
settle-Sound l q d l' e h =
    let e1 = guarded (not (q.actor_entity_id == q.entity_id)) forbidden _ e in
    let (x, _, e2) = >>=-eq-ok (parse_micro_e q.actual_amount) _ e1 in
    let (_, nonneg, e3) = >>=-eq-ok (fail_if (ltb_ℤ x (pos 0)) invalid_amount) _ e2 in
    let (v, seen, e4) = >>=-eq-ok (lock_wallet l q.entity_id) _ e3 in
    settled_found-Sound l q x _ v.wallet d l' e4 refl (lock-Seen l q.entity_id v seen).row
      (not_less x (pos 0) (fail_if-eq-ok _ _ nonneg)) h
