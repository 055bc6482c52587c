-- ===== src/Ledger/Undo.antt =====
-- A reservation that is made and released.
use new_humans.Prelude.{
  ℕ, String, Bool, true, false, not, List, [], ◌∷◌, Option, none, some, ok, ◌==◌, ◌||◌, eqb,
  eq_refl, ◌≡◌, refl, ◌∙◌, ap, subst, arith, >>=-eq-ok, guarded, fail_if-eq-ok, ok_inj,
  invalid_amount, forbidden, insufficient_energy, idempotency_conflict, inl, inr, Bool-cases,
  fail_if,
}
use new_humans.Prelude.Int.{ℤ, leb_ℤ, ltb_ℤ, pos}
use new_humans.Energy.{parse_micro_e}
use new_humans.Ledger.Rows.{
  Wallet, Reservation, Ledger, active, released, is_active, reserved, lock_wallet, view_of,
  find_reservation,
}
use new_humans.Ledger.Transfers.{wallet_event}
use new_humans.Ledger.Moves.{lock-Seen}
use new_humans.Ledger.Reservations.{
  Reserve, Reserved, reserve_found, new_reservation, reserve, update_reservation, release, Release,
  Released, release_row, release_found, release_reservation, differs,
}

-- No reservation in the list has the identifier.
abbrev pub Unissued : ℕ → List Reservation → Type 0
Unissued id [] = Unit {0}
Unissued id (r ∷ rs) = (eqb r.reservation_id id ≡ false) × Unissued id rs

eqb_refl : (n : ℕ) → eqb n n ≡ true
eqb_refl n = ground arith

Unissued-kept :
    (id : ℕ) (f : Reservation → Reservation) (rs : List Reservation)
    → Unissued id rs
    → update_reservation id f rs ≡ rs
unfolding update_reservation
Unissued-kept id f [] h = refl
Unissued-kept id f (r ∷ rs) (p, h) = rw (p, Unissued-kept id f rs h)

found_first :
    (e : String) (r : Reservation) (rs : List Reservation)
    → r.entity_id ≡ e
    → find_reservation e r.reservation_id (r ∷ rs) ≡ some r
unfolding find_reservation
found_first e r rs p = rw (p, eq_refl e, eqb_refl r.reservation_id)

released_first :
    (r : Reservation) (rs : List Reservation)
    → Unissued r.reservation_id rs
    → update_reservation r.reservation_id release (r ∷ rs) ≡ release r ∷ rs
unfolding update_reservation
released_first r rs h = rw (eqb_refl r.reservation_id, Unissued-kept r.reservation_id release rs h)

holds_nothing :
    (e : String) (r : Reservation) (rs : List Reservation)
    → reserved e (release r ∷ rs) ≡ reserved e rs
unfolding reserved
holds_nothing e r rs = elim (Bool-cases (r.entity_id == e)) [
  | inl same ↦ rw same
  | inr other ↦ rw other
]

view-eq :
    (e : String) (o : Option Wallet) (rs ts : List Reservation)
    → reserved e rs ≡ reserved e ts
    → view_of rs e o ≡ view_of ts e o
unfolding view_of
view-eq e none rs ts h = refl
view-eq e (some w) rs ts h = rw h refl

-- The release of what was reserved, by the same actor.
abbrev pub release_of : Reserve → Reserved → Release
release_of q d = record {
  entity_id = q.entity_id;
  reservation_id = d.reservation_id;
  actor_entity_id = q.actor_entity_id;
}

-- After the reservation its release succeeds, and every wallet reads as before the two.
pub record Undone (l : Ledger) (q : Reserve) (made : Reserved × Ledger) : Type 0 where
  pub result : Released × Ledger
  pub succeeds : release_reservation made.1 (release_of q made.0) ≡ ok result
  pub restored : (e : String) → lock_wallet result.1 e ≡ lock_wallet l e

allowed :
    (l : Ledger) (q : Release) (w : Wallet) (r : Reservation)
    → (q.actor_entity_id == q.entity_id) ≡ true
    → l.wallets q.entity_id ≡ some w
    → find_reservation q.entity_id q.reservation_id l.reservations ≡ some r
    → release_reservation l q ≡ release_row l q r.status
unfolding release_reservation release_found lock_wallet view_of
allowed l q w r own seen found = rw (own, seen, found) refl

reads_same :
    (r : Reservation) (rs : List Reservation)
    → Unissued r.reservation_id rs
    → (e : String) (o : Option Wallet)
    → view_of (update_reservation r.reservation_id release (r ∷ rs)) e o ≡ view_of rs e o
reads_same r rs h e o =
    ap (λ u. view_of u e o) (released_first r rs h)
    ∙ view-eq e o (release r ∷ rs) rs (holds_nothing e r rs)

-- The row that a new reservation adds.
abbrev held_row : Ledger → Reserve → ℤ → Reservation
held_row l q x = record {
  reservation_id = l.next_id;
  entity_id = q.entity_id;
  business_key = q.business_key;
  amount = x;
  status = active;
  settled_amount = none;
  settlement_journal = none;
}

new-Undone :
    (l : Ledger) (q : Reserve) (x : ℤ) (w : Wallet)
    → Unissued l.next_id l.reservations
    → (q.actor_entity_id == q.entity_id) ≡ true
    → l.wallets q.entity_id ≡ some w
    → Undone l q (new_reservation l q x)
unfolding new_reservation release_row lock_wallet
new-Undone l q x w fresh own seen =
    let made = new_reservation l q x in
    record {
      result = (
        record { reservation_id = l.next_id; status = released; replayed = false },
        wallet_event q.entity_id "ENERGY_RESERVATION_RELEASED" q.actor_entity_id record made.1 {
          reservations = update_reservation l.next_id release made.1.reservations;
        },
      );
      succeeds =
          allowed made.1 (release_of q made.0) w _ own seen
            (found_first q.entity_id (held_row l q x) l.reservations refl);
      restored = λ e. reads_same (held_row l q x) l.reservations fresh e (l.wallets e);
    }

own_actor : (b : Bool) → not b ≡ false → b ≡ true
own_actor true h = refl
own_actor false h = cc

found-Undone :
    (l : Ledger) (q : Reserve) (x : ℤ) (w : Wallet) (o : Option Reservation)
    (made : Reserved × Ledger)
    → reserve_found l q x o ≡ ok made
    → made.0.replayed ≡ false
    → Unissued l.next_id l.reservations
    → (q.actor_entity_id == q.entity_id) ≡ true
    → l.wallets q.entity_id ≡ some w
    → Undone l q made
unfolding reserve_found
found-Undone l q x w none made h new fresh own seen =
    subst (λ u. Undone l q u) (ok_inj h) (new-Undone l q x w fresh own seen)
found-Undone l q x w (some r) made h new fresh own seen =
    let e1 = guarded (differs r.amount x || not (is_active r.status)) idempotency_conflict _ h in
    let replay : true ≡ false = ap (λ u. u.0.replayed) (ok_inj e1) ∙ new in cc

-- A new reservation, whose identifier no row had before, can be released at once by who made it:
-- the release succeeds, and every entity's wallet then reads as before the reservation.
pub reserve-release :
    (l : Ledger) (q : Reserve) (made : Reserved × Ledger)
    → Unissued l.next_id l.reservations
    → reserve l q ≡ ok made
    → made.0.replayed ≡ false
    → Undone l q made
unfolding reserve
reserve-release l q made fresh h new =
    let (x, _, e1) = >>=-eq-ok (parse_micro_e q.amount) _ h in
    let e2 = guarded (leb_ℤ x (pos 0)) invalid_amount _ e1 in
    let (_, mine, e3) =
      >>=-eq-ok (fail_if (not (q.actor_entity_id == q.entity_id)) forbidden) _ e2 in
    let (v, seen, e4) = >>=-eq-ok (lock_wallet l q.entity_id) _ e3 in
    let e5 = guarded (ltb_ℤ v.available_micro_e x) insufficient_energy _ e4 in
    found-Undone l q x v.wallet _ made e5 new fresh (own_actor _ (fail_if-eq-ok _ _ mine))
      (lock-Seen l q.entity_id v seen).row
