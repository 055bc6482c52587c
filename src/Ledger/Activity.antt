-- ===== src/Ledger/Activity.antt =====
-- Fees, activations and new entities keep the books.
use new_humans.Prelude.{
  String, Bool, true, false, not, Option, none, some, ok, fail_if, ◌==◌, includes, ◌≡◌, refl, sym,
  ◌∙◌, ap, subst, arith, if◌then◌else◌, >>=-eq-ok, guarded, fail_if-eq-ok, ok_inj, some_inj, Code,
  already_activated, not_activated, invalid_entity_type, unique_violation, eq_iff,
}
use new_humans.Prelude.Int.{ℤ, pos, ◌-ℤ◌, ◌≤ℤ◌, leb_ℤ, int_laws}
use new_humans.Js.Json.{◌<>◌}
use new_humans.Energy.{daily_activity_fee_micro_e, activation_decision}
use new_humans.Ledger.Rows.{
  Wallet, ActivityFee, Ledger, reserved, available, system, charges_daily_fee, lock_wallet,
  get_wallet,
}
use new_humans.Ledger.Journals.{create_balanced_journal}
use new_humans.Ledger.Entries.{create-Entry}
use new_humans.Ledger.Books.{Sound, Agrees, Entry-Sound}
use new_humans.Ledger.Transfers.{moved}
use new_humans.Ledger.Moves.{lock-Seen, moved-sum, moved-Covers, own-Covers, beside-Sound}
use new_humans.Ledger.Fees.{
  Charge, FeeCharged, Activity, fee_found, charge_fee, assert_activity_initiator, refusal,
  activity_after, mark_activated, first_activation, charge_daily_activity_fee,
}
use new_humans.Ledger.Entities.{NewEntity, entity_types, is_some, create_entity}

fee_left :
    (a : ℤ)
    → leb_ℤ (a -ℤ daily_activity_fee_micro_e) (pos 0) ≡ false
    → daily_activity_fee_micro_e ≤ℤ a
unfolding ◌-ℤ◌
fee_left a h = ground arith

fee_found-Sound :
    (l : Ledger) (c : Charge) (a : ℤ) (o : Option ActivityFee) (w : Wallet)
    → (d : FeeCharged) (l' : Ledger) → fee_found l c a o ≡ ok (d, l')
    → l.wallets c.entity_id ≡ some w
    → a ≡ available w (reserved c.entity_id l.reservations)
    → Sound l
    → Sound l'
unfolding fee_found
fee_found-Sound l c a (some f) w d l' e g s h = subst (λ u. Sound u.1) (ok_inj e) h
fee_found-Sound l c a none w d l' e g s h =
    let (_, left, e1) =
      >>=-eq-ok (fail_if (leb_ℤ (a -ℤ daily_activity_fee_micro_e) (pos 0)) Code.daily_fee_unfunded)
        _ e in
    let ((j, l1), made, e2) =
      >>=-eq-ok
        (create_balanced_journal l ("daily-fee:" <> c.entity_id <> ":" <> c.billing_date)
          charges_daily_fee
          (moved c.entity_id (system "CONSUMPTION_REDEMPTION") daily_activity_fee_micro_e))
        _ e1 in
    let posted =
      Entry-Sound (create-Entry l _ charges_daily_fee _ j l1 made)
        (moved-sum c.entity_id (system "CONSUMPTION_REDEMPTION") daily_activity_fee_micro_e)
        (moved-Covers l l.reservations c.entity_id _ daily_activity_fee_micro_e w g (omega arith)
          (subst (λ u. daily_activity_fee_micro_e ≤ℤ u) s (fee_left a (fail_if-eq-ok _ _ left)))
          (own-Covers l h))
        h in
    subst (λ u. Sound u.1) (ok_inj e2) (beside-Sound l1 _ l1.first_activated _ l1.next_id posted)

pub charge_fee-Sound :
    (l : Ledger) (c : Charge) (d : FeeCharged) (l' : Ledger)
    → charge_fee l c ≡ ok (d, l')
    → Sound l
    → Sound l'
unfolding charge_fee
charge_fee-Sound l c d l' e h =
    let (v, seen, e1) = >>=-eq-ok (lock_wallet l c.entity_id) _ e in
    let s = lock-Seen l c.entity_id v seen in
    fee_found-Sound l c v.available_micro_e _ v.wallet d l' e1 s.row s.free h

after-ledger :
    (fee : FeeCharged) (l : Ledger) (e : String) (d : Activity) (l' : Ledger)
    → activity_after fee l e ≡ ok (d, l')
    → l ≡ l'
unfolding activity_after
after-ledger fee l e d l' h =
    let (v, _, h1) = >>=-eq-ok (get_wallet l e) _ h in ap (λ u. u.1) (ok_inj h1)

pub first_activation-Sound :
    (l : Ledger) (c : Charge) (d : Activity) (l' : Ledger)
    → first_activation l c ≡ ok (d, l')
    → Sound l
    → Sound l'
unfolding first_activation
first_activation-Sound l c d l' e h =
    let (_, _, e1) = >>=-eq-ok (assert_activity_initiator l c.entity_id c.actor_entity_id) _ e in
    let e2 = guarded (l.first_activated c.entity_id) already_activated _ e1 in
    let (v, _, e3) = >>=-eq-ok (lock_wallet l c.entity_id) _ e2 in
    let (_, _, e4) = >>=-eq-ok (refusal (activation_decision v.available_micro_e)) _ e3 in
    let ((fee, l1), charged, e5) = >>=-eq-ok (charge_fee l c) _ e4 in
    subst (λ u. Sound u) (after-ledger fee (mark_activated c.entity_id l1) c.entity_id d l' e5)
      (beside-Sound l1 l1.activity_fees _ l1.events l1.next_id
        (charge_fee-Sound l c fee l1 charged h))

pub charge_daily-Sound :
    (l : Ledger) (c : Charge) (d : Activity) (l' : Ledger)
    → charge_daily_activity_fee l c ≡ ok (d, l')
    → Sound l
    → Sound l'
unfolding charge_daily_activity_fee
charge_daily-Sound l c d l' e h =
    let (_, _, e1) = >>=-eq-ok (assert_activity_initiator l c.entity_id c.actor_entity_id) _ e in
    let e2 = guarded (not (l.first_activated c.entity_id)) not_activated _ e1 in
    let ((fee, l1), charged, e3) = >>=-eq-ok (charge_fee l c) _ e2 in
    subst (λ u. Sound u) (after-ledger fee l1 c.entity_id d l' e3)
      (charge_fee-Sound l c fee l1 charged h)

no_wallet : (o : Option Wallet) → is_some o ≡ false → o ≡ none
no_wallet none h = refl
no_wallet (some w) h = cc

abbrev at_zero : Wallet
at_zero = record { posted_balance = pos 0; frozen = pos 0 }

opened :
    (l : Ledger) (e : String)
    → Sound l
    → l.wallets e ≡ none
    → (k : String) (w : Wallet) (b : Bool) → (k == e) ≡ b
    → (if b then some at_zero else l.wallets k) ≡ some w
    → Agrees l.journals l.reservations k w
opened l e h absent k w true same g =
    let unused = h.unused k (ap l.wallets ((eq_iff k e).0 same) ∙ absent) in
    subst (λ u. Agrees l.journals l.reservations k u) (some_inj g)
      record { balance = sym unused.0; unfrozen = refl; covered = rw unused.1 (omega int_laws) }
opened l e h absent k w false other g = h.agrees k w g

unopened :
    (l : Ledger) (e k : String) (b : Bool)
    → (if b then some at_zero else l.wallets k) ≡ none
    → l.wallets k ≡ none
unopened l e k true g = cc
unopened l e k false g = g

pub create_entity-Sound :
    (l : Ledger) (q : NewEntity) (l' : Ledger) → create_entity l q ≡ ok l' → Sound l → Sound l'
unfolding create_entity
create_entity-Sound l q l' e h =
    let e1 = guarded (not (includes entity_types q.entity_type)) invalid_entity_type _ e in
    let e2 = guarded (is_some (l.entities q.entity_id)) unique_violation _ e1 in
    let (_, free, e3) =
      >>=-eq-ok (fail_if (is_some (l.wallets q.entity_id)) unique_violation) _ e2 in
    let absent = no_wallet (l.wallets q.entity_id) (fail_if-eq-ok _ _ free) in
    subst (λ u. Sound u) (ok_inj e3)
      record {
        balanced = h.balanced;
        positive = h.positive;
        agrees = λ k w g. opened l q.entity_id h absent k w (k == q.entity_id) refl g;
        unused = λ k g. h.unused k (unopened l q.entity_id k (k == q.entity_id) g);
      }
