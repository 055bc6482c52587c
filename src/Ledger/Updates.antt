-- ===== src/Ledger/Updates.antt =====
-- What an update that closes a reservation does to the sums of the active ones.
use new_humans.Prelude.{
  ℕ, String, Bool, true, false, List, [], ◌∷◌, Option, some, ◌==◌, ◌&&◌, eqb, ◌≡◌, ◌∙◌, ap, inl,
  inr, arith, if◌then◌else◌, some_inj, Bool-cases,
}
use new_humans.Prelude.Int.{ℤ, pos, ◌+ℤ◌, ◌≤ℤ◌, ◌<ℤ◌, int_laws}
use new_humans.Ledger.Rows.{Reservation, is_active, reserved, find_reservation}
use new_humans.Ledger.Books.{AllPositive}
use new_humans.Ledger.Reservations.{update_reservation}

kept_less : (b : Bool) (x s t : ℤ) → s ≤ℤ t → (if b then x +ℤ s else s) ≤ℤ (if b then x +ℤ t else t)
kept_less true x s t q = omega int_laws
kept_less false x s t q = q

more : (b : Bool) (x s t : ℤ) → pos 0 <ℤ x → s ≤ℤ t → s ≤ℤ (if b then x +ℤ t else t)
more true x s t p q = omega int_laws
more false x s t p q = q

kept_less_by :
    (b : Bool) (x s t y : ℤ)
    → s +ℤ y ≤ℤ t
    → (if b then x +ℤ s else s) +ℤ y ≤ℤ (if b then x +ℤ t else t)
kept_less_by true x s t y q = omega int_laws
kept_less_by false x s t y q = q

missed {ℓ} :
    {A : Type ℓ} (x : A) (b : Bool) {o q : Option A}
    → (if b && false then some x else o) ≡ q
    → o ≡ q
missed x true h = h
missed x false h = h

more_by : (b : Bool) (x s t y : ℤ) → pos 0 <ℤ x → s +ℤ y ≤ℤ t → s +ℤ y ≤ℤ (if b then x +ℤ t else t)
more_by b x s t y p q = more b x (s +ℤ y) t p q

gives_back : (x s t : ℤ) → s ≤ℤ t → s +ℤ x ≤ℤ x +ℤ t
gives_back x s t q = omega int_laws

holds_more :
    (b : Bool) (x rest : ℤ) → pos 0 <ℤ x → pos 0 ≤ℤ rest → pos 0 ≤ℤ (if b then x +ℤ rest else rest)
holds_more true x rest p q = omega int_laws
holds_more false x rest p q = q

pub reserved_nonneg : (e : String) (rs : List Reservation) → AllPositive rs → pos 0 ≤ℤ reserved e rs
unfolding reserved
reserved_nonneg e [] h = omega arith
reserved_nonneg e (r ∷ rs) (p, h) =
    holds_more ((r.entity_id == e) && is_active r.status) r.amount (reserved e rs) p
      (reserved_nonneg e rs h)

-- An update that closes a reservation and leaves its amount.
module _ (f : Reservation → Reservation)
    (closes : (r : Reservation) → is_active (f r).status ≡ false)
    (keeps : (r : Reservation) → (f r).amount ≡ r.amount) where
  pub updated-AllPositive :
      (id : ℕ) (rs : List Reservation) → AllPositive rs → AllPositive (update_reservation id f rs)
  unfolding update_reservation
  updated-AllPositive id [] h = h
  updated-AllPositive id (r ∷ rs) (p, h) = elim (Bool-cases (eqb r.reservation_id id)) [
    | inl hit ↦ rw hit (rw (keeps r) p, updated-AllPositive id rs h)
    | inr miss ↦ rw miss (p, updated-AllPositive id rs h)
  ]

  closed_eq :
      (e : String) (r : Reservation) (s : ℤ)
      → (if ((f r).entity_id == e) && is_active (f r).status then (f r).amount +ℤ s else s) ≡ s
  closed_eq e r s = elim (Bool-cases ((f r).entity_id == e)) [
    | inl same ↦ rw (same, closes r)
    | inr other ↦ rw other
  ]

  pub updated_le :
      (e : String) (id : ℕ) (rs : List Reservation)
      → AllPositive rs
      → reserved e (update_reservation id f rs) ≤ℤ reserved e rs
  unfolding update_reservation reserved
  updated_le e id [] h = omega arith
  updated_le e id (r ∷ rs) (p, h) = elim (Bool-cases (eqb r.reservation_id id)) [
    | inl hit ↦
        rw (hit, closed_eq e r (reserved e (update_reservation id f rs)))
          (more ((r.entity_id == e) && is_active r.status) r.amount _ (reserved e rs) p
            (updated_le e id rs h))
    | inr miss ↦ rw miss (
        kept_less ((r.entity_id == e) && is_active r.status) r.amount
          (reserved e (update_reservation id f rs)) (reserved e rs) (updated_le e id rs h))
  ]

  -- The reservation that is closed gives its amount back.
  pub updated_by :
      (e : String) (id : ℕ) (rs : List Reservation) (r : Reservation)
      → AllPositive rs
      → find_reservation e id rs ≡ some r
      → is_active r.status ≡ true
      → reserved e (update_reservation id f rs) +ℤ r.amount ≤ℤ reserved e rs
  unfolding update_reservation reserved find_reservation
  updated_by e id [] r h g a = cc
  updated_by e id (q ∷ rs) r (p, h) g a = elim (Bool-cases (eqb q.reservation_id id)) [
    | inl hit ↦ elim (Bool-cases (q.entity_id == e)) [
      | inl own ↦
          let same : q ≡ r = some_inj (rw (own, hit) at g) in
          let on : is_active q.status ≡ true = ap (λ u. is_active u.status) same ∙ a in
          rw (hit, closed_eq e q (reserved e (update_reservation id f rs)), own, on, ← same)
            (gives_back q.amount _ (reserved e rs) (updated_le e id rs h))
      | inr other ↦
          rw (hit, closed_eq e q (reserved e (update_reservation id f rs)))
            (more_by ((q.entity_id == e) && is_active q.status) q.amount _ (reserved e rs) r.amount
              p (updated_by e id rs r h (rw other at g) a))
    ]
    | inr miss ↦ rw miss (
        kept_less_by ((q.entity_id == e) && is_active q.status) q.amount
          (reserved e (update_reservation id f rs)) (reserved e rs) r.amount
          (updated_by e id rs r h (missed q (q.entity_id == e) (rw miss at g)) a))
  ]
