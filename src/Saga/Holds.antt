-- ===== src/Saga/Holds.antt =====
-- The checks of `assertSagaInvariant`, one by one.
use new_humans.Prelude.{
  String, ◌≡◌, refl, Bool, true, false, not, ◌&&◌, Option, none, some, ok, fail_if, arith, eq_refl,
  >>=-eq-ok, fail_if-eq-ok, invalid_saga,
}
use new_humans.Platform.{Platform}
use new_humans.Js.{Value}
use new_humans.Saga.Types.{Saga}
use new_humans.Saga.Canonical.{canonical_json, same_json, same_text}
use new_humans.Saga.Guards.{
  is_settlement, has_key, has_succeeded, has_failed, needs_success, is_compensating, is_failed,
  is_compensated, is_completed, when, assert_primary, assert_compensation, assert_saga_invariant,
}

same_text_refl : (o : Option String) → same_text o o ≡ true
same_text_refl none = refl
same_text_refl (some s) = eq_refl s

pub same_json_refl : (v : Value) → same_json v v ≡ true
unfolding same_json
same_json_refl v = same_text_refl (canonical_json v)

pub record Holds (p : Platform) (s : Saga) : Type 0 where
  pub primary : assert_primary p s ≡ ok tt
  pub success : needs_success s.state ≡ true → has_succeeded s.primary_result ≡ true
  pub failure : is_failed s.state ≡ true → has_failed s.primary_result ≡ true
  pub compensation : when (is_compensating s.state) (assert_compensation p s) ≡ ok tt
  pub refunded : is_compensated s.state ≡ true → has_succeeded s.compensation_result ≡ true
  pub forward :
      is_completed s.state ≡ true
      → is_settlement s.kind ≡ true
      → has_key s.compensation_operation_key ≡ false

implied : (a b : Bool) → (a && not b) ≡ false → a ≡ true → b ≡ true
implied true b h e = ground arith
implied false b h e = cc

forward_of : (a b c : Bool) → (a && b && c) ≡ false → a ≡ true → b ≡ true → c ≡ false
forward_of true true c h _ _ = h
forward_of true false c h _ e = cc
forward_of false b c h e _ = cc

pub Holds-of_invariant : (p : Platform) (s : Saga) → assert_saga_invariant p s ≡ ok tt → Holds p s
unfolding assert_saga_invariant
Holds-of_invariant p s h =
    let (u, primary, h1) = >>=-eq-ok (assert_primary p s) _ h in
    let (_, success, h2) =
      >>=-eq-ok
        (fail_if (needs_success s.state && not (has_succeeded s.primary_result)) invalid_saga) _
        h1 in
    let (_, failure, h3) =
      >>=-eq-ok (fail_if (is_failed s.state && not (has_failed s.primary_result)) invalid_saga) _
        h2 in
    let (v, compensation, h4) =
      >>=-eq-ok (when (is_compensating s.state) (assert_compensation p s)) _ h3 in
    let (_, refunded, h5) =
      >>=-eq-ok
        (fail_if (is_compensated s.state && not (has_succeeded s.compensation_result)) invalid_saga)
        _ h4 in
    record {
      primary = primary;
      success = implied _ _ (fail_if-eq-ok _ _ success);
      failure = implied _ _ (fail_if-eq-ok _ _ failure);
      compensation = compensation;
      refunded = implied _ _ (fail_if-eq-ok _ _ refunded);
      forward = forward_of _ _ _ (fail_if-eq-ok _ _ h5);
    }

pub invariant_of_Holds : (p : Platform) (s : Saga) → Holds p s → assert_saga_invariant p s ≡ ok tt
unfolding assert_saga_invariant
invariant_of_Holds p s h =
    rw (h.primary, h.compensation) (ground (arith, h.success, h.failure, h.refunded, h.forward))
