-- ===== src/EconomyPort/Distribution.antt =====
-- An accepted distribution pays out the whole balance of the escrow.
use new_humans.Prelude.{
  ℕ, ◌+◌, String, true, not, ◌||◌, eqb, ok, fail_if, ◌>>=◌, ◌>>◌, >>=-eq-ok, ok_inj, ◌≡◌, subst, ap,
  arith, [], ◌∷◌, invalid_economy_port_request, eq_iff, economy_port_version_mismatch,
  invalid_economy_port_envelope, escrow_allocation_mismatch,
}
use new_humans.Platform.{Platform}
use new_humans.Js.{is_one_of, Value, string, Items, nil, cons, get, is_string, is_undefined}
use new_humans.EconomyPort.Request.{
  is_nil, economy_port_version, items_of, amount_of, allocation_total, assert_plain_object,
  assert_non_empty_string, assert_micro_e, assert_distribute, assert_action, assert_escrow,
  assert_request_payload, assert_economy_port_request, positive, non_negative, assert_version,
  walk_micro_e, required_micro_e, is_timestamp,
}

-- The sum of the amounts of the allocations.
unfoldable pub total_of : Items → ℕ
total_of nil = 0
total_of (cons v vs) = amount_of (get "amount_micro_e" v) + total_of vs

total_of_loop : (n : ℕ) (vs : Items) {t : ℕ} → allocation_total n vs ≡ ok t → t ≡ n + total_of vs
unfolding allocation_total total_of
total_of_loop n nil h = omega (arith, ok_inj h)
total_of_loop n (cons v vs) {t} h =
    let (_, _, h1) = >>=-eq-ok (assert_plain_object v) _ h in
    let (_, _, h2) = >>=-eq-ok (assert_non_empty_string (get "principal_ref" v)) _ h1 in
    let (_, _, h3) = >>=-eq-ok (assert_micro_e non_negative (get "amount_micro_e" v)) _ h2 in
    omega (arith, total_of_loop (n + amount_of (get "amount_micro_e" v)) vs h3)

-- The allocations, the amount and the expected balance agree.
pub record PaysAll (payload : Value) : Type 0 where
  pub total :
      total_of (items_of (get "allocations" payload))
      ≡ amount_of (get "expected_balance_micro_e" payload)
  pub amount :
      amount_of (get "amount_micro_e" payload) ≡ amount_of (get "expected_balance_micro_e" payload)

-- The checks from the version on.
PaysAll-after :
    (v : Value)
    → (do
      fail_if (is_undefined (get "expected_resource_version" v)) invalid_economy_port_request
      fail_if (is_nil (items_of (get "allocations" v))) invalid_economy_port_request
      total ← allocation_total 0 (items_of (get "allocations" v))
      fail_if
          (not (eqb total (amount_of (get "expected_balance_micro_e" v)))
            || not (
                eqb
                  (amount_of (get "amount_micro_e" v))
                  (amount_of (get "expected_balance_micro_e" v))))
          escrow_allocation_mismatch)
      ≡ ok tt
    → PaysAll v
PaysAll-after v h =
    let (_, _, h1) =
      >>=-eq-ok
        (fail_if (is_undefined (get "expected_resource_version" v)) invalid_economy_port_request) _
        h in
    let (_, _, h2) =
      >>=-eq-ok (fail_if (is_nil (items_of (get "allocations" v))) invalid_economy_port_request) _
        h1 in
    let (t, e, h3) = >>=-eq-ok (allocation_total 0 (items_of (get "allocations" v))) _ h2 in
    let sum = total_of_loop 0 (items_of (get "allocations" v)) e in
    record { total = ground arith; amount = ground arith }

PaysAll-of_distribute : (p : Platform) (v : Value) → assert_distribute p v ≡ ok tt → PaysAll v
unfolding assert_distribute
PaysAll-of_distribute p v h =
    let (_, _, h1) = >>=-eq-ok (assert_non_empty_string (get "escrow_ref" v)) _ h in
    let (_, _, h2) = >>=-eq-ok (assert_non_empty_string (get "balance_receipt_ref" v)) _ h1 in
    let (_, _, h3) = >>=-eq-ok (assert_non_empty_string (get "balance_observed_at" v)) _ h2 in
    let (_, _, h4) =
      >>=-eq-ok
        (fail_if (not (is_timestamp p (get "balance_observed_at" v))) invalid_economy_port_request)
        _ h3 in
    let (_, _, h5) = >>=-eq-ok (assert_micro_e positive (get "expected_balance_micro_e" v)) _ h4 in
    let (_, _, h6) = >>=-eq-ok (assert_version (get "expected_resource_version" v)) _ h5 in
    PaysAll-after v h6

action_of_request :
    (p : Platform) (request : Value)
    → assert_economy_port_request p "escrow" request ≡ ok tt
    → assert_escrow p (get "payload" request) ≡ ok tt
unfolding assert_economy_port_request assert_request_payload
action_of_request p request h =
    let (_, _, h1) = >>=-eq-ok (assert_plain_object request) _ h in
    let (_, _, h2) =
      >>=-eq-ok
        (fail_if (not (is_string (get "contract_version" request) economy_port_version))
          economy_port_version_mismatch)
        _ h1 in
    let (_, _, h3) =
      >>=-eq-ok
        (fail_if (not (is_string (get "operation" request) "escrow")) invalid_economy_port_envelope)
        _ h2 in
    let (_, _, h4) = >>=-eq-ok (assert_non_empty_string (get "request_id" request)) _ h3 in
    let (_, _, h5) = >>=-eq-ok (assert_non_empty_string (get "idempotency_key" request)) _ h4 in
    let (_, _, h6) = >>=-eq-ok (assert_non_empty_string (get "principal_ref" request)) _ h5 in
    let (_, _, h7) = >>=-eq-ok (assert_version (get "expected_version" request)) _ h6 in
    let (_, _, h8) = >>=-eq-ok (assert_plain_object (get "payload" request)) _ h7 in
    (>>=-eq-ok (walk_micro_e (get "payload" request)) _ h8).2

is_string-path : (v : Value) (s : String) → is_string v s ≡ true → v ≡ string s
is_string-path (string t) s h = ap string ((eq_iff t s).0 h)
is_string-path _ s h = cc

distribute_of_action :
    (p : Platform) (v : Value)
    → assert_action p (string "DISTRIBUTE") v ≡ ok tt
    → assert_distribute p v ≡ ok tt
unfolding assert_action
distribute_of_action p v h = (>>=-eq-ok (required_micro_e (get "amount_micro_e" v)) _ h).2

distribute_of_escrow :
    (p : Platform) (v : Value)
    → assert_escrow p v ≡ ok tt
    → is_string (get "escrow_action" v) "DISTRIBUTE" ≡ true
    → assert_distribute p v ≡ ok tt
unfolding assert_escrow
distribute_of_escrow p v h d =
    let action = get "escrow_action" v in
    let (_, _, h1) =
      >>=-eq-ok
        (fail_if (not (is_one_of ("FUND" ∷ "DISTRIBUTE" ∷ "REFUND" ∷ "BALANCE" ∷ []) action))
          invalid_economy_port_request)
        _ h in
    let (_, _, h2) = >>=-eq-ok (assert_non_empty_string (get "contract_ref" v)) _ h1 in
    distribute_of_action p v
      (subst (λ a. assert_action p a v ≡ ok tt) (is_string-path action "DISTRIBUTE" d) h2)

-- An accepted escrow request that distributes pays out exactly the balance that it expects: the
-- allocations add up to it, and the amount is the same.
pub distribution-PaysAll :
    (p : Platform) (request : Value)
    → assert_economy_port_request p "escrow" request ≡ ok tt
    → is_string (get "escrow_action" (get "payload" request)) "DISTRIBUTE" ≡ true
    → PaysAll (get "payload" request)
distribution-PaysAll p request h d =
    PaysAll-of_distribute p (get "payload" request)
      (distribute_of_escrow p (get "payload" request) (action_of_request p request h) d)
