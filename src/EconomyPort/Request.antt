-- ===== src/EconomyPort/Request.antt =====
-- The envelope and the payload of a request.
use new_humans.Prelude.{
  ℕ, ◌+◌, String, Bool, true, false, not, ◌&&◌, ◌||◌, ◌==◌, [], ◌∷◌, Option, none, some, eqb,
  if◌then◌else◌, Result, ok, err, fail_if, ◌>>=◌, ◌>>◌, invalid_economy_port_envelope,
  invalid_economy_port_request, unknown_economy_port_operation, economy_port_version_mismatch,
  invalid_micro_e, escrow_allocation_mismatch,
}
use new_humans.Prelude.Int.{pos, leb_ℤ}
use new_humans.Platform.{Platform}
use new_humans.Js.{
  is_one_of, text_of, int, Value, undefined, number, string, array, object, instance_of, Items, nil,
  cons, Fields, end, field, get, is_undefined, is_string, is_non_empty_string, is_object,
}
use new_humans.EconomyPort.Patterns.{
  is_positive_integer, is_non_negative_integer, is_decimal_integer, is_iso_date, decimal_value,
  ends_with,
}

abbrev pub economy_port_version : String
economy_port_version = "nh.kb-economy-port.v2"

pub data Operation : Type 0 where
  balance eligibility activity_day quote reserve release settle transfer escrow ledger : Operation

-- `OPERATION_SET.has(operation)`, with the case of the switch that it selects.
unfoldable pub read_operation : String → Option Operation
read_operation s =
    if s == "balance"
    then some balance
    else if s == "eligibility"
    then some eligibility
    else if s == "activity_day"
    then some activity_day
    else if s == "quote"
    then some quote
    else if s == "reserve"
    then some reserve
    else if s == "release"
    then some release
    else if s == "settle"
    then some settle
    else if s == "transfer"
    then some transfer
    else if s == "escrow"
    then some escrow
    else if s == "ledger"
    then some ledger
    else none

unfoldable pub assert_non_empty_string : Value → Result (Unit {0})
assert_non_empty_string v = fail_if (not (is_non_empty_string v)) invalid_economy_port_envelope

unfoldable pub assert_plain_object : Value → Result (Unit {0})
assert_plain_object v = fail_if (not (is_object v)) invalid_economy_port_envelope

unfoldable pub assert_version : Value → Result (Unit {0})
assert_version undefined = ok tt
assert_version (string s) = fail_if (not (is_non_negative_integer s)) invalid_economy_port_envelope
assert_version _ = err invalid_economy_port_envelope

-- `allowNegative`; neither option; `allowZero: false`.
pub data Sign : Type 0 where
  signed non_negative positive : Sign

abbrev matches : Sign → String → Bool
matches signed s = is_decimal_integer s
matches non_negative s = is_non_negative_integer s
matches positive s = is_positive_integer s

unfoldable pub assert_micro_e : Sign → Value → Result (Unit {0})
assert_micro_e sign (string s) = fail_if (not (matches sign s)) invalid_micro_e
assert_micro_e sign _ = err invalid_micro_e

unfoldable mutual
  unfolding assert_micro_e ends_with

  pub walk_micro_e : Value → Result (Unit {0})
  walk_micro_e (array xs) = walk_items xs
  walk_micro_e (object fs) = walk_fields fs
  walk_micro_e (instance_of fs) = walk_fields fs
  walk_micro_e _ = ok tt

  pub walk_items : Items → Result (Unit {0})
  walk_items nil = ok tt
  walk_items (cons v xs) = walk_micro_e v >> walk_items xs

  pub walk_fields : Fields → Result (Unit {0})
  walk_fields end = ok tt
  walk_fields (field k v fs) =
      (if ends_with k "_micro_e" then assert_micro_e signed v else walk_micro_e v) >> walk_fields fs

unfoldable pub assert_positive_micro_e : Value → Result (Unit {0})
unfolding assert_micro_e
assert_positive_micro_e undefined = ok tt
assert_positive_micro_e v = assert_micro_e positive v

-- A positive amount that has to be there.
unfoldable pub required_micro_e : Value → Result (Unit {0})
unfolding assert_positive_micro_e
required_micro_e v = do
  assert_positive_micro_e v
  fail_if (is_undefined v) invalid_economy_port_request

-- `BigInt(v)` of a text that was checked.
abbrev pub amount_of : Value → ℕ
amount_of v = decimal_value (text_of v)

-- The loop over the allocations, from the total so far.
unfoldable pub allocation_total : ℕ → Items → Result ℕ
unfolding assert_plain_object assert_non_empty_string assert_micro_e
allocation_total total nil = ok total
allocation_total total (cons v xs) = do
  assert_plain_object v
  assert_non_empty_string (get "principal_ref" v)
  assert_micro_e non_negative (get "amount_micro_e" v)
  allocation_total (total + amount_of (get "amount_micro_e" v)) xs

-- `Array.isArray(v)` with at least one item.
abbrev pub items_of : Value → Items
items_of (array xs) = xs
items_of _ = nil

abbrev pub is_nil : Items → Bool
is_nil nil = true
is_nil (cons v xs) = false

unfoldable pub is_timestamp : Platform → Value → Bool
is_timestamp p (string s) = p.is_timestamp s
is_timestamp p _ = false

unfoldable pub assert_distribute : Platform → Value → Result (Unit {0})
unfolding allocation_total assert_version is_timestamp
assert_distribute p payload = do
  assert_non_empty_string (get "escrow_ref" payload)
  assert_non_empty_string (get "balance_receipt_ref" payload)
  assert_non_empty_string (get "balance_observed_at" payload)
  fail_if (not (is_timestamp p (get "balance_observed_at" payload))) invalid_economy_port_request
  assert_micro_e positive (get "expected_balance_micro_e" payload)
  assert_version (get "expected_resource_version" payload)
  fail_if (is_undefined (get "expected_resource_version" payload)) invalid_economy_port_request
  fail_if (is_nil (items_of (get "allocations" payload))) invalid_economy_port_request
  total ← allocation_total 0 (items_of (get "allocations" payload))
  fail_if
      (not (eqb total (amount_of (get "expected_balance_micro_e" payload)))
        || not (
            eqb (amount_of (get "amount_micro_e" payload))
              (amount_of (get "expected_balance_micro_e" payload))))
      escrow_allocation_mismatch

-- What follows the check of the action.
unfoldable pub assert_action : Platform → Value → Value → Result (Unit {0})
unfolding required_micro_e
assert_action p action payload =
    if is_string action "BALANCE"
    then (do
      assert_non_empty_string (get "escrow_ref" payload)
      fail_if (not (is_undefined (get "amount_micro_e" payload))) invalid_economy_port_request)
    else (do
      required_micro_e (get "amount_micro_e" payload)
      if is_string action "DISTRIBUTE" then assert_distribute p payload else ok tt)

unfoldable pub assert_escrow : Platform → Value → Result (Unit {0})
unfolding assert_distribute assert_action
assert_escrow p payload = do
  let action = get "escrow_action" payload
  fail_if (not (is_one_of ("FUND" ∷ "DISTRIBUTE" ∷ "REFUND" ∷ "BALANCE" ∷ []) action))
      invalid_economy_port_request
  assert_non_empty_string (get "contract_ref" payload)
  assert_action p action payload

-- `undefined`, or an integer from 1 to 500.
is_limit : Value → Bool
is_limit undefined = true
is_limit (number (int z)) = leb_ℤ (pos 1) z && leb_ℤ z (pos 500)
is_limit _ = false

is_date : Value → Bool
unfolding is_iso_date
is_date (string s) = is_iso_date s
is_date _ = false

unfoldable pub assert_request_payload : Platform → Operation → Value → Result (Unit {0})
unfolding assert_escrow is_limit is_date
assert_request_payload p balance payload = ok tt
assert_request_payload p eligibility payload =
    fail_if
      (not (
        is_one_of ("ACTIVITY" ∷ "TASK_SEEK" ∷ "INBOUND_OFFER" ∷ "CONTRACT_EXECUTION" ∷ [])
          (get "purpose" payload)))
      invalid_economy_port_request
assert_request_payload p activity_day payload =
    fail_if (not (is_date (get "billing_date" payload))) invalid_economy_port_request
assert_request_payload p quote payload = do
  assert_non_empty_string (get "scope_ref" payload)
  assert_positive_micro_e (get "max_cost_micro_e" payload)
assert_request_payload p reserve payload = do
  assert_non_empty_string (get "quote_ref" payload)
  required_micro_e (get "amount_micro_e" payload)
assert_request_payload p release payload = do
  assert_non_empty_string (get "reservation_ref" payload)
  assert_positive_micro_e (get "amount_micro_e" payload)
assert_request_payload p settle payload = do
  assert_non_empty_string (get "reservation_ref" payload)
  assert_non_empty_string (get "receipt_ref" payload)
  required_micro_e (get "actual_cost_micro_e" payload)
assert_request_payload p transfer payload = do
  assert_non_empty_string (get "to_principal_ref" payload)
  required_micro_e (get "amount_micro_e" payload)
assert_request_payload p escrow payload = assert_escrow p payload
assert_request_payload p ledger payload = do
  fail_if (not (is_limit (get "limit" payload))) invalid_economy_port_request
  if is_undefined (get "cursor" payload)
      then ok tt
      else assert_non_empty_string (get "cursor" payload)

abbrev pub or_unknown : Option Operation → Result Operation
or_unknown none = err unknown_economy_port_operation
or_unknown (some o) = ok o

unfoldable pub assert_economy_port_request : Platform → String → Value → Result (Unit {0})
unfolding read_operation assert_request_payload walk_micro_e
assert_economy_port_request p operation request = do
  o ← or_unknown (read_operation operation)
  assert_plain_object request
  fail_if (not (is_string (get "contract_version" request) economy_port_version))
      economy_port_version_mismatch
  fail_if (not (is_string (get "operation" request) operation)) invalid_economy_port_envelope
  assert_non_empty_string (get "request_id" request)
  assert_non_empty_string (get "idempotency_key" request)
  assert_non_empty_string (get "principal_ref" request)
  assert_version (get "expected_version" request)
  assert_plain_object (get "payload" request)
  walk_micro_e (get "payload" request)
  assert_request_payload p o (get "payload" request)
