-- ===== src/Idempotency/Tests.antt =====
-- The retry contract at concrete attempts.
use new_humans.Prelude.{String, ◌≡◌, ◌≢◌, ◌↔◌, ◌≤◌, refl, true, ok, arith, eq_iff}
use new_humans.Prelude.Int.{pos}
use new_humans.Platform.{Platform}
use new_humans.Js.{int, Value, undefined, null, number, string, object, end, field}
use new_humans.Js.Json.{json_copy, ◌<>◌}
use new_humans.Idempotency.Canonical.{canonicalize_json, payload_digest}
use new_humans.Idempotency.Payloads.{json_copy-canonical}
use new_humans.Idempotency.Reordering.{objects, swap, payload_digest-Reordered}
use new_humans.Idempotency.Attempt.{
  KbAttempt, assert_same_logical_operation, build_cross_product_scope, require_string, separator,
  integer_from, read_operation_class, write, newhumans,
}
use new_humans.Idempotency.Retry.{
  RetryState, decide_retry, decide, retry_same_key, query_by_idempotency_key, total_attempt_limit,
  read_outcome, read_lookup_state,
}
use new_humans.Idempotency.Identity.{IsRetry, same_operation_iff}
use new_humans.Idempotency.Identity.Scope.{scope_inj, scope_collision}
use new_humans.Idempotency.Retries.{RetryAllowed, retry_iff, first, again, Attempts-le}

abbrev platform : Platform
platform = record { sha256_hex = λ s. s; is_timestamp = λ s. true }

abbrev ab : Value
ab = object (field "a" (number (int (pos 1))) (field "b" null end))

abbrev ba : Value
ba = object (field "b" null (field "a" (number (int (pos 1))) end))

ab_text : canonicalize_json ab ≡ ok "{\"a\":1,\"b\":null}"
unfolding canonicalize_json
ab_text = refl

a_ne_b : ◌≢◌ {A = String} "a" "b"
a_ne_b = ground (arith, eq_iff "a" "b")

payload_digest-Reordered_example : payload_digest platform ab ≡ payload_digest platform ba
payload_digest-Reordered_example = payload_digest-Reordered platform ab ba (objects (swap a_ne_b))

json_copy-canonical_example : json_copy ab ≡ ab
json_copy-canonical_example = json_copy-canonical ab ab_text

abbrev attempt : KbAttempt
attempt = record {
  contract_version = "nh.kb-idempotency.v1";
  authority = "knowledge-ball";
  world_id = "w";
  actor_entity_id = "a";
  operation = "transfer";
  operation_class = write;
  origin_product = newhumans;
  idempotency_key = "k";
  request_id = "r1";
  correlation_id = "c";
  payload_digest = "d";
  payload = ab;
  attempt_number = pos 1;
  retry_budget = pos 3;
  scope_key = "s";
}

same_operation_iff_example :
    (assert_same_logical_operation attempt (record attempt { request_id = "r2" }) ≡ ok tt)
    ↔ IsRetry attempt (record attempt { request_id = "r2" })
same_operation_iff_example = same_operation_iff attempt (record attempt { request_id = "r2" })

scope_key :
    build_cross_product_scope (string "w") (string "a") (string "o") (string "k")
    ≡ ok "knowledge-ball\u{1f}w\u{1f}a\u{1f}o\u{1f}k"
unfolding build_cross_product_scope
scope_key = refl

scope_inj_example :
    ◌≡◌ {A = String} "w" "w"
    × ◌≡◌ {A = String} "a" "a"
    × ◌≡◌ {A = String} "o" "o"
    × ◌≡◌ {A = String} "k" "k"
scope_inj_example =
    scope_inj "w" "a" "o" "k" "w" "a" "o" "k" (omega arith) (omega arith) scope_key scope_key

wa_accepted : require_string (string ("w" <> separator <> "a")) ≡ ok ("w" <> separator <> "a")
unfolding require_string
wa_accepted = refl

ab_accepted : require_string (string ("a" <> separator <> "b")) ≡ ok ("a" <> separator <> "b")
unfolding require_string
ab_accepted = refl

w_accepted : require_string (string "w") ≡ ok "w"
unfolding require_string
w_accepted = refl

b_accepted : require_string (string "b") ≡ ok "b"
unfolding require_string
b_accepted = refl

scope_collision_example :
    build_cross_product_scope
      (string ("w" <> separator <> "a"))
      (string "b")
      (string "b")
      (string "w")
    ≡ build_cross_product_scope
        (string "w")
        (string ("a" <> separator <> "b"))
        (string "b")
        (string "w")
scope_collision_example =
    scope_collision "w" "a" "b" "b" "w" wa_accepted b_accepted w_accepted ab_accepted b_accepted
      w_accepted

abbrev absent : RetryState
absent = record {
  attempts_made = number (int (pos 1));
  retry_budget = number (int (pos 2));
  operation_class = string "FUNDS_WRITE";
  outcome = string "OUTCOME_UNKNOWN";
  lookup_state = string "NOT_FOUND";
}

absent_retries : decide_retry absent ≡ ok retry_same_key
unfolding decide_retry decide total_attempt_limit integer_from read_operation_class read_outcome
    read_lookup_state
absent_retries = refl

unknown_queries :
    decide_retry (record absent { lookup_state = undefined }) ≡ ok query_by_idempotency_key
unfolding decide_retry decide total_attempt_limit integer_from read_operation_class read_outcome
    read_lookup_state
unknown_queries = refl

retry_iff_example : (decide_retry absent ≡ ok retry_same_key) ↔ RetryAllowed absent
retry_iff_example = retry_iff absent

Attempts-le_example : 2 ≤ 3
Attempts-le_example = Attempts-le 2 2 (again first absent refl refl absent_retries)
