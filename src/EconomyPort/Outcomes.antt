-- ===== src/EconomyPort/Outcomes.antt =====
-- What an accepted response says.
use new_humans.Prelude.{
  eq_iff, ◌==◌, String, true, false, Option, none, some, if◌then◌else◌, ok, >>=-eq-ok, ◌≡◌, refl,
  subst, ◌&&◌, ◌⊎◌, inl, inr, arith, Bool-cases,
}
use new_humans.Platform.{Platform}
use new_humans.Kb.{KbErrorDisposition, disposition_of, is_kb_error}
use new_humans.Js.{is_true, text_of, Value, get, is_null, is_object, is_string, is_non_empty_string}
use new_humans.EconomyPort.Request.{
  Operation, walk_micro_e, assert_plain_object, assert_non_empty_string,
}
use new_humans.EconomyPort.Response.{
  is_success, assert_outcome, assert_economy_port_response, unless_missing, assert_optional_fields,
  assert_escrow_result, is_escrow, assert_response_envelope, assert_response_body,
  assert_status_details,
}

module _ (p : Platform) (operation : String) (r : Value)
    (accepted : assert_economy_port_response p operation r ≡ ok tt) where
  optional_of_response :
      (o : Operation) × (assert_optional_fields r ≡ ok tt)
      × (assert_response_body p o (text_of (get "status" r)) r ≡ ok tt)
  unfolding assert_economy_port_response
  optional_of_response =
      let (o, _, h) = >>=-eq-ok (assert_response_envelope operation r) _ accepted in
      let (_, fields, h1) = >>=-eq-ok (assert_optional_fields r) _ h in
      let (_, _, body) = >>=-eq-ok (walk_micro_e r) _ h1 in (o, fields, body)

  outcome_of_response : assert_outcome (text_of (get "status" r)) r ≡ ok tt
  unfolding assert_response_body
  outcome_of_response =
      let (o, _, body) = optional_of_response in
      (>>=-eq-ok (assert_outcome (text_of (get "status" r)) r) _ body).1

  result_of_response :
      unless_missing (get "result" r) (assert_plain_object (get "result" r)) ≡ ok tt
  unfolding assert_optional_fields
  result_of_response = let (o, fields, _) = optional_of_response in ground arith

  details_of_response : assert_status_details (text_of (get "status" r)) r ≡ ok tt
  unfolding assert_response_body
  details_of_response =
      let (o, _, body) = optional_of_response in
      let status = text_of (get "status" r) in
      let (_, _, h) = >>=-eq-ok (assert_outcome status r) _ body in
      (>>=-eq-ok
        (if is_escrow o && is_success status
          then assert_escrow_result p (get "resource_version" r) (get "result" r)
          else ok tt)
        _ h).2

-- A status of success, a result and no error.
pub record Success (status : String) (r : Value) : Type 0 where
  pub succeeded : status ≡ "SUCCEEDED" ⊎ status ≡ "DUPLICATE"
  pub no_error : is_null (get "error" r) ≡ true
  pub result : is_object (get "result" r) ≡ true

-- An error under a code of Knowledge Ball, and no result.
pub record Refusal (status : String) (r : Value) : Type 0 where
  pub disposition : KbErrorDisposition
  pub known : disposition_of status ≡ some disposition
  pub code : is_string (get "code" (get "error" r)) status ≡ true
  pub no_result : is_null (get "result" r) ≡ true
  pub retries :
      status ≡ "TIMEOUT" → is_true (get "retry_with_same_idempotency_key" (get "error" r)) ≡ true
  pub reconciles :
      status ≡ "OUTCOME_UNKNOWN" → is_non_empty_string (get "reconcile_ref" (get "error" r)) ≡ true

success_status :
    (status : String) → is_success status ≡ true → status ≡ "SUCCEEDED" ⊎ status ≡ "DUPLICATE"
success_status status h = elim (Bool-cases (status == "SUCCEEDED")) [
  | inl first ↦ inl ((eq_iff status "SUCCEEDED").0 first)
  | inr other ↦ inr ((eq_iff status "DUPLICATE").0 (rw other at h))
]

Success-of :
    (p : Platform) (o : String) (r : Value)
    → assert_economy_port_response p o r ≡ ok tt
    → is_success (text_of (get "status" r)) ≡ true
    → Success (text_of (get "status" r)) r
unfolding assert_outcome assert_plain_object
Success-of p o r h s =
    let outcome = outcome_of_response p o r h in
    let result = result_of_response p o r h in
    record {
      succeeded = success_status (text_of (get "status" r)) s;
      no_error = ground arith;
      result = ground arith;
    }

known_of :
    (o : Option KbErrorDisposition) → is_kb_error o ≡ true → (d : KbErrorDisposition) × (o ≡ some d)
known_of none h = cc
known_of (some d) h = (d, refl)

timeout_details :
    (r : Value)
    → assert_status_details "TIMEOUT" r ≡ ok tt
    → is_true (get "retry_with_same_idempotency_key" (get "error" r)) ≡ true
unfolding assert_status_details
timeout_details r h = ground arith

unknown_details :
    (r : Value)
    → assert_status_details "OUTCOME_UNKNOWN" r ≡ ok tt
    → is_non_empty_string (get "reconcile_ref" (get "error" r)) ≡ true
unfolding assert_status_details assert_non_empty_string
unknown_details r h = ground arith

known_status :
    (status : String) (r : Value)
    → assert_outcome status r ≡ ok tt
    → is_success status ≡ false
    → is_kb_error (disposition_of status) ≡ true
unfolding assert_outcome
known_status status r h s = ground arith

Refusal-of :
    (p : Platform) (o : String) (r : Value)
    → assert_economy_port_response p o r ≡ ok tt
    → is_success (text_of (get "status" r)) ≡ false
    → Refusal (text_of (get "status" r)) r
unfolding assert_outcome
Refusal-of p o r h s =
    let outcome = outcome_of_response p o r h in
    let details = details_of_response p o r h in
    let (d, e) =
      known_of (disposition_of (text_of (get "status" r)))
        (known_status (text_of (get "status" r)) r outcome s) in
    record {
      disposition = d;
      known = e;
      code = ground arith;
      no_result = ground arith;
      retries = λ t. timeout_details r (subst (λ x. assert_status_details x r ≡ ok tt) t details);
      reconciles =
          λ t. unknown_details r (subst (λ x. assert_status_details x r ≡ ok tt) t details);
    }

-- An accepted response either has the status SUCCEEDED or DUPLICATE, with an object as result and no
-- error, or carries an error
-- whose code is its status and one of Knowledge Ball's, and no result. A timeout then asks for a
-- retry under the same idempotency key, and an unknown outcome names what to reconcile.
pub response-Outcome :
    (p : Platform) (operation : String) (r : Value)
    → assert_economy_port_response p operation r ≡ ok tt
    → Success (text_of (get "status" r)) r ⊎ Refusal (text_of (get "status" r)) r
response-Outcome p operation r h = elim (Bool-cases (is_success (text_of (get "status" r)))) [
  | inl s ↦ inl (Success-of p operation r h s)
  | inr s ↦ inr (Refusal-of p operation r h s)
]
