-- ===== src/Saga/Normal.antt =====
-- A financial request that was made canonical is canonical.
use new_humans.Prelude.{
  String, ◌≡◌, refl, sym, ap, ◌∙◌, subst, false, invalid_saga_input, Option, none, some, ok,
  fail_if, arith, eq_refl, ok_inj, inl, inr, ◌==◌, >>=-eq-ok, Bool-cases,
}
use mathlib.Core.Path.{subst₂}
use new_humans.Platform.{Platform}
use new_humans.Js.{
  Value, string, object, instance_of, Fields, end, field, get, get_field, set_field,
}
use new_humans.Js.FieldLaws.{get_field-set_field_self, get_field-set_field, set_field-get_field}
use new_humans.Js.Json.{json_copy, ◌<>◌}
use new_humans.Idempotency.{canonicalize_json, payload_digest}
use new_humans.Idempotency.Payloads.{IsJson, FieldsAreJson, canonicalize_iff, json_copy-canonical}
use new_humans.EconomyPort.{assert_economy_port_request}
use new_humans.Saga.Types.{SagaStep, escrow_action, non_empty_text}
use new_humans.Saga.Requests.{
  plain_object, clone, with_action, economy_port_payload, normalized_request, shape_request,
  canonical_financial_request, digest_financial_request, or_unsupported, wrong_action,
}

pub payload_digest_ok :
    (p : Platform) (v : Value) → IsJson v → (d : String) × (payload_digest p v ≡ ok d)
unfolding payload_digest
payload_digest_ok p v h =
    let (t, e) = (canonicalize_iff v).1 h in ("sha256:" <> p.sha256_hex t, rw e)

IsJson-of_digest : (p : Platform) (v : Value) {d : String} → payload_digest p v ≡ ok d → IsJson v
unfolding payload_digest
IsJson-of_digest p v h =
    let (t, e, _) = >>=-eq-ok (canonicalize_json v) _ h in (canonicalize_iff v).0 (t, e)

copy_of_json : (v : Value) → IsJson v → json_copy v ≡ v
copy_of_json v h = let (t, e) = (canonicalize_iff v).1 h in json_copy-canonical v e

pub clone-json : (p : Platform) (v : Value) → IsJson v → clone p v ≡ ok v
unfolding clone
clone-json p v h = let (d, e) = payload_digest_ok p v h in rw e (ap ok (copy_of_json v h))

clone-eq-ok : (p : Platform) (v w : Value) → clone p v ≡ ok w → IsJson v × (w ≡ v)
unfolding clone
clone-eq-ok p v w h =
    let (d, e, h') = >>=-eq-ok (payload_digest p v) _ h in
    let j = IsJson-of_digest p v e in (j, sym (ok_inj h') ∙ copy_of_json v j)

set_field-FieldsAreJson :
    (k : String) (v : Value) (fs : Fields)
    → IsJson v
    → FieldsAreJson fs
    → FieldsAreJson (set_field k v fs)
unfolding set_field
set_field-FieldsAreJson k v end p h = (p, tt)
set_field-FieldsAreJson k v (field j w fs) p (q, h) = elim (Bool-cases (j == k)) [
  | inl e ↦ rw e (p, h)
  | inr e ↦ rw e (q, set_field-FieldsAreJson k v fs p h)
]

-- What a canonical request is made of.
pub record Normal (p : Platform) (step : SagaStep) (n : Value) : Type 0 where
  pub principal : String
  pub action : String
  pub fields : Fields
  pub shape : n ≡ normalized_request (string principal) (object fields)
  pub has_principal : non_empty_text (string principal) ≡ ok principal
  pub of_step : escrow_action step ≡ some action
  pub has_action : get_field "escrow_action" fields ≡ string action
  pub json : FieldsAreJson fields
  pub accepted :
      assert_economy_port_request p "escrow" (shape_request (string principal) (object fields))
      ≡ ok tt

non_empty_text-eq-ok :
    (v : Value) {s : String}
    → non_empty_text v ≡ ok s
    → (v ≡ string s) × (non_empty_text (string s) ≡ ok s)
unfolding non_empty_text
non_empty_text-eq-ok (string t) h = ground arith
non_empty_text-eq-ok _ h = cc

or_unsupported-eq-ok : (o : Option String) {a : String} → or_unsupported o ≡ ok a → o ≡ some a
or_unsupported-eq-ok none h = cc
or_unsupported-eq-ok (some a) h = cc

-- A plain object with a digest is an object.
object_of_json : (v : Value) → IsJson v → plain_object v ≡ ok tt → (fs : Fields) × (v ≡ object fs)
unfolding plain_object
object_of_json (object fs) j h = (fs, refl)
object_of_json (instance_of fs) j h = absurd j
object_of_json _ j h = absurd (ground arith)

-- The payload `w` that the port is shown, made of `v`.
record Payload (step : SagaStep) (v w : Value) : Type 0 where
  action : String
  fields : Fields
  shape : w ≡ object fields
  of_step : escrow_action step ≡ some action
  has_action : get_field "escrow_action" fields ≡ string action
  json : FieldsAreJson fields
  kept : (k : String) → ("escrow_action" == k) ≡ false → get_field k fields ≡ get k v

with_action-Payload :
    (step : SagaStep) (action : String) (fs : Fields)
    → escrow_action step ≡ some action
    → FieldsAreJson fs
    → Payload step (object fs) (with_action action (object fs))
unfolding with_action get
with_action-Payload step action fs e j = record {
  action = action;
  fields = set_field "escrow_action" (string action) fs;
  shape = refl;
  of_step = e;
  has_action = get_field-set_field_self "escrow_action" (string action) fs;
  json = set_field-FieldsAreJson "escrow_action" (string action) fs tt j;
  kept = λ k other. rw (get_field-set_field "escrow_action" k (string action) fs, other) refl;
}

Payload-of_ok :
    (p : Platform) (step : SagaStep) (payload : Value) {w : Value}
    → economy_port_payload p step payload ≡ ok w
    → Payload step payload w
unfolding economy_port_payload
Payload-of_ok p step payload {w} h =
    let (action, e, h1) = >>=-eq-ok (or_unsupported (escrow_action step)) _ h in
    let (_, plain, h2) = >>=-eq-ok (plain_object payload) _ h1 in
    let (_, _, h3) =
      >>=-eq-ok (fail_if (wrong_action (get "escrow_action" payload) action) invalid_saga_input) _
        h2 in
    let (copy, cloned, h4) = >>=-eq-ok (clone p payload) _ h3 in
    let (j, copied) = clone-eq-ok p payload copy cloned in
    let (fs, is_fs) = object_of_json payload j plain in
    let fits : Payload step (object fs) (with_action action (object fs)) =
      with_action-Payload step action fs (or_unsupported-eq-ok (escrow_action step) e)
        (subst IsJson is_fs j) in
    subst₂ (Payload step) (sym is_fs) (ap (with_action action) (sym (copied ∙ is_fs)) ∙ ok_inj h4)
      fits

payload_again :
    (p : Platform) (step : SagaStep) (fs : Fields) (action : String)
    → escrow_action step ≡ some action
    → get_field "escrow_action" fs ≡ string action
    → FieldsAreJson fs
    → economy_port_payload p step (object fs) ≡ ok (object fs)
unfolding economy_port_payload plain_object with_action get
payload_again p step fs action e has j =
    rw (e, has, eq_refl action, clone-json p (object fs) j)
      (ap (λ l. ok (object l))
        (set_field-get_field "escrow_action" (string action) fs has (λ q. cc)))

module _ (p : Platform) (step : SagaStep) where
  -- The steps of a request that was made canonical.
  record Made (r n : Value) : Type 0 where
    principal : String
    from : non_empty_text (get "principal_ref" r) ≡ ok principal
    payload : Value
    shown : Payload step (get "payload" r) payload
    accepted :
        assert_economy_port_request p "escrow" (shape_request (string principal) payload) ≡ ok tt
    result : n ≡ normalized_request (string principal) payload

  Made-of_ok : (r n : Value) → canonical_financial_request p step r ≡ ok n → Made r n
  unfolding canonical_financial_request
  Made-of_ok r n h =
      let (_, plain, h1) = >>=-eq-ok (plain_object r) _ h in
      let (principal, e, h2) = >>=-eq-ok (non_empty_text (get "principal_ref" r)) _ h1 in
      let (payload, e', h3) = >>=-eq-ok (economy_port_payload p step (get "payload" r)) _ h2 in
      let (_, accepted, h4) =
        >>=-eq-ok
          (assert_economy_port_request p "escrow" (shape_request (string principal) payload)) _
          h3 in
      record {
        principal = principal;
        from = e;
        payload = payload;
        shown = Payload-of_ok p step (get "payload" r) e';
        accepted = accepted;
        result = sym (ok_inj h4);
      }

  pub Normal-of_ok : (r n : Value) → canonical_financial_request p step r ≡ ok n → Normal p step n
  Normal-of_ok r n h =
      let m = Made-of_ok r n h in
      record {
        principal = m.principal;
        action = m.shown.action;
        fields = m.shown.fields;
        shape = rw (← m.shown.shape) m.result;
        has_principal = (non_empty_text-eq-ok (get "principal_ref" r) m.from).1;
        of_step = m.shown.of_step;
        has_action = m.shown.has_action;
        json = m.shown.json;
        accepted = rw (← m.shown.shape) m.accepted;
      }

  -- A canonical request keeps the principal.
  pub kept_principal :
      (r n : Value)
      → canonical_financial_request p step r ≡ ok n
      → get "principal_ref" n ≡ get "principal_ref" r
  unfolding get get_field
  kept_principal r n h =
      let m = Made-of_ok r n h in
      ap (get "principal_ref") m.result
      ∙ sym (non_empty_text-eq-ok (get "principal_ref" r) m.from).0

  -- It keeps each field of the payload but the action.
  pub kept_field :
      (r n : Value) (k : String)
      → canonical_financial_request p step r ≡ ok n
      → ("escrow_action" == k) ≡ false
      → get k (get "payload" n) ≡ get k (get "payload" r)
  unfolding get get_field
  kept_field r n k h other =
      let m = Made-of_ok r n h in
      ap (λ v. get k (get "payload" v)) m.result ∙ ap (get k) m.shown.shape ∙ m.shown.kept k other

  pub Normal-again : (n : Value) → Normal p step n → canonical_financial_request p step n ≡ ok n
  unfolding canonical_financial_request plain_object get get_field
  Normal-again n c =
      rw
        (
          c.shape,
          c.has_principal,
          payload_again p step c.fields c.action c.of_step c.has_action c.json,
          c.accepted,
        )
        refl

  pub digest-Normal :
      (n : Value) → Normal p step n → (d : String) × (digest_financial_request p n ≡ ok d)
  unfolding digest_financial_request get get_field
  digest-Normal n c = rw c.shape (
      payload_digest_ok p (normalized_request (string c.principal) (object c.fields))
        (tt, (c.json, tt)))
