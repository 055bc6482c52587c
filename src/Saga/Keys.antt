-- ===== src/Saga/Keys.antt =====
-- The operation keys of a saga tell operations apart.
use new_humans.Prelude.{
  String, ◌≡◌, ◌≢◌, sym, ap, ◌∙◌, ◌∷◌, ◌++◌, ok, arith, >>=-eq-ok, ok_inj, some, subst, eq_iff,
}
use text.Mathlib.TextLemmas.{append_cancel_left}
use new_humans.Platform.{Platform}
use new_humans.Js.Json.{◌<>◌}
use new_humans.Js.Text.{codes, encode_uri_component}
use new_humans.Js.Text.Codes.{codes-append, codes_inj}
use new_humans.Js.Text.Encoding.{encode_inj}
use new_humans.Js.Text.Separators.{split_at}
use new_humans.Js.Text.Slash.{encode-Avoids}
use new_humans.Saga.Types.{
  Saga, SagaStep, SagaKind, contract_activation, release_escrow, step_text, key_text, non_empty,
  saga_operation_key, primary_step_of,
}
use new_humans.Saga.Sound.{Compensates}
use new_humans.Saga.Reach.{Reachable, Reachable-Sound}

codes-slash : (s t : String) → codes (s <> "/" <> t) ≡ codes s ++ b'/' ∷ codes t
codes-slash s t = codes-append s ("/" <> t) ∙ ap (λ l. codes s ++ l) (codes-append "/" t)

encoded_before_slash :
    (s t u v : String)
    → encode_uri_component s <> "/" <> u ≡ encode_uri_component t <> "/" <> v
    → (s ≡ t) × (u ≡ v)
encoded_before_slash s t u v e =
    let (p, q) =
      split_at b'/' (codes (encode_uri_component s)) (codes (encode_uri_component t)) (codes u)
        (codes v) (encode-Avoids s) (encode-Avoids t)
        (sym (codes-slash (encode_uri_component s) u)
          ∙ ap codes e
          ∙ codes-slash (encode_uri_component t) v) in
    (encode_inj s t p, codes_inj u v q)

key_text_inj :
    (w a w' a' : String) (step step' : SagaStep)
    → key_text w a step ≡ key_text w' a' step'
    → (w ≡ w') × (a ≡ a') × (step_text step ≡ step_text step')
key_text_inj w a w' a' step step' e =
    let (p, rest) = encoded_before_slash w w' _ _ (append_cancel_left "nh-saga/v1/" _ _ e) in
    let (q, r) = encoded_before_slash a a' _ _ rest in (p, q, r)

pub key-eq-ok :
    (w a : String) (step : SagaStep) {k : String}
    → saga_operation_key w a step ≡ ok k
    → k ≡ key_text w a step
unfolding saga_operation_key
key-eq-ok w a step h =
    let (_, _, h1) = >>=-eq-ok (non_empty w) _ h in
    let (_, _, h2) = >>=-eq-ok (non_empty a) _ h1 in
    let (_, _, h3) = >>=-eq-ok (non_empty (step_text step)) _ h2 in sym (ok_inj h3)

-- Two operations have one operation key only if world, business attempt and step all agree,
-- whatever characters the ids hold.
pub operation_key_inj :
    (w a w' a' : String) (step step' : SagaStep) {k : String}
    → saga_operation_key w a step ≡ ok k
    → saga_operation_key w' a' step' ≡ ok k
    → (w ≡ w') × (a ≡ a') × (step_text step ≡ step_text step')
operation_key_inj w a w' a' step step' h h' =
    key_text_inj w a w' a' step step' (sym (key-eq-ok w a step h) ∙ key-eq-ok w' a' step' h')

primary_is_no_release : step_text (primary_step_of contract_activation) ≢ step_text release_escrow
unfolding step_text primary_step_of
primary_is_no_release e = ground (arith, eq_iff "FUND_ESCROW" "RELEASE_ESCROW")

-- A reachable saga whose compensation was requested keeps two different operation keys, so no
-- result is taken for the wrong operation.
pub compensation_key-ne-primary :
    (p : Platform) (s : Saga)
    → Reachable p s
    → Compensates p s
    → s.compensation_operation_key ≢ some s.primary_operation_key
compensation_key-ne-primary p s r c e =
    let same : c.key ≡ s.primary_operation_key = ground (arith, c.has_key) in
    let (_, _, steps) =
      operation_key_inj s.world_id s.business_attempt_id s.world_id s.business_attempt_id
        (primary_step_of s.kind) release_escrow (Reachable-Sound p r).key (c.keyed ∙ ap ok same) in
    primary_is_no_release (
      subst (λ (k : SagaKind). step_text (primary_step_of k) ≡ step_text release_escrow)
        c.activation steps)
