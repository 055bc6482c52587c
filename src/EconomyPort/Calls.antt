-- ===== src/EconomyPort/Calls.antt =====
-- What a call through the port lets through.
use new_humans.Prelude.{
  String, Bool, true, false, includes, Option, none, some, if◌then◌else◌, Result, ok, >>=-eq-ok,
  ok_inj, ◌≡◌, refl, subst, sym, ◌∙◌,
}
use new_humans.Platform.{Platform}
use new_humans.Js.{Value}
use new_humans.EconomyPort.Request.{assert_economy_port_request}
use new_humans.EconomyPort.Response.{assert_economy_port_response}
use new_humans.EconomyPort.Port.{
  economy_port_operations, Adapter, require_operations, port_call, guarded, create_economy_port,
}

-- A call of the adapter, between the two checks.
pub record Checked (p : Platform) (adapter : Adapter) (operation : String)
    (request response : Value) : Type 0 where
  pub accepted : assert_economy_port_request p operation request ≡ ok tt
  pub call : Value → Result Value
  pub has_call : adapter operation ≡ some call
  pub answered : call request ≡ ok response
  pub conforms : assert_economy_port_response p operation response ≡ ok tt

port_of_adapter :
    (p : Platform) (adapter port : Adapter) (o : String)
    → create_economy_port p (some adapter) ≡ ok port
    → port o ≡ (if includes economy_port_operations o then guarded p o (adapter o) else none)
unfolding create_economy_port
port_of_adapter p adapter port o h =
    let (_, _, e) = >>=-eq-ok (require_operations adapter economy_port_operations) _ h in
    subst
      (λ f. f o ≡ (if includes economy_port_operations o then guarded p o (adapter o) else none))
      (ok_inj e) refl

guarded_call :
    (p : Platform) (o : String) (b : Bool) (a : Option (Value → Result Value))
    (f : Value → Result Value)
    → (if b then guarded p o a else none) ≡ some f
    → (call : Value → Result Value) × (a ≡ some call) × (port_call p o call ≡ f)
guarded_call p o true (some call) f h = (call, refl, cc)
guarded_call p o true none f h = cc
guarded_call p o false a f h = cc

-- A call through a created port that returns asked the adapter's own function with an acceptable
-- request, and returns its answer, which is an acceptable response.
pub call-Checked :
    (p : Platform) (adapter port : Adapter) (operation : String) (f : Value → Result Value)
    (request response : Value)
    → create_economy_port p (some adapter) ≡ ok port
    → port operation ≡ some f
    → f request ≡ ok response
    → Checked p adapter operation request response
unfolding port_call
call-Checked p adapter port operation f request response made offered returned =
    let allowed = includes economy_port_operations operation in
    let (call, has, same) =
      guarded_call p operation allowed (adapter operation) f
        (sym (port_of_adapter p adapter port operation made) ∙ offered) in
    let run : port_call p operation call request ≡ ok response =
      subst (λ g. g request ≡ ok response) (sym same) returned in
    let (_, accepted, h1) = >>=-eq-ok (assert_economy_port_request p operation request) _ run in
    let (r, answered, h2) = >>=-eq-ok (call request) _ h1 in
    let (_, conforms, h3) = >>=-eq-ok (assert_economy_port_response p operation r) _ h2 in
    record {
      accepted = accepted;
      call = call;
      has_call = has;
      answered = answered ∙ h3;
      conforms =
          subst (λ x. assert_economy_port_response p operation x ≡ ok tt) (ok_inj h3) conforms;
    }
