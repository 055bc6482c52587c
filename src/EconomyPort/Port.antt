-- ===== src/EconomyPort/Port.antt =====
-- The port around an adapter: a call checks the request, asks the adapter and checks the answer.
use new_humans.Prelude.{
  String, Bool, true, false, not, includes, List, [], ◌∷◌, Option, none, some, if◌then◌else◌,
  Result, ok, err, fail_if, ◌>>=◌, ◌>>◌, dependency_unavailable,
}
use new_humans.Platform.{Platform}
use new_humans.Js.{Value}
use new_humans.EconomyPort.Request.{assert_economy_port_request}
use new_humans.EconomyPort.Response.{assert_economy_port_response}

abbrev pub economy_port_operations : List String
economy_port_operations =
    "balance" ∷ "eligibility" ∷ "activity_day" ∷ "quote" ∷ "reserve" ∷ "release" ∷ "settle"
    ∷ "transfer" ∷ "escrow" ∷ "ledger" ∷ []

-- The function under each name, if there is one. A call that rejects is an `err`.
abbrev pub Adapter : Type 0
Adapter = String → Option (Value → Result Value)

abbrev pub has_function : Option (Value → Result Value) → Bool
has_function none = false
has_function (some f) = true

-- The loop that looks for a missing operation.
unfoldable pub require_operations : Adapter → List String → Result (Unit {0})
require_operations adapter [] = ok tt
require_operations adapter (o ∷ os) = do
  fail_if (not (has_function (adapter o))) dependency_unavailable
  require_operations adapter os

unfoldable pub port_call : Platform → String → (Value → Result Value) → Value → Result Value
port_call p operation call request = do
  assert_economy_port_request p operation request
  response ← call request
  assert_economy_port_response p operation response
  ok response

abbrev pub guarded :
    Platform → String → Option (Value → Result Value) → Option (Value → Result Value)
guarded p operation none = none
guarded p operation (some call) = some (port_call p operation call)

-- `none` stands for an adapter that is no object.
unfoldable pub create_economy_port : Platform → Option Adapter → Result Adapter
unfolding require_operations
create_economy_port p none = err dependency_unavailable
create_economy_port p (some adapter) = do
  require_operations adapter economy_port_operations
  ok (λ operation.
      if includes economy_port_operations operation
      then guarded p operation (adapter operation)
      else none)
