-- ===== src/Knowledge/Port.antt =====
-- The port around a provider: a call checks what is asked, asks, checks the answer, and turns what
-- the provider throws into the errors of Knowledge Ball. Messages and causes are left out.
use new_humans.Prelude.{
  String, Bool, true, false, not, List, [], ◌∷◌, Option, none, some, Result, ok, err, fail_if, ◌>>◌,
  ◌>>=◌, ◌==◌, if◌then◌else◌, invalid_knowledge_port_contract,
}
use new_humans.Prelude.Int.{ℤ, pos}
use new_humans.Js.{Value, number, int, string, get}
use new_humans.Kb.{
  disposition_of, is_retryable_kb_error, requires_kb_error_reconciliation, is_kb_error,
}
use new_humans.Knowledge.Refs.{Check}
use new_humans.Knowledge.Inputs.{
  assert_query_input, assert_node_read_input, assert_resolve_reference_input, assert_evidence_input,
  assert_challenge_input, assert_overlay_input, assert_belief_input, assert_resolve_challenge_input,
}
use new_humans.Knowledge.Answers.{
  assert_query_result, assert_node_read_result, assert_resolve_reference_result,
  assert_evidence_result, assert_challenge_result, assert_overlay_result, assert_belief_result,
  assert_resolve_challenge_result,
}

pub data Operation : Type 0 where
  query read_node resolve_reference submit_evidence create_challenge : Operation
  read_personal_overlay declare_belief resolve_personal_challenge : Operation

abbrev pub operation_name : Operation → String
operation_name query = "query"
operation_name read_node = "readNode"
operation_name resolve_reference = "resolveReference"
operation_name submit_evidence = "submitEvidence"
operation_name create_challenge = "createChallenge"
operation_name read_personal_overlay = "readPersonalOverlay"
operation_name declare_belief = "declareBelief"
operation_name resolve_personal_challenge = "resolvePersonalChallenge"

-- `KnowledgePortError`.
pub record KnowledgePortError : Type 0 where
  pub code : String
  pub status : ℤ
  pub retryable : Bool
  pub reconciliation_required : Bool
  pub operation : Option String
  pub provider_code : Option String

-- A thrown value: one of the port's own errors, or any other, by its `code` and `status`.
pub data Thrown : Type 0 where
  contract_error : Thrown
  port_error : KnowledgePortError → Thrown
  other : (code status : Value) → Thrown

pub data Reply : Type 0 where
  returned : Value → Reply
  throws : Thrown → Reply

abbrev pub legacy_code : String → String
legacy_code c =
    if c == "DEPENDENCY_UNAVAILABLE"
    then "UNAVAILABLE"
    else if c == "KNOWLEDGE_UNAVAILABLE"
    then "UNAVAILABLE"
    else if c == "UNAUTHENTICATED"
    then "AUTH_FAILED"
    else if c == "FORBIDDEN"
    then "AUTH_FAILED"
    else if c == "IDEMPOTENCY_CONFLICT"
    then "CONFLICT"
    else c

abbrev text_code : Value → Option String
text_code (string s) = some s
text_code _ = none

-- A code without a definition becomes UNAVAILABLE.
unfoldable pub mapped_code : Option String → String
mapped_code none = "UNAVAILABLE"
mapped_code (some c) =
    if is_kb_error (disposition_of (legacy_code c)) then legacy_code c else "UNAVAILABLE"

abbrev status_for : Value → String → ℤ
status_for (number (int z)) code = z
status_for _ code = if code == "UNAVAILABLE" then pos 503 else pos 500

-- `new KnowledgePortError(code, …)`.
abbrev pub new_port_error : String → ℤ → Option String → Option String → KnowledgePortError
new_port_error code status operation provider_code = record {
  code = code;
  status = status;
  retryable = is_retryable_kb_error code;
  reconciliation_required = requires_kb_error_reconciliation code;
  operation = operation;
  provider_code = provider_code;
}

unfoldable pub normalize_provider_error : Value → Value → String → KnowledgePortError
unfolding mapped_code
normalize_provider_error code status operation =
    new_port_error (mapped_code (text_code code)) (status_for status (mapped_code (text_code code)))
      (some operation) (text_code code)

abbrev pub answered : Check → Value → Reply
answered (ok _) v = returned v
answered (err _) v = throws contract_error

unfoldable pub call_provider : Reply → String → (Value → Check) → Reply
unfolding normalize_provider_error
call_provider (returned v) operation check = answered (check v) v
call_provider (throws contract_error) operation check = throws contract_error
call_provider (throws (port_error e)) operation check = throws (port_error e)
call_provider (throws (other code status)) operation check =
    throws (port_error (normalize_provider_error code status operation))

unfoldable pub assert_input : Operation → Value → Check
assert_input query = assert_query_input
assert_input read_node = assert_node_read_input
assert_input resolve_reference = assert_resolve_reference_input
assert_input submit_evidence = assert_evidence_input
assert_input create_challenge = assert_challenge_input
assert_input read_personal_overlay = assert_overlay_input
assert_input declare_belief = assert_belief_input
assert_input resolve_personal_challenge = assert_resolve_challenge_input

unfoldable pub assert_answer : Operation → Value → Value → Check
assert_answer query input = assert_query_result
assert_answer read_node input = assert_node_read_result
assert_answer resolve_reference input = assert_resolve_reference_result
assert_answer submit_evidence input = assert_evidence_result
assert_answer create_challenge input = assert_challenge_result
assert_answer read_personal_overlay input = assert_overlay_result (get "subject_id" input)
assert_answer declare_belief input = assert_belief_result (get "subject_id" input)
assert_answer resolve_personal_challenge input =
    assert_resolve_challenge_result (get "subject_id" input)

abbrev pub checked_call : Check → Reply → Reply
checked_call (err _) reply = throws contract_error
checked_call (ok _) reply = reply

-- One method of the port, around the provider's function.
unfoldable pub port_call : Operation → (Value → Reply) → Value → Reply
unfolding assert_input assert_answer call_provider
port_call operation provider input =
    checked_call (assert_input operation input)
      (call_provider (provider input) (operation_name operation) (assert_answer operation input))

-- The function under each name, if there is one.
abbrev pub Provider : Type 0
Provider = String → Option (Value → Reply)

abbrev has_method : Option (Value → Reply) → Bool
has_method none = false
has_method (some f) = true

require_methods : Provider → List Operation → Check
require_methods p [] = ok tt
require_methods p (o ∷ os) =
    fail_if (not (has_method (p (operation_name o)))) invalid_knowledge_port_contract
    >> require_methods p os

abbrev pub operations : List Operation
operations =
    query ∷ read_node ∷ resolve_reference ∷ submit_evidence ∷ create_challenge
    ∷ read_personal_overlay ∷ declare_belief ∷ resolve_personal_challenge ∷ []

-- `none` stands for a provider that is no object.
unfoldable pub assert_knowledge_port_provider : Option Provider → Result Provider
unfolding require_methods
assert_knowledge_port_provider none = err invalid_knowledge_port_contract
assert_knowledge_port_provider (some p) = do require_methods p operations; ok p

abbrev method : Option (Value → Reply) → Operation → Value → Reply
method none o input = throws contract_error
method (some f) o input = port_call o f input

unfoldable pub create_knowledge_port : Option Provider → Result (Operation → Value → Reply)
unfolding assert_knowledge_port_provider
create_knowledge_port provider = do
  p ← assert_knowledge_port_provider provider
  ok (λ o input. method (p (operation_name o)) o input)
