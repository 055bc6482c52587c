-- ===== src/Knowledge/Calls.antt =====
-- How a call of the port ends, by what was asked and what the provider did.
use new_humans.Prelude.{
  String, Bool, true, false, Option, none, some, ok, err, Code, Result-cases, ◌≡◌, refl, inl, inr,
  if◌then◌else◌,
}
use new_humans.Js.{Value}
use new_humans.Kb.{
  disposition_of, is_retryable_kb_error, requires_kb_error_reconciliation, is_kb_error,
}
use new_humans.Knowledge.Refs.{Check}
use new_humans.Knowledge.Port.{
  answered, Operation, operation_name, KnowledgePortError, contract_error, port_error, other, Reply,
  returned, throws, legacy_code, mapped_code, normalize_provider_error, call_provider, assert_input,
  assert_answer, port_call,
}

-- An error that the port makes: its code is one of Knowledge Ball's, its flags are those of the code,
-- and it names the operation.
pub record Canonical (o : Operation) (e : KnowledgePortError) : Type 0 where
  pub known : is_kb_error (disposition_of e.code) ≡ true
  pub retryable : e.retryable ≡ is_retryable_kb_error e.code
  pub reconciliation : e.reconciliation_required ≡ requires_kb_error_reconciliation e.code
  pub operation : e.operation ≡ some (operation_name o)

-- The ends of a call. What the provider throws of the port's own errors passes.
pub data Ending (o : Operation) (f : Value → Reply) (input : Value) : Reply → Type 0 where
  refused : {c : Code} → assert_input o input ≡ err c → Ending o f input (throws contract_error)
  answers :
      {v : Value}
      → assert_input o input ≡ ok tt
      → f input ≡ returned v
      → assert_answer o input v ≡ ok tt
      → Ending o f input (returned v)
  rejects :
      {v : Value} {c : Code}
      → assert_input o input ≡ ok tt
      → f input ≡ returned v
      → assert_answer o input v ≡ err c
      → Ending o f input (throws contract_error)
  passes_contract :
      assert_input o input ≡ ok tt
      → f input ≡ throws contract_error
      → Ending o f input (throws contract_error)
  passes :
      {e : KnowledgePortError}
      → assert_input o input ≡ ok tt
      → f input ≡ throws (port_error e)
      → Ending o f input (throws (port_error e))
  normalizes :
      {e : KnowledgePortError} {code status : Value}
      → assert_input o input ≡ ok tt
      → f input ≡ throws (other code status)
      → Canonical o e
      → Ending o f input (throws (port_error e))

known_or_unavailable :
    (c : String) (b : Bool)
    → is_kb_error (disposition_of c) ≡ b
    → is_kb_error (disposition_of (if b then c else "UNAVAILABLE")) ≡ true
unfolding disposition_of
known_or_unavailable c true h = h
known_or_unavailable c false h = refl

mapped_known : (c : Option String) → is_kb_error (disposition_of (mapped_code c)) ≡ true
unfolding mapped_code disposition_of
mapped_known none = refl
mapped_known (some c) = known_or_unavailable (legacy_code c) _ refl

normalized-Canonical :
    (o : Operation) (code status : Value)
    → Canonical o (normalize_provider_error code status (operation_name o))
unfolding normalize_provider_error
normalized-Canonical o code status = record {
  known = mapped_known _;
  retryable = refl;
  reconciliation = refl;
  operation = refl;
}

checked_answer :
    (o : Operation) (f : Value → Reply) (input v : Value) (checked : Check)
    → assert_answer o input v ≡ checked
    → assert_input o input ≡ ok tt
    → f input ≡ returned v
    → Ending o f input (answered checked v)
checked_answer o f input v (ok tt) good asked e = answers asked e good
checked_answer o f input v (err c) bad asked e = rejects asked e bad

answered-Ending :
    (o : Operation) (f : Value → Reply) (input : Value) (r : Reply)
    → assert_input o input ≡ ok tt
    → f input ≡ r
    → Ending o f input (call_provider r (operation_name o) (assert_answer o input))
unfolding call_provider
answered-Ending o f input (returned v) asked e =
    checked_answer o f input v (assert_answer o input v) refl asked e
answered-Ending o f input (throws contract_error) asked e = passes_contract asked e
answered-Ending o f input (throws (port_error x)) asked e = passes asked e
answered-Ending o f input (throws (other code status)) asked e =
    normalizes asked e (normalized-Canonical o code status)

-- Every call ends in one of six ways: it is refused unasked, the provider answers and the answer is
-- returned after its check, the answer is rejected, one of the port's own errors passes, or another
-- error becomes one with a code of Knowledge Ball, the flags of that code and the operation's name.
pub call-Ending :
    (o : Operation) (f : Value → Reply) (input : Value) → Ending o f input (port_call o f input)
unfolding port_call
call-Ending o f input = elim (Result-cases (assert_input o input)) [
  | inl (done, asked) ↦ rw asked (answered-Ending o f input (f input) asked refl)
  | inr (c, bad) ↦ rw bad (refused bad)
]
