-- ===== src/Knowledge/Inputs.antt =====
-- The checks of what a caller asks.
use new_humans.Prelude.{String, List, [], ◌∷◌, Option, none, some, ok, ◌>>◌, ◌&&◌, if◌then◌else◌}
use new_humans.Js.{when_defined, Value, get, is_undefined, is_string}
use new_humans.Knowledge.Refs.{
  Check, refuse_if, assert_plain_object, assert_non_empty_string,
  assert_optional_non_negative_integer, assert_one_of, assert_knowledge_ref, assert_items,
}

abbrev pub personal_challenge_decisions : List String
personal_challenge_decisions = "UPHOLD" ∷ "ACCEPT_CORRECTION" ∷ []

-- The kinds that an operation takes.
abbrev pub node_kinds : Option (List String)
node_kinds = some ("NODE" ∷ "CLAIM" ∷ "REFERENCE" ∷ "ASSERTION" ∷ [])

abbrev pub evidence_kinds : Option (List String)
evidence_kinds = some ("EVIDENCE" ∷ [])

abbrev pub challenge_kinds : Option (List String)
challenge_kinds = some ("CHALLENGE" ∷ [])

abbrev pub source_kinds : Option (List String)
source_kinds = some ("SOURCE" ∷ "REFERENCE" ∷ [])

abbrev pub correction_kinds : Option (List String)
correction_kinds = some ("CORRECTION" ∷ "NODE" ∷ "CLAIM" ∷ "REFERENCE" ∷ [])

unfoldable pub assert_query_input : Value → Check
assert_query_input q = do
  assert_plain_object q
  refuse_if
      (is_undefined (get "text" q) && is_undefined (get "filters" q) && is_undefined (get "refs" q))
  when_defined (get "text" q) assert_non_empty_string
  when_defined (get "refs" q) λ refs. assert_items (assert_knowledge_ref none) refs
  assert_optional_non_negative_integer (get "limit" q)
  when_defined (get "subject_id" q) assert_non_empty_string

unfoldable pub assert_node_read_input : Value → Check
assert_node_read_input q = do assert_plain_object q; assert_knowledge_ref node_kinds (get "ref" q)

unfoldable pub assert_resolve_reference_input : Value → Check
assert_resolve_reference_input q = do assert_plain_object q; assert_knowledge_ref none (get "ref" q)

unfoldable pub assert_evidence_input : Value → Check
assert_evidence_input q = do
  assert_plain_object q
  assert_knowledge_ref node_kinds (get "target_ref" q)
  assert_knowledge_ref source_kinds (get "source_ref" q)
  assert_one_of ("SUPPORTS" ∷ "REFUTES" ∷ "CONTEXT" ∷ []) (get "stance" q)
  assert_non_empty_string (get "idempotency_key" q)
  assert_optional_non_negative_integer (get "expected_version" q)

unfoldable pub assert_challenge_input : Value → Check
assert_challenge_input q = do
  assert_plain_object q
  assert_knowledge_ref node_kinds (get "target_ref" q)
  when_defined (get "evidence_refs" q)
      λ refs. assert_items (assert_knowledge_ref evidence_kinds) refs
  assert_non_empty_string (get "objection_type" q)
  assert_non_empty_string (get "requested_outcome" q)
  assert_non_empty_string (get "idempotency_key" q)
  assert_optional_non_negative_integer (get "expected_version" q)

unfoldable pub assert_overlay_input : Value → Check
assert_overlay_input q = do
  assert_plain_object q
  assert_non_empty_string (get "subject_id" q)
  when_defined (get "node_refs" q) λ refs. assert_items (assert_knowledge_ref node_kinds) refs
  assert_optional_non_negative_integer (get "limit" q)

unfoldable pub assert_belief_input : Value → Check
assert_belief_input q = do
  assert_plain_object q
  assert_non_empty_string (get "subject_id" q)
  assert_knowledge_ref node_kinds (get "target_ref" q)
  assert_one_of ("ACCEPT" ∷ "RETRACT" ∷ []) (get "position" q)
  assert_non_empty_string (get "idempotency_key" q)
  assert_optional_non_negative_integer (get "expected_version" q)
  when_defined (get "confirmation_ref" q) assert_non_empty_string

unfoldable pub assert_resolve_challenge_input : Value → Check
assert_resolve_challenge_input q = do
  assert_plain_object q
  assert_non_empty_string (get "subject_id" q)
  assert_knowledge_ref challenge_kinds (get "challenge_ref" q)
  assert_one_of personal_challenge_decisions (get "decision" q)
  if is_string (get "decision" q) "ACCEPT_CORRECTION"
      then assert_knowledge_ref correction_kinds (get "correction_ref" q)
      else ok tt
  assert_non_empty_string (get "evidence_version" q)
  assert_non_empty_string (get "idempotency_key" q)
  assert_optional_non_negative_integer (get "expected_version" q)
  when_defined (get "confirmation_ref" q) assert_non_empty_string
