-- ===== src/Knowledge/Answers.antt =====
-- The checks of what a provider answers.
use new_humans.Prelude.{String, not, List, [], ◌∷◌, none, some, ◌>>◌}
use new_humans.Js.{when_defined, same_text, Value, get}
use new_humans.Knowledge.Refs.{
  Check, refuse_if, assert_plain_object, assert_non_empty_string, when_present,
  assert_non_negative_integer, assert_one_of, assert_knowledge_ref, assert_items,
}
use new_humans.Knowledge.Inputs.{node_kinds, evidence_kinds, challenge_kinds, correction_kinds}

abbrev pub knowledge_judgments : List String
knowledge_judgments = "UNASSESSED" ∷ "ACCEPTED" ∷ "CONFIRMED_WRONG" ∷ []

abbrev query_item : Value → Check
query_item item = assert_plain_object item >> assert_knowledge_ref node_kinds (get "ref" item)

unfoldable pub assert_query_result : Value → Check
assert_query_result r = do
  assert_plain_object r
  assert_items query_item (get "items" r)
  when_present (get "next_cursor" r) assert_non_empty_string

unfoldable pub assert_node_read_result : Value → Check
assert_node_read_result r = do
  assert_plain_object r
  assert_knowledge_ref node_kinds (get "ref" r)
  when_defined (get "evidence_refs" r)
      λ refs. assert_items (assert_knowledge_ref evidence_kinds) refs
  when_defined (get "challenge_refs" r)
      λ refs. assert_items (assert_knowledge_ref challenge_kinds) refs

unfoldable pub assert_resolve_reference_result : Value → Check
assert_resolve_reference_result r = do
  assert_plain_object r
  assert_knowledge_ref none (get "ref" r)
  when_present (get "canonical_ref" r) λ v. assert_knowledge_ref none v
  when_defined (get "status" r) assert_non_empty_string

unfoldable pub assert_evidence_result : Value → Check
assert_evidence_result r = do
  assert_plain_object r
  assert_knowledge_ref evidence_kinds (get "evidence_ref" r)
  when_present (get "duplicate_of" r) λ v. assert_knowledge_ref evidence_kinds v

unfoldable pub assert_challenge_result : Value → Check
assert_challenge_result r = do
  assert_plain_object r
  assert_knowledge_ref challenge_kinds (get "challenge_ref" r)
  when_defined (get "status" r) assert_non_empty_string

overlay_item : Value → Check
overlay_item item = do
  assert_plain_object item
  assert_knowledge_ref node_kinds (get "node_ref" item)
  assert_one_of knowledge_judgments (get "judgment" item)
  assert_non_negative_integer (get "pending_challenge_count" item)
  when_defined (get "correction_refs" item)
      λ refs. assert_items (assert_knowledge_ref correction_kinds) refs

unfoldable pub assert_overlay_result : Value → Value → Check
unfolding overlay_item
assert_overlay_result subject r = do
  assert_plain_object r
  refuse_if (not (same_text (get "subject_id" r) subject))
  assert_items overlay_item (get "items" r)

unfoldable pub assert_belief_result : Value → Value → Check
assert_belief_result subject r = do
  assert_plain_object r
  refuse_if (not (same_text (get "subject_id" r) subject))
  assert_knowledge_ref (some ("BELIEF" ∷ [])) (get "belief_ref" r)
  assert_one_of knowledge_judgments (get "judgment" r)

unfoldable pub assert_resolve_challenge_result : Value → Value → Check
assert_resolve_challenge_result subject r = do
  assert_plain_object r
  refuse_if (not (same_text (get "subject_id" r) subject))
  assert_knowledge_ref challenge_kinds (get "challenge_ref" r)
  assert_one_of knowledge_judgments (get "judgment" r)
  assert_non_negative_integer (get "remaining_pending" r)
