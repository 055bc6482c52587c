-- ===== src/Knowledge/Tests.antt =====
-- A belief that is declared, and the key of its target.
use new_humans.Prelude.{String, ok, ◌≡◌, refl, arith}
use new_humans.Js.{text_of, Value, string, object, null, field, end, get}
use new_humans.Knowledge.Refs.{
  assert_optional_non_negative_integer, knowledge_ref_key, assert_knowledge_ref,
  assert_non_empty_string,
}
use new_humans.Knowledge.Inputs.{assert_belief_input}
use new_humans.Knowledge.Answers.{assert_belief_result}
use new_humans.Knowledge.Port.{declare_belief, Reply, returned, throws, other, port_call}
use new_humans.Knowledge.Calls.{Ending, call-Ending}
use new_humans.Knowledge.Subjects.{returned-OwnSubject}
use new_humans.Knowledge.Keys.{ref_key_inj}

abbrev ref : String → Value
ref kind = object (
    field "provider" (string "kb") (
      field "namespace" (string "main")
        (field "id" (string "n1") (field "kind" (string kind) end))))

abbrev believe : Value
believe = object (
    field "subject_id" (string "ann") (
      field "target_ref" (ref "CLAIM")
        (field "position" (string "ACCEPT") (field "idempotency_key" (string "k1") end))))

abbrev believed : Value
believed = object (
    field "subject_id" (string "ann")
      (field "belief_ref" (ref "BELIEF") (field "judgment" (string "ACCEPTED") end)))

abbrev provider : Value → Reply
provider v = returned believed

believed-returned : port_call declare_belief provider believe ≡ returned believed
unfolding port_call assert_belief_input assert_non_empty_string get assert_knowledge_ref
    assert_optional_non_negative_integer assert_belief_result
believed-returned = refl

returned-OwnSubject_example :
    (s : String) × (get "subject_id" believed ≡ string s) × (get "subject_id" believe ≡ string s)
returned-OwnSubject_example =
    returned-OwnSubject declare_belief provider believe believed refl believed-returned

call-Ending_example :
    Ending declare_belief
      (λ v. throws (other (string "FORBIDDEN") null))
      believe
      (port_call declare_belief (λ v. throws (other (string "FORBIDDEN") null)) believe)
call-Ending_example =
    call-Ending declare_belief (λ v. throws (other (string "FORBIDDEN") null)) believe

key_made : knowledge_ref_key (ref "CLAIM") ≡ ok "kb\0main\0CLAIM\0n1"
unfolding knowledge_ref_key assert_knowledge_ref assert_non_empty_string
key_made = refl

ref_key_inj_example :
    (text_of (get "provider" (ref "CLAIM")) ≡ text_of (get "provider" (ref "CLAIM")))
    × (text_of (get "namespace" (ref "CLAIM")) ≡ text_of (get "namespace" (ref "CLAIM")))
    × (text_of (get "kind" (ref "CLAIM")) ≡ text_of (get "kind" (ref "CLAIM")))
    × (text_of (get "id" (ref "CLAIM")) ≡ text_of (get "id" (ref "CLAIM")))
unfolding get
ref_key_inj_example =
    ref_key_inj (ref "CLAIM") (ref "CLAIM") "kb\0main\0CLAIM\0n1" key_made key_made (ground arith)
      (ground arith)
