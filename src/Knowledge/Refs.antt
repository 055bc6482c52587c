-- ===== src/Knowledge/Refs.antt =====
-- The checks of values and references, and the key of a reference.
use new_humans.Prelude.{
  String, Bool, true, false, not, List, [], ◌∷◌, Option, none, some, Result, ok, err, fail_if, ◌>>◌,
  ◌||◌, if◌then◌else◌, invalid_knowledge_port_contract,
}
use new_humans.Prelude.Int.{pos, leb_ℤ}
use new_humans.Js.{
  when_defined, is_one_of, text_of, Value, number, int, string, array, Items, nil, cons, get,
  is_undefined, is_null, is_object,
}
use new_humans.Js.Text.{is_blank}
use new_humans.Js.Json.{◌<>◌}

abbrev pub Check : Type 0
Check = Result (Unit {0})

-- `if (bad) fail(…)`.
abbrev pub refuse_if : Bool → Check
refuse_if bad = fail_if bad invalid_knowledge_port_contract

abbrev pub assert_plain_object : Value → Check
assert_plain_object v = refuse_if (not (is_object v))

abbrev is_full_text : Value → Bool
is_full_text (string s) = not (is_blank s)
is_full_text _ = false

unfoldable pub assert_non_empty_string : Value → Check
unfolding is_blank
assert_non_empty_string v = refuse_if (not (is_full_text v))

abbrev pub is_non_negative_integer : Value → Bool
is_non_negative_integer (number (int z)) = leb_ℤ (pos 0) z
is_non_negative_integer _ = false

-- `v !== undefined && v !== null`.
abbrev pub when_present : Value → (Value → Check) → Check
when_present v check = if is_undefined v || is_null v then ok tt else check v

abbrev pub assert_non_negative_integer : Value → Check
assert_non_negative_integer v = refuse_if (not (is_non_negative_integer v))

unfoldable pub assert_optional_non_negative_integer : Value → Check
assert_optional_non_negative_integer v = when_defined v assert_non_negative_integer

abbrev pub assert_one_of : List String → Value → Check
assert_one_of names v = refuse_if (not (is_one_of names v))

abbrev pub knowledge_ref_kinds : List String
knowledge_ref_kinds =
    "NODE" ∷ "CLAIM" ∷ "REFERENCE" ∷ "SOURCE" ∷ "ASSERTION" ∷ "EVIDENCE" ∷ "CHALLENGE" ∷ "BELIEF"
    ∷ "JOB" ∷ "CORRECTION" ∷ []

abbrev kind_allowed : Option (List String) → Value → Bool
kind_allowed none v = true
kind_allowed (some kinds) v = is_one_of kinds v

abbrev is_string_or_number : Value → Bool
is_string_or_number (string _) = true
is_string_or_number (number _) = true
is_string_or_number _ = false

unfoldable pub assert_knowledge_ref : Option (List String) → Value → Check
unfolding get
assert_knowledge_ref kinds ref = do
  assert_plain_object ref
  assert_non_empty_string (get "provider" ref)
  assert_non_empty_string (get "namespace" ref)
  assert_non_empty_string (get "id" ref)
  assert_one_of knowledge_ref_kinds (get "kind" ref)
  refuse_if (not (kind_allowed kinds (get "kind" ref)))
  when_defined (get "revision" ref) λ v. refuse_if (not (is_string_or_number v))

-- The items of an array, in order; the first that fails ends the loop.
unfoldable pub all_items : (Value → Check) → Items → Check
all_items check nil = ok tt
all_items check (cons v vs) = do check v; all_items check vs

abbrev pub assert_items : (Value → Check) → Value → Check
assert_items check (array vs) = all_items check vs
assert_items check _ = err invalid_knowledge_port_contract

-- The four parts, joined by U+0000; after the check each is a text.
abbrev pub key_of : Value → String
key_of ref =
    text_of (get "provider" ref)
    <> "\0"
    <> text_of (get "namespace" ref)
    <> "\0"
    <> text_of (get "kind" ref)
    <> "\0"
    <> text_of (get "id" ref)

unfoldable pub knowledge_ref_key : Value → Result String
unfolding get
knowledge_ref_key ref = do assert_knowledge_ref none ref; ok (key_of ref)
