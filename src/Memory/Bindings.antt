-- ===== src/Memory/Bindings.antt =====
-- The checks of values, bindings, descriptors and provenance.
use new_humans.Prelude.{
  zero, suc, ℕ, String, Bool, true, false, not, List, [], ◌∷◌, Result, ok, fail_if, ◌>>◌, ◌>>=◌,
  ◌&&◌, ◌||◌, ◌==◌, if◌then◌else◌, ltb, eqb, invalid_memory_contract, binding_missing, auth_failed,
  invalid_memory_authority, model_scoped_long_term_memory_forbidden,
}
use new_humans.Platform.{Platform}
use new_humans.Js.{
  when_defined, is_one_of, same_text, is_false, Value, string, get, is_undefined, is_string,
  is_object,
}
use new_humans.Js.Text.{codes, length_of, within, is_digit}

abbrev pub memory_authority : String
memory_authority = "KNOWLEDGE_BALL"

abbrev pub Check : Type 0
Check = Result (Unit {0})

-- `[0-9a-f]` and its like, with the flag `i`.
abbrev is_hex : ℕ → Bool
is_hex c = is_digit c || within b'a' b'f' c || within b'A' b'F' c

abbrev is_version_digit : ℕ → Bool
is_version_digit c = within b'1' b'5' c

abbrev is_variant_digit : ℕ → Bool
is_variant_digit c = eqb c b'8' || eqb c b'9' || within b'a' b'b' c || within b'A' b'B' c

abbrev is_dash : ℕ → Bool
is_dash c = eqb c b'-'

hexes : ℕ → List (ℕ → Bool) → List (ℕ → Bool)
hexes zero rest = rest
hexes (suc n) rest = is_hex ∷ hexes n rest

matches_all : List (ℕ → Bool) → List ℕ → Bool
matches_all [] [] = true
matches_all (t ∷ ts) (c ∷ cs) = t c && matches_all ts cs
matches_all _ _ = false

-- `UUID_RE`.
uuid_pattern : List (ℕ → Bool)
unfolding hexes
uuid_pattern = hexes 8 (
    is_dash
    ∷ hexes 4 (
        is_dash
        ∷ is_version_digit
        ∷ hexes 3 (is_dash ∷ is_variant_digit ∷ hexes 3 (is_dash ∷ hexes 12 []))))

unfoldable pub is_uuid : String → Bool
unfolding matches_all uuid_pattern
is_uuid s = matches_all uuid_pattern (codes s)

abbrev is_uuid_value : Value → Bool
is_uuid_value (string s) = is_uuid s
is_uuid_value _ = false

unfoldable pub require_uuid : Value → Check
unfolding is_uuid
require_uuid v = fail_if (not (is_uuid_value v)) invalid_memory_contract

abbrev is_text_within : ℕ → Value → Bool
is_text_within max (string s) = not (s == "") && not (ltb max (length_of s))
is_text_within max _ = false

unfoldable pub require_string : ℕ → Value → Check
unfolding length_of
require_string max v = fail_if (not (is_text_within max v)) invalid_memory_contract

unfoldable pub require_object : Value → Check
require_object v = fail_if (not (is_object v)) invalid_memory_contract

abbrev is_date : Platform → Value → Bool
is_date p (string s) = p.is_timestamp s
is_date p _ = false

unfoldable pub require_date_time : Platform → Value → Check
require_date_time p v = do require_string 128 v; fail_if (not (is_date p v)) invalid_memory_contract

abbrev pub is_hpa : Value → Bool
is_hpa binding = is_string (get "mode" binding) "HPA"

unfoldable pub assert_mode : Value → Check
assert_mode binding =
    let for_human = do
      fail_if (not (is_string (get "actor_entity_type" binding) "AGENT")) auth_failed
      fail_if (is_undefined (get "human_subject_id" binding)) binding_missing
      require_uuid (get "human_subject_id" binding)
    in if is_hpa binding
      then for_human
      else fail_if (not (is_undefined (get "human_subject_id" binding))) auth_failed

unfoldable pub assert_trusted_binding : Value → Check
unfolding assert_mode get
assert_trusted_binding binding = do
  fail_if (not (is_object binding)) binding_missing
  require_string 256 (get "world_id" binding)
  require_uuid (get "actor_entity_id" binding)
  fail_if (not (is_one_of ("HUMAN" ∷ "AGENT" ∷ []) (get "actor_entity_type" binding))) auth_failed
  fail_if (not (is_one_of ("SELF" ∷ "HPA" ∷ []) (get "mode" binding))) auth_failed
  fail_if (not (is_string (get "binding_authority" binding) "M01")) auth_failed
  assert_mode binding

abbrev pub subject_of : Value → Value
subject_of binding =
    if is_hpa binding then get "human_subject_id" binding else get "actor_entity_id" binding

unfoldable pub resolve_memory_subject : Value → Result Value
unfolding get
resolve_memory_subject binding = do assert_trusted_binding binding; ok (subject_of binding)

unfoldable pub assert_memory_subject_scope : Value → Value → Result Value
assert_memory_subject_scope binding subject = do
  require_uuid subject
  resolved ← resolve_memory_subject binding
  fail_if (not (same_text resolved subject)) auth_failed
  ok resolved

unfoldable pub assert_memory_authority_descriptor : Value → Check
unfolding get
assert_memory_authority_descriptor d = do
  require_object d
  fail_if (not (is_string (get "authority" d) memory_authority)) invalid_memory_authority
  fail_if (not (is_false (get "model_scoped_long_term_memory" d)))
      model_scoped_long_term_memory_forbidden

unfoldable pub assert_source_provenance : Platform → Value → Check
unfolding get
assert_source_provenance p v = do
  require_object v
  require_string 512 (get "source_id" v)
  require_string 128 (get "source_kind" v)
  require_string 128 (get "source_authority" v)
  require_date_time p (get "recorded_at" v)
  require_uuid (get "executor_entity_id" v)
  when_defined (get "world_event_id" v) (require_string 512)
  when_defined (get "upstream_source_id" v) (require_string 512)
  when_defined (get "content_digest" v) (require_string 512)
