-- ===== src/Social/Rules.antt =====
-- The checks of src/services/social_relationships.js on types, states, periods, parties and sources.
-- An argument that is left out is `none`.
use new_humans.Prelude.{
  Code, String, Bool, true, false, not, List, [], ◌∷◌, Option, none, some, Result, ok, err, fail_if,
  ◌>>◌, ◌>>=◌, ◌==◌, ◌||◌, includes, if◌then◌else◌, invalid_relationship_type,
  invalid_relationship_status, invalid_relationship_dispute_status, invalid_validity_period,
  invalid_relationship_parties, invalid_timestamp, invalid_source_ref, relationship_mode_mismatch,
}
use new_humans.Prelude.Int.{ℤ, pos, leb_ℤ, ltb_ℤ}
use new_humans.Js.{Value, number, int, string}
use new_humans.Js.Text.{trim, is_blank}
use new_humans.Js.Order.{key_le}
use new_humans.Social.Rows.{
  is_mutual_mode, Host, Mode, unilateral, mutual_mode, derived, Status, active, ended, Dispute,
  undisputed, under_dispute, resolved, State, Period, Role, subject, object, Provenance,
}

pub record Rule : Type 0 where
  pub mode : Mode
  pub source_kind : String
  pub record_type : String

abbrev from_records : String → Rule
from_records kind = record { mode = derived; source_kind = kind; record_type = kind }

-- `TYPE_RULES`.
abbrev pub type_rules : List (String × Rule)
type_rules =
    (
      "considers_friend",
      record { mode = unilateral; source_kind = "ENTITY_DECLARATION"; record_type = "DECLARATION" },
    )
    ∷ (
      "mutual_friendship",
      record {
        mode = mutual_mode;
        source_kind = "MUTUAL_CONFIRMATION";
        record_type = "CONFIRMATION";
      },
    )
    ∷ ("worked_with", from_records "CONTRACT")
    ∷ ("completed_contract_with", from_records "CONTRACT")
    ∷ ("employed_by", from_records "CONTRACT")
    ∷ ("member_of", from_records "MEMBERSHIP")
    ∷ ("manages", from_records "ROLE_ASSIGNMENT")
    ∷ ("created_by", from_records "BIRTH_PROTOCOL")
    ∷ ("parent_of", from_records "BIRTH_PROTOCOL")
    ∷ []

unfoldable pub find_rule : String → List (String × Rule) → Option Rule
find_rule kind [] = none
find_rule kind (r ∷ rs) = let rest = find_rule kind rs in if kind == r.0 then some r.1 else rest

-- What every object inherits: `TYPE_RULES['constructor']` is a function, which has no `mode`.
abbrev pub inherited_names : List String
inherited_names =
    "constructor" ∷ "toString" ∷ "toLocaleString" ∷ "valueOf" ∷ "hasOwnProperty" ∷ "isPrototypeOf"
    ∷ "propertyIsEnumerable" ∷ "__proto__" ∷ "__defineGetter__" ∷ "__defineSetter__"
    ∷ "__lookupGetter__" ∷ "__lookupSetter__" ∷ []

unfoldable pub rule_or_inherited : String → Option Rule → Result (String × Option Rule)
rule_or_inherited kind (some r) = ok (kind, some r)
rule_or_inherited kind none =
    fail_if (not (includes inherited_names kind)) invalid_relationship_type >> ok (kind, none)

abbrev pub text_or_empty : Option String → String
text_or_empty none = ""
text_or_empty (some s) = s

-- The rule is `none` for an inherited name.
unfoldable pub require_relationship_type : Option String → Result (String × Option Rule)
unfolding rule_or_inherited find_rule trim
require_relationship_type kind =
    rule_or_inherited (trim (text_or_empty kind)) (find_rule (trim (text_or_empty kind)) type_rules)

abbrev pub is_mutual : Option Rule → Bool
is_mutual (some r) = is_mutual_mode r.mode
is_mutual none = false

abbrev pub mode_text : Mode → String
mode_text unilateral = "UNILATERAL"
mode_text mutual_mode = "MUTUAL"
mode_text derived = "DERIVED"

-- `mode !== rule.mode`.
unfoldable pub require_mode : String → Option Rule → Result Rule
require_mode mode none = err relationship_mode_mismatch
require_mode mode (some r) =
    fail_if (not (mode == mode_text r.mode)) relationship_mode_mismatch >> ok r

unfoldable pub status_of : String → Result Status
status_of s =
    if s == "ACTIVE"
    then ok active
    else if s == "ENDED"
    then ok ended
    else err invalid_relationship_status

unfoldable pub dispute_of : String → Result Dispute
dispute_of s =
    if s == "NONE"
    then ok undisputed
    else if s == "OPEN"
    then ok under_dispute
    else if s == "RESOLVED"
    then ok resolved
    else err invalid_relationship_dispute_status

abbrev text_or : String → Option String → String
text_or default none = default
text_or default (some s) = s

unfoldable pub require_state : Host → Option String → Option String → Result State
unfolding status_of dispute_of
require_state h status dispute = do
  s ← status_of (h.upper_case (text_or "ACTIVE" status))
  d ← dispute_of (h.upper_case (text_or "NONE" dispute))
  ok (record { status = s; dispute_status = d })

abbrev pub is_ended : Status → Bool
is_ended ended = true
is_ended active = false

unfoldable pub date_or : Option ℤ → Code → Result ℤ
date_or none e = err e
date_or (some d) e = ok d

unfoldable pub date : Host → Option String → Option ℤ
date h none = none
date h (some s) = h.date_of s

unfoldable pub until : Host → Status → ℤ → Option String → Result Period
unfolding date_or
until h status from none =
    fail_if (is_ended status) invalid_validity_period
    >> ok (record { valid_from = from; valid_until = none })
until h status from (some s) = do
  to ← date_or (h.date_of s) invalid_validity_period
  fail_if (leb_ℤ to from) invalid_validity_period
  ok (record { valid_from = from; valid_until = some to })

unfoldable pub require_period : Host → Status → Option String → Option String → Result Period
unfolding until date_or date
require_period h status valid_from valid_until = do
  from ← date_or (date h valid_from) invalid_validity_period
  until h status from valid_until

-- `String(a) < String(b)`.
abbrev pub before : String → String → Bool
before a b = not (key_le b a)

unfoldable pub canonical_mutual_pair : String → String → Result (String × String)
unfolding key_le
canonical_mutual_pair a b =
    fail_if (a == "" || b == "" || a == b) invalid_relationship_parties
    >> ok (if before a b then (a, b) else (b, a))

unfoldable pub actor_provenance : Rule → String → ℤ → Role → Provenance
actor_provenance rule action occurred_at role = record {
  source_kind = rule.source_kind;
  records =
      record {
        record_type = rule.record_type;
        record_id = action;
        participant_role = some role;
        occurred_at = occurred_at;
        record_version = none;
      }
      ∷ [];
}

pub record SourceRef : Type 0 where
  pub kind : Option String
  pub id : Option String
  pub source_occurred_at : Option String
  pub role : Option String
  pub source_version : Option Value

unfoldable pub role_of : String → Result Role
role_of s =
    if s == "SUBJECT"
    then ok subject
    else if s == "OBJECT"
    then ok object
    else err invalid_source_ref

unfoldable pub optional_role : Host → Option String → Result (Option Role)
unfolding role_of
optional_role h none = ok none
optional_role h (some s) = do r ← role_of (h.upper_case s); ok (some r)

-- A version is an integer from 1 or a text that is not blank.
abbrev pub is_version : Value → Bool
is_version (number (int z)) = ltb_ℤ (pos 0) z
is_version (string s) = not (is_blank s)
is_version _ = false

unfoldable pub optional_version : Option Value → Result (Option Value)
unfolding is_blank
optional_version none = ok none
optional_version (some v) = fail_if (not (is_version v)) invalid_source_ref >> ok (some v)

abbrev pub is_none {ℓ} : {A : Type ℓ} → Option A → Bool
is_none none = true
is_none (some _) = false

-- `none` is a `sourceRef` that is no object.
unfoldable pub derived_provenance : Host → Rule → Option SourceRef → Result Provenance
unfolding optional_role optional_version date date_or trim
derived_provenance h rule none = err invalid_source_ref
derived_provenance h rule (some s) = do
  fail_if
      (not (h.upper_case (trim (text_or_empty s.kind)) == rule.source_kind)
        || trim (text_or_empty s.id) == ""
        || is_none s.source_occurred_at)
      invalid_source_ref
  at ← date_or (date h s.source_occurred_at) invalid_timestamp
  role ← optional_role h s.role
  version ← optional_version s.source_version
  ok record {
    source_kind = rule.source_kind;
    records =
        record {
          record_type = rule.record_type;
          record_id = trim (text_or_empty s.id);
          participant_role = role;
          occurred_at = at;
          record_version = version;
        }
        ∷ [];
  }
