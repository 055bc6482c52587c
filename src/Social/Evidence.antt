-- ===== src/Social/Evidence.antt =====
-- The deferred trigger `validate_relationship_version_evidence` of
-- migrations/0523_m04_relationship_data.sql, which checks a version against its header, the action
-- that recorded it, its source and, for a mutual one, its proposal and confirmation. There is one
-- world, so worlds are not compared. That the action has succeeded is left out, since
-- src/services/core.js marks it when the operation has returned, and so is the cast of `occurred_at`,
-- which is a number here and not a text.
use Prim.Native.Char.{code}
use new_humans.Prelude.{
  ℕ, String, Bool, true, false, not, List, [], ◌∷◌, Option, none, some, ◌==◌, ◌&&◌, ◌||◌, eqb,
  includes, if◌then◌else◌,
}
use new_humans.Prelude.Int.{ℤ, leb_ℤ}
use new_humans.Social.Rows.{
  Status, active, ended, Dispute, undisputed, under_dispute, resolved, State, Period, Mode,
  unilateral, mutual_mode, derived, Role, subject, object, Evidence, Provenance, Header, Version,
  Proposal, Confirmation, Tables, ActionRow, find_header, find_proposal,
}

unfoldable pub expected_kind : String → Option String
expected_kind t =
    if t == "considers_friend"
    then some "ENTITY_DECLARATION"
    else if t == "mutual_friendship"
    then some "MUTUAL_CONFIRMATION"
    else if t == "worked_with" || t == "completed_contract_with" || t == "employed_by"
    then some "CONTRACT"
    else if t == "member_of"
    then some "MEMBERSHIP"
    else if t == "manages"
    then some "ROLE_ASSIGNMENT"
    else if t == "created_by" || t == "parent_of"
    then some "BIRTH_PROTOCOL"
    else none

unfoldable pub expected_record_type : String → Option String
expected_record_type t =
    if t == "considers_friend"
    then some "DECLARATION"
    else if t == "mutual_friendship"
    then some "CONFIRMATION"
    else if t == "worked_with" || t == "completed_contract_with" || t == "employed_by"
    then some "CONTRACT"
    else if t == "member_of"
    then some "MEMBERSHIP"
    else if t == "manages"
    then some "ROLE_ASSIGNMENT"
    else if t == "created_by" || t == "parent_of"
    then some "BIRTH_PROTOCOL"
    else none

-- `btrim(s) = ''`.
unfoldable pub is_spaces : String → Bool
is_spaces String.[] = true
is_spaces (String.◌∷◌ c s) = eqb (code c) 32 && is_spaces s

abbrev pub record_types : List String
record_types =
    "DECLARATION" ∷ "CONFIRMATION" ∷ "CONTRACT" ∷ "MEMBERSHIP" ∷ "ROLE_ASSIGNMENT"
    ∷ "BIRTH_PROTOCOL" ∷ []

abbrev pub is_complete : Evidence → Bool
is_complete e = not (is_spaces e.record_id) && includes record_types e.record_type

abbrev pub is_subject : Option Role → Bool
is_subject (some subject) = true
is_subject _ = false

abbrev pub is_object : Option Role → Bool
is_object (some object) = true
is_object _ = false

abbrev pub is_text : String → Option String → Bool
is_text s none = false
is_text s (some t) = s == t

unfoldable pub all_records : (Evidence → Bool) → List Evidence → Bool
all_records f [] = true
all_records f (e ∷ es) = f e && all_records f es

unfoldable pub any_record : (Evidence → Bool) → List Evidence → Bool
any_record f [] = false
any_record f (e ∷ es) = f e || any_record f es

abbrev pub is_single : List Evidence → Bool
is_single (e ∷ []) = true
is_single _ = false

abbrev pub is_several : List Evidence → Bool
is_several (e ∷ f ∷ es) = true
is_several _ = false

abbrev pub is_confirmation : Evidence → Bool
is_confirmation e =
    (e.record_type == "CONFIRMATION")
    && (is_subject e.participant_role || is_object e.participant_role)

abbrev pub has_expected : String → List Evidence → Bool
has_expected t = any_record λ e. is_text e.record_type (expected_record_type t)

abbrev pub has_subject : List Evidence → Bool
has_subject = any_record λ e. is_subject e.participant_role

abbrev pub has_object : List Evidence → Bool
has_object = any_record λ e. is_object e.participant_role

unfoldable pub assert_relationship_provenance : String → Provenance → Bool
assert_relationship_provenance t p =
    is_text p.source_kind (expected_kind t)
    && all_records is_complete p.records
    && (if t == "considers_friend"
        then is_single p.records && has_expected t p.records && has_subject p.records
        else if t == "mutual_friendship"
        then is_several p.records
          && has_expected t p.records
          && has_subject p.records
          && has_object p.records
          && all_records is_confirmation p.records
        else has_expected t p.records)

abbrev pub is_role : Role → Option Role → Bool
is_role subject r = is_subject r
is_role object r = is_object r

-- The confirmation by the party that did not propose.
unfoldable pub find_confirmation : ℕ → String → List Confirmation → Option Confirmation
find_confirmation id proposer [] = none
find_confirmation id proposer (c ∷ cs) =
    let rest = find_confirmation id proposer cs in
    if eqb c.proposal_id id && not (c.confirmer == proposer) then some c else rest

abbrev pub role_of_party : Header → String → Role
role_of_party h e = if e == h.subject_entity_id then subject else object

abbrev pub cites : List Evidence → String → Role → Bool
cites es action role =
    any_record
      (λ e.
        (e.record_id == action)
        && is_role role e.participant_role
        && (e.record_type == "CONFIRMATION"))
      es

abbrev pub same_status : Status → Status → Bool
same_status active active = true
same_status ended ended = true
same_status _ _ = false

abbrev pub same_dispute : Dispute → Dispute → Bool
same_dispute undisputed undisputed = true
same_dispute under_dispute under_dispute = true
same_dispute resolved resolved = true
same_dispute _ _ = false

abbrev pub same_state : State → State → Bool
same_state s t = same_status s.status t.status && same_dispute s.dispute_status t.dispute_status

abbrev pub eqb_ℤ : ℤ → ℤ → Bool
eqb_ℤ a b = leb_ℤ a b && leb_ℤ b a

abbrev pub same_time : Option ℤ → Option ℤ → Bool
same_time none none = true
same_time (some a) (some b) = eqb_ℤ a b
same_time _ _ = false

abbrev pub same_period : Period → Period → Bool
same_period p q = eqb_ℤ p.valid_from q.valid_from && same_time p.valid_until q.valid_until

abbrev pub matches_proposal : Header → Version → Proposal → Bool
matches_proposal h v p =
    (p.relationship_id == v.relationship_id)
    && eqb p.relationship_version v.version
    && (p.subject_entity_id == h.subject_entity_id)
    && (p.object_entity_id == h.object_entity_id)
    && (p.relationship_type == h.relationship_type)
    && same_state p.state v.state
    && same_period p.period v.period

abbrev pub confirmed_version : Header → Version → Proposal → Option Confirmation → Bool
confirmed_version h v p none = false
confirmed_version h v p (some c) =
    (c.confirmer == h.subject_entity_id || c.confirmer == h.object_entity_id)
    && not (c.confirmer == p.proposed_by)
    && (c.confirmation_action == v.recorded_action)
    && (c.confirmer == v.recorded_by)
    && cites v.provenance.records p.proposal_action (role_of_party h p.proposed_by)
    && cites v.provenance.records c.confirmation_action (role_of_party h c.confirmer)

abbrev pub proposed_version : Tables → Header → Version → Option Proposal → Bool
proposed_version t h v none = false
proposed_version t h v (some p) =
    matches_proposal h v p
    && confirmed_version h v p (find_confirmation p.proposal_id p.proposed_by t.confirmations)

abbrev pub proposal_of : Tables → Option ℕ → Option Proposal
proposal_of t none = none
proposal_of t (some id) = find_proposal id t.proposals

abbrev is_unset {ℓ} : {A : Type ℓ} → Option A → Bool
is_unset none = true
is_unset (some _) = false

abbrev first_record_id : List Evidence → String
first_record_id [] = ""
first_record_id (e ∷ es) = e.record_id

abbrev pub valid_for_mode : Mode → Tables → Header → Version → Bool
valid_for_mode unilateral t h v =
    (v.recorded_by == h.subject_entity_id)
    && is_unset v.mutual_proposal_id
    && (first_record_id v.provenance.records == v.recorded_action)
valid_for_mode derived t h v = is_unset v.mutual_proposal_id
valid_for_mode mutual_mode t h v = proposed_version t h v (proposal_of t v.mutual_proposal_id)

abbrev pub valid_with_header : Tables → Version → Option Header → Bool
valid_with_header t v none = false
valid_with_header t v (some h) =
    assert_relationship_provenance h.relationship_type v.provenance
    && valid_for_mode h.relationship_mode t h v

-- The action by which the version was recorded is its recorder's, and as old as the version.
abbrev pub is_action_of : String → ℤ → Option ActionRow → Bool
is_action_of actor at none = false
is_action_of actor at (some row) = (row.actor_entity_id == actor) && eqb_ℤ row.created_at at

unfoldable pub validate_relationship_version_evidence : Tables → Version → Bool
validate_relationship_version_evidence t v =
    valid_with_header t v (find_header v.relationship_id t.headers)
    && is_action_of v.recorded_by v.changed_at (t.actions v.recorded_action)
