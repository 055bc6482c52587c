-- ===== src/Social/Rows.antt =====
-- The tables of relationships, in the order of insertion from the last, and the reads and inserts
-- of src/services/social_relationships.js on them.
use new_humans.Prelude.{
  ◌>>=◌, ◌&&◌, ◌||◌, Code, ℕ, ◌+◌, String, Bool, true, false, not, List, [], ◌∷◌, Option, none,
  some, Result, ok, err, fail_if, ◌>>◌, ◌==◌, eqb, ltb, if◌then◌else◌, action_evidence_missing,
  relationship_not_found, mutual_proposal_not_found, unique_violation, check_violation,
}
use new_humans.Prelude.Int.{ℤ}
use new_humans.Js.{Value}

-- `toUpperCase`, and `new Date(s).getTime()` where it is a number.
pub record Host : Type 0 where
  pub upper_case : String → String
  pub date_of : String → Option ℤ

pub data Mode : Type 0 where
  unilateral mutual_mode derived : Mode

abbrev pub is_mutual_mode : Mode → Bool
is_mutual_mode mutual_mode = true
is_mutual_mode _ = false

abbrev pub is_unilateral : Mode → Bool
is_unilateral unilateral = true
is_unilateral _ = false

pub data Status : Type 0 where
  active ended : Status

pub data Dispute : Type 0 where
  undisputed under_dispute resolved : Dispute

pub data Role : Type 0 where
  subject object : Role

pub record Evidence : Type 0 where
  pub record_type : String
  pub record_id : String
  pub participant_role : Option Role
  pub occurred_at : ℤ
  pub record_version : Option Value

pub record Provenance : Type 0 where
  pub source_kind : String
  pub records : List Evidence

pub record Header : Type 0 where
  pub relationship_id : String
  pub subject_entity_id : String
  pub object_entity_id : String
  pub relationship_type : String
  pub relationship_mode : Mode

pub record State : Type 0 where
  pub status : Status
  pub dispute_status : Dispute

-- Times in milliseconds.
pub record Period : Type 0 where
  pub valid_from : ℤ
  pub valid_until : Option ℤ

pub record Version : Type 0 where
  pub relationship_id : String
  pub version : ℕ
  pub state : State
  pub changed_at : ℤ
  pub period : Period
  pub provenance : Provenance
  pub mutual_proposal_id : Option ℕ
  pub recorded_by : String
  pub recorded_action : String

pub record Proposal : Type 0 where
  pub proposal_id : ℕ
  pub relationship_id : String
  pub relationship_version : ℕ
  pub subject_entity_id : String
  pub object_entity_id : String
  pub relationship_type : String
  pub state : State
  pub changed_at : ℤ
  pub period : Period
  pub proposed_by : String
  pub proposal_action : String

pub record Confirmation : Type 0 where
  pub proposal_id : ℕ
  pub confirmer : String
  pub confirmation_action : String

-- The row of an action, as far as relationships read it.
pub record ActionRow : Type 0 where
  pub actor_entity_id : String
  pub created_at : ℤ

pub record Tables : Type 0 where
  pub headers : List Header
  pub versions : List Version
  pub proposals : List Proposal
  pub confirmations : List Confirmation
  pub actions : String → Option ActionRow
  pub next_id : ℕ

-- The actor and the action of a command.
pub record Context : Type 0 where
  pub actor : String
  pub action : String

unfoldable pub or_fail {ℓ} : {A : Type ℓ} → Option A → Code → Result A
or_fail none e = err e
or_fail (some a) e = ok a

unfoldable pub action_time : Tables → String → Result ℤ
unfolding or_fail
action_time t action = do
  row ← or_fail (t.actions action) action_evidence_missing
  ok row.created_at

unfoldable pub find_header : String → List Header → Option Header
find_header id [] = none
find_header id (h ∷ hs) =
    let rest = find_header id hs in if h.relationship_id == id then some h else rest

unfoldable pub load_header : Tables → String → Result Header
unfolding or_fail
load_header t id = or_fail (find_header id t.headers) relationship_not_found

unfoldable pub find_proposal : ℕ → List Proposal → Option Proposal
find_proposal id [] = none
find_proposal id (p ∷ ps) =
    let rest = find_proposal id ps in if eqb p.proposal_id id then some p else rest

unfoldable pub load_proposal : Tables → ℕ → Result Proposal
unfolding or_fail
load_proposal t id = or_fail (find_proposal id t.proposals) mutual_proposal_not_found

-- `MAX(version)` of one relationship, 0 without rows.
unfoldable pub max_version : String → List Version → ℕ
max_version id [] = 0
max_version id (v ∷ vs) =
    let rest = max_version id vs in
    if v.relationship_id == id then (if ltb rest v.version then v.version else rest) else rest

unfoldable pub next_version : Tables → String → ℕ
unfolding max_version
next_version t id = max_version id t.versions + 1

abbrev pub is_taken : Option Header → Bool
is_taken none = false
is_taken (some h) = true

-- The primary key refuses a second header.
unfoldable pub insert_header : Tables → Header → Result Tables
insert_header t h =
    fail_if (is_taken (find_header h.relationship_id t.headers)) unique_violation
    >> ok (record t { headers = h ∷ t.headers })

abbrev pub same_confirmation : ℕ → String → Confirmation → Bool
same_confirmation id e c = eqb c.proposal_id id && (c.confirmer == e)

unfoldable pub confirmed_by : ℕ → String → List Confirmation → Bool
confirmed_by id e [] = false
confirmed_by id e (c ∷ cs) = same_confirmation id e c || confirmed_by id e cs

-- The primary key refuses a second confirmation by one entity.
unfoldable pub insert_confirmation : Tables → Confirmation → Result Tables
unfolding confirmed_by
insert_confirmation t c =
    fail_if (confirmed_by c.proposal_id c.confirmer t.confirmations) unique_violation
    >> ok (record t { confirmations = c ∷ t.confirmations })

-- The trigger of the versions' sequence in migrations/0523_m04_relationship_data.sql.
unfoldable pub insert_version : Tables → Version → Result (Version × Tables)
unfolding next_version
insert_version t v =
    fail_if (not (eqb v.version (next_version t v.relationship_id))) check_violation
    >> ok (v, record t { versions = v ∷ t.versions })
