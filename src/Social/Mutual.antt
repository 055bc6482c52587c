-- ===== src/Social/Mutual.antt =====
-- `proposeMutualRelationship` and `confirmMutualRelationship` of
-- src/services/social_relationships.js.
use new_humans.Prelude.{
  ℕ, suc, String, Bool, not, [], ◌∷◌, Option, none, some, Result, ok, fail_if, ◌>>◌, ◌>>=◌, ◌==◌,
  ◌&&◌, ◌||◌, eqb, if◌then◌else◌, relationship_mode_mismatch, mutual_proposer_not_party,
  relationship_header_mismatch, mutual_confirmer_not_party, mutual_second_party_required,
}
use new_humans.Prelude.Int.{ℤ}
use new_humans.Social.Rows.{
  insert_confirmation, is_mutual_mode, Host, mutual_mode, Role, subject, object, State, Period,
  Provenance, Header, Version, Proposal, Tables, Context, action_time, load_header, load_proposal,
  next_version, insert_header, insert_version,
}
use new_humans.Social.Rules.{
  require_relationship_type, is_mutual, require_state, require_period, canonical_mutual_pair,
}

-- `fresh_id` is the identifier that a new relationship gets.
pub record Proposing : Type 0 where
  pub relationship_id : Option String
  pub fresh_id : String
  pub relationship_type : Option String
  pub subject_entity_id : String
  pub object_entity_id : String
  pub status : Option String
  pub dispute_status : Option String
  pub valid_from : Option String
  pub valid_until : Option String

abbrev pub same_header : Header → String → String → String → Bool
same_header h first second kind =
    is_mutual_mode h.relationship_mode
    && (h.subject_entity_id == first)
    && (h.object_entity_id == second)
    && (h.relationship_type == kind)

-- The identifier and the version that are proposed.
revised : Tables → String → String → String → String → Result (String × ℕ)
revised t id first second kind = do
  header ← load_header t id
  fail_if (not (same_header header first second kind)) relationship_header_mismatch
  ok (header.relationship_id, next_version t id)

unfoldable pub target_of :
    Tables → Option String → String → String → String → String → Result (String × ℕ)
unfolding revised
target_of t none fresh first second kind = ok (fresh, 1)
target_of t (some id) fresh first second kind =
    if id == "" then ok ("", 1) else revised t id first second kind

-- `INSERT INTO social.mutual_relationship_proposals`.
abbrev pub proposed :
    Tables
    → Context
    → String
    → String
    → ℕ
    → String
    → String
    → State
    → Period
    → ℤ
    → Proposal × Tables
proposed t c kind id version first second state period at =
    let proposal : Proposal = record {
      proposal_id = t.next_id;
      relationship_id = id;
      relationship_version = version;
      subject_entity_id = first;
      object_entity_id = second;
      relationship_type = kind;
      state = state;
      changed_at = at;
      period = period;
      proposed_by = c.actor;
      proposal_action = c.action;
    } in
    (proposal, record t { proposals = proposal ∷ t.proposals; next_id = suc t.next_id })

unfoldable pub propose_mutual_relationship :
    Host → Tables → Proposing → Context → Result (Proposal × Tables)
propose_mutual_relationship h t q c = do
  (kind, found) ← require_relationship_type q.relationship_type
  fail_if (not (is_mutual found)) relationship_mode_mismatch
  state ← require_state h q.status q.dispute_status
  period ← require_period h state.status q.valid_from q.valid_until
  (first, second) ← canonical_mutual_pair q.subject_entity_id q.object_entity_id
  fail_if (not (first == c.actor || second == c.actor)) mutual_proposer_not_party
  (id, version) ← target_of t q.relationship_id q.fresh_id first second kind
  at ← action_time t c.action
  ok (proposed t c kind id version first second state period at)

abbrev pub role_in : Proposal → String → Role
role_in p e = if e == p.subject_entity_id then subject else object

unfoldable pub mutual_provenance : Proposal → Context → ℤ → ℤ → Provenance
mutual_provenance p c proposed_at confirmed_at = record {
  source_kind = "MUTUAL_CONFIRMATION";
  records =
      record {
        record_type = "CONFIRMATION";
        record_id = p.proposal_action;
        participant_role = some (role_in p p.proposed_by);
        occurred_at = proposed_at;
        record_version = none;
      }
      ∷ record {
        record_type = "CONFIRMATION";
        record_id = c.action;
        participant_role = some (role_in p c.actor);
        occurred_at = confirmed_at;
        record_version = none;
      }
      ∷ [];
}

unfoldable pub existing_header : Tables → Proposal → Result Tables
existing_header t p = do
  header ← load_header t p.relationship_id
  fail_if (not (same_header header p.subject_entity_id p.object_entity_id p.relationship_type))
      relationship_header_mismatch
  ok t

-- The first version brings the header; a later one needs the same header.
unfoldable pub header_for : Tables → Proposal → Result Tables
unfolding existing_header
header_for t p =
    if eqb p.relationship_version 1
    then insert_header t record {
      relationship_id = p.relationship_id;
      subject_entity_id = p.subject_entity_id;
      object_entity_id = p.object_entity_id;
      relationship_type = p.relationship_type;
      relationship_mode = mutual_mode;
    }
    else existing_header t p

unfoldable pub confirm_mutual_relationship : Tables → ℕ → Context → Result (Version × Tables)
unfolding mutual_provenance
confirm_mutual_relationship t id c = do
  p ← load_proposal t id
  fail_if (not (p.subject_entity_id == c.actor || p.object_entity_id == c.actor))
      mutual_confirmer_not_party
  fail_if (c.actor == p.proposed_by) mutual_second_party_required
  confirmed_at ← action_time t c.action
  proposed_at ← action_time t p.proposal_action
  t1 ←
      insert_confirmation t
        record { proposal_id = p.proposal_id; confirmer = c.actor; confirmation_action = c.action }
  t2 ← header_for t1 p
  insert_version t2 record {
    relationship_id = p.relationship_id;
    version = p.relationship_version;
    state = p.state;
    changed_at = confirmed_at;
    period = p.period;
    provenance = mutual_provenance p c proposed_at confirmed_at;
    mutual_proposal_id = some p.proposal_id;
    recorded_by = c.actor;
    recorded_action = c.action;
  }
