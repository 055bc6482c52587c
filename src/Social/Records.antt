-- ===== src/Social/Records.antt =====
-- `recordRelationship` and `appendRelationshipVersion` of src/services/social_relationships.js.
use new_humans.Prelude.{
  String, not, Option, none, some, Result, ok, err, fail_if, ◌>>◌, ◌>>=◌, ◌==◌, ◌&&◌, ◌||◌,
  mutual_confirmations_required, invalid_relationship_parties, unilateral_actor_mismatch,
  check_violation,
}
use new_humans.Prelude.Int.{ℤ}
use new_humans.Social.Rows.{
  is_mutual_mode, is_unilateral, Host, Mode, unilateral, subject, Provenance, Version, Tables,
  Context, action_time, load_header, next_version, insert_header, insert_version,
}
use new_humans.Social.Rules.{
  Rule, SourceRef, require_relationship_type, is_mutual, require_mode, require_state,
  require_period, actor_provenance, derived_provenance,
}

-- `relationship_id` is the given identifier or a fresh one.
pub record Recording : Type 0 where
  pub relationship_id : String
  pub relationship_type : Option String
  pub mode : Option String
  pub subject_entity_id : String
  pub object_entity_id : String
  pub status : Option String
  pub dispute_status : Option String
  pub valid_from : Option String
  pub valid_until : Option String
  pub source_ref : Option SourceRef

unfoldable pub provenance_for :
    Host → Mode → Rule → String → ℤ → Option SourceRef → Result Provenance
unfolding actor_provenance
provenance_for h unilateral rule action at source = ok (actor_provenance rule action at subject)
provenance_for h _ rule action at source = derived_provenance h rule source

abbrev pub mode_or_empty : Option String → String
mode_or_empty none = ""
mode_or_empty (some s) = s

unfoldable pub record_relationship : Host → Tables → Recording → Context → Result (Version × Tables)
record_relationship h t q c = do
  (kind, found) ← require_relationship_type q.relationship_type
  fail_if (is_mutual found) mutual_confirmations_required
  rule ← require_mode (h.upper_case (mode_or_empty q.mode)) found
  state ← require_state h q.status q.dispute_status
  period ← require_period h state.status q.valid_from q.valid_until
  fail_if
      (q.subject_entity_id == ""
        || q.object_entity_id == ""
        || q.subject_entity_id == q.object_entity_id)
      invalid_relationship_parties
  fail_if (is_unilateral rule.mode && not (c.actor == q.subject_entity_id))
      unilateral_actor_mismatch
  at ← action_time t c.action
  provenance ← provenance_for h rule.mode rule c.action at q.source_ref
  t1 ← insert_header t record {
    relationship_id = q.relationship_id;
    subject_entity_id = q.subject_entity_id;
    object_entity_id = q.object_entity_id;
    relationship_type = kind;
    relationship_mode = rule.mode;
  }
  insert_version t1 record {
    relationship_id = q.relationship_id;
    version = 1;
    state = state;
    changed_at = at;
    period = period;
    provenance = provenance;
    mutual_proposal_id = none;
    recorded_by = c.actor;
    recorded_action = c.action;
  }

pub record Revision : Type 0 where
  pub relationship_id : String
  pub status : Option String
  pub dispute_status : Option String
  pub valid_from : Option String
  pub valid_until : Option String
  pub source_ref : Option SourceRef

-- The column's CHECK admits registered types only.
abbrev pub registered : Option Rule → Result Rule
registered none = err check_violation
registered (some r) = ok r

unfoldable pub append_relationship_version :
    Host → Tables → Revision → Context → Result (Version × Tables)
append_relationship_version h t q c = do
  header ← load_header t q.relationship_id
  fail_if (is_mutual_mode header.relationship_mode) mutual_confirmations_required
  fail_if (is_unilateral header.relationship_mode && not (c.actor == header.subject_entity_id))
      unilateral_actor_mismatch
  (_, found) ← require_relationship_type (some header.relationship_type)
  rule ← registered found
  state ← require_state h q.status q.dispute_status
  period ← require_period h state.status q.valid_from q.valid_until
  at ← action_time t c.action
  provenance ← provenance_for h header.relationship_mode rule c.action at q.source_ref
  insert_version t record {
    relationship_id = q.relationship_id;
    version = next_version t q.relationship_id;
    state = state;
    changed_at = at;
    period = period;
    provenance = provenance;
    mutual_proposal_id = none;
    recorded_by = c.actor;
    recorded_action = c.action;
  }
