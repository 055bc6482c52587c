-- ===== src/Social/Tests.antt =====
-- A mutual friendship, proposed by one party and confirmed by the other, and a declaration.
use new_humans.Prelude.{
  ap, some_inj, false, Bool-cases, inl, inr, sym, subst, eq_iff, String, Bool, true, [], ◌∷◌,
  Option, none, some, Result, ok, ◌≡◌, refl, if◌then◌else◌, ◌==◌,
}
use new_humans.Prelude.Int.{pos}
use new_humans.Social.Rows.{
  ActionRow, load_proposal, find_proposal, action_time, insert_confirmation, insert_header,
  find_header, insert_version, active, undisputed, subject, object, Host, Tables, Version, Context,
}
use new_humans.Social.Rules.{
  require_period, canonical_mutual_pair, require_state, require_relationship_type,
}
use new_humans.Social.Mutual.{
  target_of, header_for, Proposing, propose_mutual_relationship, confirm_mutual_relationship,
}
use new_humans.Social.Evidence.{validate_relationship_version_evidence, is_spaces}
use new_humans.Social.Reach.{empty_tables, Reachable, starts, proposes, confirms, Writes-Valid}

-- Times are digits here, and texts are in upper case already.
abbrev host : Host
host = record { upper_case = λ s. s; date_of = λ s. if s == "2026" then some (pos 2026) else none }

abbrev actions : String → Option ActionRow
actions a =
    if a == "a1"
    then some (record { actor_entity_id = "bob"; created_at = pos 5 })
    else if a == "a2"
    then some (record { actor_entity_id = "ann"; created_at = pos 7 })
    else none

abbrev proposing : Proposing
proposing = record {
  relationship_id = none;
  fresh_id = "r1";
  relationship_type = some "mutual_friendship";
  subject_entity_id = "bob";
  object_entity_id = "ann";
  status = none;
  dispute_status = none;
  valid_from = some "2026";
  valid_until = none;
}

abbrev first : Context
first = record { actor = "bob"; action = "a1" }

abbrev second : Context
second = record { actor = "ann"; action = "a2" }

abbrev after {ℓ} : {A : Type ℓ} → Tables → Result (A × Tables) → Tables
after t (ok b) = b.1
after t _ = t

abbrev proposed : Tables
proposed =
    after (empty_tables actions)
      (propose_mutual_relationship host (empty_tables actions) proposing first)

abbrev befriended : Tables
befriended = after proposed (confirm_mutual_relationship proposed 0 second)

no_action :
    (b c : Bool) (x y : ActionRow) {row : ActionRow} {P : Type 0}
    → b ≡ false
    → c ≡ false
    → (if b then some x else if c then some y else none) ≡ some row
    → P
no_action true c x y e f h = cc
no_action false true x y e f h = cc
no_action false false x y e f h = cc

actions-IsNamed : (a : String) (row : ActionRow) → actions a ≡ some row → is_spaces a ≡ false
unfolding is_spaces
actions-IsNamed a row h = elim (Bool-cases (a == "a1")) [
  | inl one ↦ subst (λ u. is_spaces u ≡ false) (sym ((eq_iff a "a1").0 one)) refl
  | inr other ↦ elim (Bool-cases (a == "a2")) [
    | inl two ↦ subst (λ u. is_spaces u ≡ false) (sym ((eq_iff a "a2").0 two)) refl
    | inr neither ↦ no_action (a == "a1") (a == "a2") _ _ other neither h
  ]
]

proposed-Reachable : Reachable host proposed
unfolding propose_mutual_relationship require_relationship_type require_state require_period
    canonical_mutual_pair target_of action_time
proposed-Reachable = proposes proposing first (starts actions-IsNamed) refl

abbrev friendship : Version
friendship = record {
  relationship_id = "r1";
  version = 1;
  state = record { status = active; dispute_status = undisputed };
  changed_at = pos 7;
  period = record { valid_from = pos 2026; valid_until = none };
  provenance = record {
    source_kind = "MUTUAL_CONFIRMATION";
    records =
        record {
          record_type = "CONFIRMATION";
          record_id = "a1";
          participant_role = some object;
          occurred_at = pos 5;
          record_version = none;
        }
        ∷ record {
          record_type = "CONFIRMATION";
          record_id = "a2";
          participant_role = some subject;
          occurred_at = pos 7;
          record_version = none;
        }
        ∷ [];
  };
  mutual_proposal_id = some 0;
  recorded_by = "ann";
  recorded_action = "a2";
}

second-IsIssued : (row : ActionRow) → actions "a2" ≡ some row → row.actor_entity_id ≡ "ann"
second-IsIssued row h = ap (λ r. r.actor_entity_id) (sym (some_inj h))

Writes-Valid_example : validate_relationship_version_evidence befriended friendship ≡ true
unfolding propose_mutual_relationship confirm_mutual_relationship load_proposal find_proposal
    require_relationship_type require_state require_period canonical_mutual_pair target_of
    action_time insert_confirmation header_for insert_header find_header insert_version
Writes-Valid_example =
    Writes-Valid host proposed friendship befriended proposed-Reachable
      (confirms 0 second second-IsIssued refl)
