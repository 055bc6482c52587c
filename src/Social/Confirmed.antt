-- ===== src/Social/Confirmed.antt =====
-- A version that `confirmMutualRelationship` writes passes the database's deferred trigger.
use new_humans.Prelude.{
  String, Bool, true, false, List, ◌∷◌, Option, none, some, ◌==◌, ◌&&◌, ◌||◌, ◌≡◌, ◌⊎◌, refl, sym,
  subst, ◌∙◌, Bool-cases, eq_iff, eq_refl, eqb_iff, inl, inr,
}
use new_humans.Prelude.Int.{ℤ}
use new_humans.Social.Rows.{
  mutual_mode, Role, subject, object, Status, active, ended, Dispute, undisputed, under_dispute,
  resolved, State, Period, Header, Version, Proposal, Confirmation, Tables, Context, find_proposal,
}
use new_humans.Social.Mutual.{role_in, mutual_provenance}
use new_humans.Social.Evidence.{
  is_role, expected_kind, expected_record_type, is_spaces, all_records, any_record,
  assert_relationship_provenance, valid_with_header, valid_for_mode, matches_proposal,
  confirmed_version, find_confirmation, same_state, same_status, same_dispute, same_period,
  same_time, cites,
}
use new_humans.Social.Actions.{eqb_ℤ_refl}
use new_humans.Social.Sound.{GoodProposal}

false_true {ℓ} : {A : Type ℓ} → false ≡ true → A
false_true h = cc

pub eq_comm : (a b : String) → (a == b) ≡ (b == a)
eq_comm a b = elim (Bool-cases (a == b)) [
  | inl same ↦ rw same (rw ((eq_iff a b).0 same) (sym (eq_refl b)))
  | inr other ↦ elim (Bool-cases (b == a)) [
    | inl same ↦ rw ((eq_iff b a).0 same) refl
    | inr apart ↦ other ∙ sym apart
  ]
]

-- The two parties of a proposal have the two roles.
Roles : Proposal → String → Type 0
Roles p e =
    ((role_in p p.proposed_by ≡ subject) × (role_in p e ≡ object))
    ⊎ ((role_in p p.proposed_by ≡ object) × (role_in p e ≡ subject))

second_party :
    (s o b e : String) → o ≡ b → (e == b) ≡ false → (s == e || o == e) ≡ true → (s == e) ≡ true
second_party s o b e k n q = elim (Bool-cases (s == e)) [
  | inl same ↦ same
  | inr other ↦ false_true (sym n ∙ eq_comm e b ∙ subst (λ u. (u == e) ≡ true) k (rw other at q))
]

roles_of :
    (s o b e : String)
    → (s == o) ≡ false
    → (s == b || o == b) ≡ true
    → (s == e || o == e) ≡ true
    → (e == b) ≡ false
    → (((b == s) ≡ true) × ((e == s) ≡ false)) ⊎ (((b == s) ≡ false) × ((e == s) ≡ true))
roles_of s o b e d p q n = elim (Bool-cases (s == b)) [
  | inl same ↦
      let k = (eq_iff s b).0 same in
      inl (eq_comm b s ∙ same, subst (λ u. (e == u) ≡ false) (sym k) n)
  | inr other ↦
      let k : o ≡ b = (eq_iff o b).0 (rw other at p) in
      inr (eq_comm b s ∙ other, eq_comm e s ∙ second_party s o b e k n q)
]

proposal-Roles :
    (p : Proposal) (e : String)
    → GoodProposal p
    → (p.subject_entity_id == e || p.object_entity_id == e) ≡ true
    → (e == p.proposed_by) ≡ false
    → Roles p e
unfolding Roles
proposal-Roles p e g q n =
    elim (roles_of p.subject_entity_id p.object_entity_id p.proposed_by e g.distinct g.party q n) [
      | inl (a, b) ↦ inl (rw a, rw b)
      | inr (a, b) ↦ inr (rw a, rw b)
    ]

mutual-Provenance :
    (p : Proposal) (c : Context) (at_first at_second : ℤ)
    → Roles p c.actor
    → is_spaces p.proposal_action ≡ false
    → is_spaces c.action ≡ false
    → assert_relationship_provenance "mutual_friendship" (mutual_provenance p c at_first at_second)
      ≡ true
unfolding Roles assert_relationship_provenance mutual_provenance all_records any_record
    expected_kind expected_record_type
mutual-Provenance p c at_first at_second (inl (a, b)) m n = rw (a, b, m, n)
mutual-Provenance p c at_first at_second (inr (a, b)) m n = rw (a, b, m, n)

same_time_refl : (o : Option ℤ) → same_time o o ≡ true
same_time_refl none = refl
same_time_refl (some a) = eqb_ℤ_refl a

same_status_refl : (s : Status) → same_status s s ≡ true
same_status_refl active = refl
same_status_refl ended = refl

same_dispute_refl : (d : Dispute) → same_dispute d d ≡ true
same_dispute_refl undisputed = refl
same_dispute_refl under_dispute = refl
same_dispute_refl resolved = refl

same_row : (s : State) (q : Period) → (same_state s s && same_period q q) ≡ true
same_row s q = rw (
  same_status_refl s.status,
  same_dispute_refl s.dispute_status,
  eqb_ℤ_refl q.valid_from,
  same_time_refl q.valid_until,
)

-- The header of a mutual relationship, against a proposal for it.
pub record MutualHeader (h : Header) (p : Proposal) : Type 0 where
  pub mode : h.relationship_mode ≡ mutual_mode
  pub first : h.subject_entity_id ≡ p.subject_entity_id
  pub second : h.object_entity_id ≡ p.object_entity_id
  pub kind : h.relationship_type ≡ p.relationship_type

-- The confirmation by `c`, and the version that it makes.
abbrev pub confirmation : Proposal → Context → Confirmation
confirmation p c = record {
  proposal_id = p.proposal_id;
  confirmer = c.actor;
  confirmation_action = c.action;
}

abbrev pub confirmed_row : Proposal → Context → ℤ → ℤ → Version
confirmed_row p c proposed_at confirmed_at = record {
  relationship_id = p.relationship_id;
  version = p.relationship_version;
  state = p.state;
  changed_at = confirmed_at;
  period = p.period;
  provenance = mutual_provenance p c proposed_at confirmed_at;
  mutual_proposal_id = some p.proposal_id;
  recorded_by = c.actor;
  recorded_action = c.action;
}

all_true : (a b : Bool) → a ≡ true → b ≡ true → (a && b) ≡ true
all_true a b p q = rw (p, q)

matches-proposal :
    (h : Header) (p : Proposal) (c : Context) (a b : ℤ)
    → MutualHeader h p
    → matches_proposal h (confirmed_row p c a b) p ≡ true
matches-proposal h p c a b m =
    rw
      (
        m.first,
        m.second,
        m.kind,
        eq_refl p.relationship_id,
        (eqb_iff p.relationship_version p.relationship_version).1 refl,
        eq_refl p.subject_entity_id,
        eq_refl p.object_entity_id,
        eq_refl p.relationship_type,
      )
      (same_row p.state p.period)

found_confirmation :
    (p : Proposal) (c : Context) (cs : List Confirmation)
    → (c.actor == p.proposed_by) ≡ false
    → find_confirmation p.proposal_id p.proposed_by (confirmation p c ∷ cs)
      ≡ some (confirmation p c)
unfolding find_confirmation
found_confirmation p c cs n = rw (n, (eqb_iff p.proposal_id p.proposal_id).1 refl)

is_role_refl : (r : Role) → is_role r (some r) ≡ true
is_role_refl subject = refl
is_role_refl object = refl

or_true : (a b : Bool) → b ≡ true → (a || b) ≡ true
or_true true b h = refl
or_true false b h = h

cites-first :
    (p : Proposal) (c : Context) (a b : ℤ) (r : Role)
    → role_in p p.proposed_by ≡ r
    → cites (mutual_provenance p c a b).records p.proposal_action r ≡ true
unfolding any_record mutual_provenance
cites-first p c a b r e = rw (e, eq_refl p.proposal_action, is_role_refl r)

cites-second :
    (p : Proposal) (c : Context) (a b : ℤ) (r : Role)
    → role_in p c.actor ≡ r
    → cites (mutual_provenance p c a b).records c.action r ≡ true
unfolding any_record mutual_provenance
cites-second p c a b r e =
    rw (e, eq_refl c.action, is_role_refl r)
      (or_true
        ((p.proposal_action == c.action) && is_role r (some (role_in p p.proposed_by)) && true) true
        refl)

same_party : (s o e : String) → (s == e || o == e) ≡ true → (e == s || e == o) ≡ true
same_party s o e h = rw (eq_comm e s, eq_comm e o) h

confirmed-version :
    (h : Header) (p : Proposal) (c : Context) (a b : ℤ)
    → MutualHeader h p
    → (p.subject_entity_id == c.actor || p.object_entity_id == c.actor) ≡ true
    → (c.actor == p.proposed_by) ≡ false
    → confirmed_version h (confirmed_row p c a b) p (some (confirmation p c)) ≡ true
confirmed-version h p c a b m q n = rw (
  m.first,
  m.second,
  same_party p.subject_entity_id p.object_entity_id c.actor q,
  n,
  eq_refl c.action,
  eq_refl c.actor,
  cites-first p c a b (role_in p p.proposed_by) refl,
  cites-second p c a b (role_in p c.actor) refl,
)

-- The whole check, under a header that matches.
pub confirmed_row-Valid :
    (t : Tables) (h : Header) (p : Proposal) (c : Context) (a b : ℤ) (cs : List Confirmation)
    → MutualHeader h p
    → GoodProposal p
    → find_proposal p.proposal_id t.proposals ≡ some p
    → t.confirmations ≡ confirmation p c ∷ cs
    → (p.subject_entity_id == c.actor || p.object_entity_id == c.actor) ≡ true
    → (c.actor == p.proposed_by) ≡ false
    → is_spaces p.proposal_action ≡ false
    → is_spaces c.action ≡ false
    → valid_with_header t (confirmed_row p c a b) (some h) ≡ true
confirmed_row-Valid t h p c a b cs m g f k q n u w =
    all_true (assert_relationship_provenance h.relationship_type (mutual_provenance p c a b))
      (valid_for_mode h.relationship_mode t h (confirmed_row p c a b))
      (simp (m.kind, g.kind) (mutual-Provenance p c a b (proposal-Roles p c.actor g q n) u w))
      (rw (m.mode, f, k, found_confirmation p c cs n)
        (all_true (matches_proposal h (confirmed_row p c a b) p)
          (confirmed_version h (confirmed_row p c a b) p (some (confirmation p c)))
          (matches-proposal h p c a b m) (confirmed-version h p c a b m q n)))
