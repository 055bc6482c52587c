-- ===== src/Social/Keeps.antt =====
-- The operations keep what `Sound` says of the rows.
use new_humans.Prelude.{
  ℕ, String, Bool, true, false, not, Option, none, some, Result, ok, fail_if, ◌==◌, ◌&&◌, ◌||◌, ◌≡◌,
  refl, sym, subst, ◌∙◌, eqb, if◌then◌else◌, >>=-eq-ok, guarded, fail_if-eq-ok, ok_inj,
  mutual_confirmer_not_party, mutual_second_party_required, relationship_header_mismatch,
  relationship_mode_mismatch, invalid_relationship_parties, mutual_proposer_not_party,
  mutual_confirmations_required, unilateral_actor_mismatch,
}
use new_humans.Social.Rows.{
  Host, mutual_mode, is_mutual_mode, is_unilateral, Header, Version, Proposal, Tables, Context,
  action_time, load_header, find_proposal, load_proposal, insert_header, insert_version,
  insert_confirmation,
}
use new_humans.Social.Rules.{
  Rule, type_rules, find_rule, require_relationship_type, is_mutual, require_mode, require_state,
  require_period, canonical_mutual_pair, before,
}
use new_humans.Social.Records.{
  Recording, Revision, mode_or_empty, provenance_for, registered, record_relationship,
  append_relationship_version,
}
use new_humans.Social.Mutual.{
  same_header, existing_header, header_for, confirm_mutual_relationship, Proposing, target_of,
  propose_mutual_relationship,
}
use new_humans.Social.Types.{KindFor, required_found, registered-Fits}
use new_humans.Social.Sound.{Sound, GoodHeader, GoodProposal, found-GoodProposal}
use new_humans.Social.Actions.{IsNamed, or_fail-eq-ok}
use new_humans.Social.Valid.{ruled, inserted_version, inserted_header}
use new_humans.Social.Confirmed.{eq_comm, confirmation}
use new_humans.Social.Steps.{is_mutual_eq, inserted_confirmation, true_of_not}

-- What a written version leaves as it was.
written-Sound :
    (t : Tables) (v u : Version) (t' : Tables)
    → insert_version t v ≡ ok (u, t')
    → Sound t
    → IsNamed t
    → Sound t' × IsNamed t'
written-Sound t v u t' e s n =
    subst (λ r. Sound r × IsNamed r) (sym (inserted_version t v u t' e).1)
      (record { headers = s.headers; proposals = s.proposals }, n)

headed-Sound :
    (t : Tables) (h : Header) (t' : Tables)
    → insert_header t h ≡ ok t'
    → GoodHeader h
    → Sound t
    → IsNamed t
    → Sound t' × IsNamed t'
headed-Sound t h t' e g s n =
    subst (λ r. Sound r × IsNamed r) (sym (inserted_header t h t' e))
      (record { headers = (g, s.headers); proposals = s.proposals }, n)

pub record-Sound :
    (h : Host) (t : Tables) (q : Recording) (c : Context) (v : Version) (t' : Tables)
    → record_relationship h t q c ≡ ok (v, t')
    → Sound t
    → IsNamed t
    → Sound t' × IsNamed t'
unfolding record_relationship
record-Sound h t q c v t' e s n =
    let ((kind, found), typed, e1) =
      >>=-eq-ok (require_relationship_type q.relationship_type) _ e in
    let e2 = guarded (is_mutual found) mutual_confirmations_required _ e1 in
    let (rule, modal, e3) =
      >>=-eq-ok (require_mode (h.upper_case (mode_or_empty q.mode)) found) _ e2 in
    let (state, _, e4) = >>=-eq-ok (require_state h q.status q.dispute_status) _ e3 in
    let (period, _, e5) =
      >>=-eq-ok (require_period h state.status q.valid_from q.valid_until) _ e4 in
    let e6 =
      guarded
        (q.subject_entity_id == ""
          || q.object_entity_id == ""
          || q.subject_entity_id == q.object_entity_id)
        invalid_relationship_parties _ e5 in
    let e7 =
      guarded (is_unilateral rule.mode && not (c.actor == q.subject_entity_id))
        unilateral_actor_mismatch _ e6 in
    let (at, _, e8) = >>=-eq-ok (action_time t c.action) _ e7 in
    let (p, _, e9) = >>=-eq-ok (provenance_for h rule.mode rule c.action at q.source_ref) _ e8 in
    let (t1, headed, e10) = >>=-eq-ok (insert_header t _) _ e9 in
    let some_rule = ruled _ found rule modal in
    let (s1, n1) =
      headed-Sound t _ t1 headed
        record {
          rule = rule;
          registered = sym (required_found q.relationship_type kind found typed) ∙ some_rule;
          mode = refl;
        }
        s n in
    written-Sound t1 _ v t' e10 s1 n1

pub append-Sound :
    (h : Host) (t : Tables) (q : Revision) (c : Context) (v : Version) (t' : Tables)
    → append_relationship_version h t q c ≡ ok (v, t')
    → Sound t
    → IsNamed t
    → Sound t' × IsNamed t'
unfolding append_relationship_version
append-Sound h t q c v t' e s n =
    let (header, _, e1) = >>=-eq-ok (load_header t q.relationship_id) _ e in
    let e2 = guarded (is_mutual_mode header.relationship_mode) mutual_confirmations_required _ e1 in
    let e3 =
      guarded (is_unilateral header.relationship_mode && not (c.actor == header.subject_entity_id))
        unilateral_actor_mismatch _ e2 in
    let ((kind, found), _, e4) =
      >>=-eq-ok (require_relationship_type (some header.relationship_type)) _ e3 in
    let (rule, _, e5) = >>=-eq-ok (registered found) _ e4 in
    let (state, _, e6) = >>=-eq-ok (require_state h q.status q.dispute_status) _ e5 in
    let (period, _, e7) =
      >>=-eq-ok (require_period h state.status q.valid_from q.valid_until) _ e6 in
    let (at, _, e8) = >>=-eq-ok (action_time t c.action) _ e7 in
    let (p, _, e9) =
      >>=-eq-ok (provenance_for h header.relationship_mode rule c.action at q.source_ref) _ e8 in
    written-Sound t _ v t' e9 s n

mutual_rule :
    (kind : String)
    → kind ≡ "mutual_friendship"
    → find_rule kind type_rules
      ≡ some record {
        mode = mutual_mode;
        source_kind = "MUTUAL_CONFIRMATION";
        record_type = "CONFIRMATION";
      }
unfolding find_rule
mutual_rule kind k = rw k

header_for-Sound :
    (t : Tables) (p : Proposal) (t' : Tables) (b : Bool)
    → eqb p.relationship_version 1 ≡ b
    → header_for t p ≡ ok t'
    → GoodProposal p
    → Sound t
    → IsNamed t
    → Sound t' × IsNamed t'
unfolding header_for existing_header
header_for-Sound t p t' true first e g s n =
    headed-Sound t _ t' (rw first at e)
      record {
        rule = record {
          mode = mutual_mode;
          source_kind = "MUTUAL_CONFIRMATION";
          record_type = "CONFIRMATION";
        };
        registered = mutual_rule p.relationship_type g.kind;
        mode = refl;
      }
      s n
header_for-Sound t p t' false later e g s n =
    let (h, _, e1) = >>=-eq-ok (load_header t p.relationship_id) _ (rw later at e) in
    let e2 =
      guarded (not (same_header h p.subject_entity_id p.object_entity_id p.relationship_type))
        relationship_header_mismatch _ e1 in
    subst (λ u. Sound u × IsNamed u) (ok_inj e2) (s, n)

pub confirm-Sound :
    (t : Tables) (id : ℕ) (c : Context) (v : Version) (t' : Tables)
    → confirm_mutual_relationship t id c ≡ ok (v, t')
    → Sound t
    → IsNamed t
    → Sound t' × IsNamed t'
unfolding confirm_mutual_relationship load_proposal
confirm-Sound t id c v t' e s n =
    let (p, loaded, e1) = >>=-eq-ok (load_proposal t id) _ e in
    let e2 =
      guarded (not (p.subject_entity_id == c.actor || p.object_entity_id == c.actor))
        mutual_confirmer_not_party _ e1 in
    let e3 = guarded (c.actor == p.proposed_by) mutual_second_party_required _ e2 in
    let (at, _, e4) = >>=-eq-ok (action_time t c.action) _ e3 in
    let (before, _, e5) = >>=-eq-ok (action_time t p.proposal_action) _ e4 in
    let (t1, confirmed, e6) = >>=-eq-ok (insert_confirmation t (confirmation p c)) _ e5 in
    let (t2, headed, e7) = >>=-eq-ok (header_for t1 p) _ e6 in
    let here = or_fail-eq-ok (find_proposal id t.proposals) _ loaded in
    let good = (found-GoodProposal id t.proposals p s.proposals here).0 in
    let (s1, n1) : Sound t1 × IsNamed t1 =
      subst (λ u. Sound u × IsNamed u)
        (sym (inserted_confirmation t (confirmation p c) t1 confirmed))
        (record { headers = s.headers; proposals = s.proposals }, n) in
    let (s2, n2) = header_for-Sound t1 p t2 _ refl headed good s1 n1 in
    written-Sound t2 _ v t' e7 s2 n2

-- A mutual type is `mutual_friendship`.
mutual_kind :
    (given : Option String) (kind : String) (found : Option Rule)
    → require_relationship_type given ≡ ok (kind, found)
    → is_mutual found ≡ true
    → kind ≡ "mutual_friendship"
mutual_kind given kind none typed m = cc
mutual_kind given kind (some r) typed m =
    subst (λ u. KindFor u kind) (is_mutual_eq r.mode m)
      (registered-Fits kind r (sym (required_found given kind (some r) typed))).shape

third_false : (a b c : Bool) → (a || b || c) ≡ false → c ≡ false
third_false true b c h = cc
third_false false true c h = cc
third_false false false c h = h

either_order :
    (a b x y : String) (o : Bool)
    → (a == b) ≡ false
    → ◌≡◌ {A = Result (String × String)} (ok (if o then (a, b) else (b, a))) (ok (x, y))
    → (x == y) ≡ false
either_order a b x y true n e = subst (λ u. (u.0 == u.1) ≡ false) (ok_inj e) n
either_order a b x y false n e = subst (λ u. (u.0 == u.1) ≡ false) (ok_inj e) (eq_comm b a ∙ n)

pair_distinct : (a b x y : String) → canonical_mutual_pair a b ≡ ok (x, y) → (x == y) ≡ false
unfolding canonical_mutual_pair
pair_distinct a b x y h =
    let (_, apart, e) =
      >>=-eq-ok (fail_if (a == "" || b == "" || a == b) invalid_relationship_parties) _ h in
    either_order a b x y (before a b)
      (third_false (a == "") (b == "") (a == b) (fail_if-eq-ok _ _ apart)) e

pub propose-Sound :
    (h : Host) (t : Tables) (q : Proposing) (c : Context) (p : Proposal) (t' : Tables)
    → propose_mutual_relationship h t q c ≡ ok (p, t')
    → Sound t
    → IsNamed t
    → Sound t' × IsNamed t'
unfolding propose_mutual_relationship
propose-Sound h t q c p t' e s n =
    let ((kind, found), typed, e1) =
      >>=-eq-ok (require_relationship_type q.relationship_type) _ e in
    let (_, mut, e2) =
      >>=-eq-ok (fail_if (not (is_mutual found)) relationship_mode_mismatch) _ e1 in
    let (state, _, e3) = >>=-eq-ok (require_state h q.status q.dispute_status) _ e2 in
    let (period, _, e4) =
      >>=-eq-ok (require_period h state.status q.valid_from q.valid_until) _ e3 in
    let ((x, y), paired, e5) =
      >>=-eq-ok (canonical_mutual_pair q.subject_entity_id q.object_entity_id) _ e4 in
    let (_, party, e6) =
      >>=-eq-ok (fail_if (not (x == c.actor || y == c.actor)) mutual_proposer_not_party) _ e5 in
    let ((id, version), _, e7) =
      >>=-eq-ok (target_of t q.relationship_id q.fresh_id x y kind) _ e6 in
    let (at, _, e8) = >>=-eq-ok (action_time t c.action) _ e7 in
    subst (λ u. Sound u.1 × IsNamed u.1) (ok_inj e8)
      (
        record {
          headers = s.headers;
          proposals = (
            record {
              kind =
                  mutual_kind q.relationship_type kind found typed
                    (true_of_not _ (fail_if-eq-ok _ _ mut));
              distinct = pair_distinct _ _ x y paired;
              party = true_of_not _ (fail_if-eq-ok _ _ party);
            },
            s.proposals,
          );
        },
        n,
      )
