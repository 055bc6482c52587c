-- ===== src/Social/Steps.antt =====
-- The tables that the operations make, and the versions that they write.
use new_humans.Prelude.{
  ℕ, Bool, true, false, not, ◌∷◌, some, ok, fail_if, ◌==◌, ◌&&◌, ◌||◌, ◌≡◌, refl, sym, ap, subst,
  ◌∙◌, eqb, >>=-eq-ok, guarded, fail_if-eq-ok, ok_inj, eq_iff, unique_violation,
  mutual_confirmer_not_party, mutual_second_party_required, relationship_header_mismatch,
}
use new_humans.Social.Rows.{
  Mode, mutual_mode, unilateral, derived, is_mutual_mode, Header, Version, Proposal, Confirmation,
  Tables, Context, action_time, find_header, load_header, find_proposal, load_proposal,
  insert_confirmation, confirmed_by,
}
use new_humans.Social.Mutual.{same_header, existing_header, header_for, confirm_mutual_relationship}
use new_humans.Social.Evidence.{is_action_of, validate_relationship_version_evidence}
use new_humans.Social.Sound.{Sound, found-GoodProposal}
use new_humans.Social.Valid.{inserted_header, loaded_header, under_header_here-Valid, found_here}
use new_humans.Social.Actions.{IsNamed, IsIssued, action_named, acted_at, or_fail-eq-ok}
use new_humans.Social.Confirmed.{MutualHeader, confirmation, confirmed_row-Valid}

pub is_mutual_eq : (m : Mode) → is_mutual_mode m ≡ true → m ≡ mutual_mode
is_mutual_eq unilateral h = cc
is_mutual_eq mutual_mode h = refl
is_mutual_eq derived h = cc

pub true_of_not : (b : Bool) → not b ≡ false → b ≡ true
true_of_not true h = refl
true_of_not false h = cc

four :
    (a b c d : Bool) → (a && b && c && d) ≡ true → (a ≡ true) × (b ≡ true) × (c ≡ true) × (d ≡ true)
four true true true true h = (refl, refl, refl, refl)
four true true true false h = cc
four true true false d h = cc
four true false c d h = cc
four false b c d h = cc

same-MutualHeader :
    (h : Header) (p : Proposal)
    → same_header h p.subject_entity_id p.object_entity_id p.relationship_type ≡ true
    → MutualHeader h p
same-MutualHeader h p e =
    let (a, b, c, d) = four _ _ _ _ e in
    record {
      mode = is_mutual_eq h.relationship_mode a;
      first = (eq_iff h.subject_entity_id p.subject_entity_id).0 b;
      second = (eq_iff h.object_entity_id p.object_entity_id).0 c;
      kind = (eq_iff h.relationship_type p.relationship_type).0 d;
    }

-- The header that a confirmation finds or inserts.
record Headed (t t' : Tables) (p : Proposal) : Type 0 where
  header : Header
  found : find_header p.relationship_id t'.headers ≡ some header
  matches : MutualHeader header p
  proposals : t'.proposals ≡ t.proposals
  confirmations : t'.confirmations ≡ t.confirmations
  actions : t'.actions ≡ t.actions

header_for-Headed :
    (t : Tables) (p : Proposal) (t' : Tables) (b : Bool)
    → eqb p.relationship_version 1 ≡ b
    → header_for t p ≡ ok t'
    → Headed t t' p
unfolding header_for existing_header
header_for-Headed t p t' true first e =
    let made = inserted_header t _ t' (rw first at e) in
    record {
      header = _;
      found =
          ap (λ u. find_header p.relationship_id u.headers) made
          ∙ found_here _ t.headers p.relationship_id refl;
      matches = record { mode = refl; first = refl; second = refl; kind = refl };
      proposals = ap (λ u. u.proposals) made;
      confirmations = ap (λ u. u.confirmations) made;
      actions = ap (λ u. u.actions) made;
    }
header_for-Headed t p t' false later e =
    let (h, loaded, e1) = >>=-eq-ok (load_header t p.relationship_id) _ (rw later at e) in
    let (_, same, e2) =
      >>=-eq-ok
        (fail_if (not (same_header h p.subject_entity_id p.object_entity_id p.relationship_type))
          relationship_header_mismatch)
        _ e1 in
    let kept = ok_inj e2 in
    record {
      header = h;
      found =
          subst (λ u. find_header p.relationship_id u.headers ≡ some h) kept
            (loaded_header t p.relationship_id h loaded);
      matches = same-MutualHeader h p (true_of_not _ (fail_if-eq-ok _ _ same));
      proposals = ap (λ u. u.proposals) (sym kept);
      confirmations = ap (λ u. u.confirmations) (sym kept);
      actions = ap (λ u. u.actions) (sym kept);
    }

pub inserted_confirmation :
    (t : Tables) (c : Confirmation) (t' : Tables)
    → insert_confirmation t c ≡ ok t'
    → t' ≡ record t { confirmations = c ∷ t.confirmations }
unfolding insert_confirmation
inserted_confirmation t c t' e =
    sym (
      ok_inj
        (guarded (confirmed_by c.proposal_id c.confirmer t.confirmations) unique_violation _ e))

pub confirm-Valid :
    (t : Tables) (id : ℕ) (c : Context) (v : Version) (t' : Tables)
    → confirm_mutual_relationship t id c ≡ ok (v, t')
    → Sound t
    → IsNamed t
    → IsIssued t c
    → validate_relationship_version_evidence t' v ≡ true
unfolding confirm_mutual_relationship load_proposal
confirm-Valid t id c v t' e sound named issued =
    let (p, loaded, e1) = >>=-eq-ok (load_proposal t id) _ e in
    let (_, party, e2) =
      >>=-eq-ok
        (fail_if (not (p.subject_entity_id == c.actor || p.object_entity_id == c.actor))
          mutual_confirmer_not_party)
        _ e1 in
    let (_, other, e3) =
      >>=-eq-ok (fail_if (c.actor == p.proposed_by) mutual_second_party_required) _ e2 in
    let (at, timed, e4) = >>=-eq-ok (action_time t c.action) _ e3 in
    let (before, timed_before, e5) = >>=-eq-ok (action_time t p.proposal_action) _ e4 in
    let (t1, confirmed, e6) = >>=-eq-ok (insert_confirmation t (confirmation p c)) _ e5 in
    let (t2, headed, e7) = >>=-eq-ok (header_for t1 p) _ e6 in
    let h = header_for-Headed t1 p t2 _ refl headed in
    let rows = inserted_confirmation t (confirmation p c) t1 confirmed in
    let here = or_fail-eq-ok (find_proposal id t.proposals) _ loaded in
    let (good, same_id) = found-GoodProposal id t.proposals p sound.proposals here in
    under_header_here-Valid t2 _ h.header v t' e7 h.found
      (confirmed_row-Valid _ h.header p c before at t.confirmations h.matches good
        (ap (λ u. find_proposal p.proposal_id u) (h.proposals ∙ ap (λ u. u.proposals) rows)
          ∙ ap (λ u. find_proposal u t.proposals) same_id
          ∙ here)
        (h.confirmations ∙ ap (λ u. u.confirmations) rows) (true_of_not _ (fail_if-eq-ok _ _ party))
        (fail_if-eq-ok _ _ other) (action_named t p.proposal_action before named timed_before)
        (action_named t c.action at named timed))
      (subst (λ u. is_action_of c.actor at (u c.action) ≡ true)
        (sym (h.actions ∙ ap (λ u. u.actions) rows)) (acted_at t c at issued timed))
