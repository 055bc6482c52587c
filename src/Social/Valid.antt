-- ===== src/Social/Valid.antt =====
-- The versions that `recordRelationship` and `appendRelationshipVersion` write pass the database's
-- deferred trigger.
use new_humans.Prelude.{
  relationship_mode_mismatch, String, Bool, true, false, not, List, ◌∷◌, Option, none, some, ok,
  fail_if, ◌==◌, ◌&&◌, ◌||◌, ◌≡◌, refl, sym, ap, subst, ◌∙◌, eqb, >>=-eq-ok, guarded, fail_if-eq-ok,
  ok_inj, some_inj, eq_refl, check_violation, unique_violation, mutual_confirmations_required,
  invalid_relationship_parties, unilateral_actor_mismatch,
}
use new_humans.Prelude.Int.{ℤ}
use new_humans.Social.Rows.{
  Host, Mode, unilateral, mutual_mode, derived, is_mutual_mode, is_unilateral, Header, Version,
  Tables, Context, action_time, find_header, load_header, is_taken, next_version, insert_header,
  insert_version,
}
use new_humans.Social.Rules.{
  mode_text, Rule, SourceRef, type_rules, find_rule, require_relationship_type, is_mutual,
  require_mode, require_state, require_period, actor_provenance,
}
use new_humans.Social.Records.{
  Recording, Revision, provenance_for, mode_or_empty, registered, record_relationship,
  append_relationship_version,
}
use new_humans.Social.Evidence.{
  is_spaces, valid_with_header, validate_relationship_version_evidence,
}
use new_humans.Social.Types.{Fits, required_found, required_trim, registered-Fits}
use new_humans.Social.Sources.{actor-Provenance, derived-Provenance}
use new_humans.Social.Actions.{IsNamed, IsIssued, IsActed, acted_at, action_named, or_fail-eq-ok}
use new_humans.Social.Sound.{Sound, found-GoodHeader}

pub inserted_version :
    (t : Tables) (v u : Version) (t' : Tables)
    → insert_version t v ≡ ok (u, t')
    → (u ≡ v) × (t' ≡ record t { versions = v ∷ t.versions })
unfolding insert_version
inserted_version t v u t' h =
    let e =
      ok_inj
        (guarded (not (eqb v.version (next_version t v.relationship_id))) check_violation _ h) in
    (ap (λ q. q.0) (sym e), ap (λ q. q.1) (sym e))

pub inserted_header :
    (t : Tables) (h : Header) (t' : Tables)
    → insert_header t h ≡ ok t'
    → t' ≡ record t { headers = h ∷ t.headers }
unfolding insert_header
inserted_header t h t' e =
    sym (ok_inj (guarded (is_taken (find_header h.relationship_id t.headers)) unique_violation _ e))

pub loaded_header :
    (t : Tables) (id : String) (h : Header)
    → load_header t id ≡ ok h
    → find_header id t.headers ≡ some h
unfolding load_header
loaded_header t id h e = or_fail-eq-ok (find_header id t.headers) _ e

own_true : (b : Bool) → (true && not b) ≡ false → b ≡ true
own_true true h = refl
own_true false h = cc

and_both : (a b : Bool) → a ≡ true → b ≡ true → (a && b) ≡ true
and_both a b p q = rw (p, q)

-- One party's version, under its header.
one_party-Valid :
    (host : Host) (t : Tables) (h : Header) (v : Version) (m : Mode) (r : Rule) (at : ℤ)
    → (source : Option SourceRef) → h.relationship_mode ≡ m
    → r.mode ≡ m
    → is_mutual_mode m ≡ false
    → (is_unilateral m && not (v.recorded_by == h.subject_entity_id)) ≡ false
    → provenance_for host m r v.recorded_action at source ≡ ok v.provenance
    → Fits h.relationship_type r
    → is_spaces v.recorded_action ≡ false
    → v.mutual_proposal_id ≡ none
    → valid_with_header t v (some h) ≡ true
unfolding provenance_for actor_provenance
one_party-Valid host t h v unilateral r at source hm rm n own p f a none_proposed =
    let same = ok_inj p in
    rw (hm, own_true _ own, none_proposed, ← same)
      (and_both _ _ (actor-Provenance h.relationship_type r v.recorded_action at f rm a)
        (eq_refl v.recorded_action))
one_party-Valid host t h v mutual_mode r at source hm rm n own p f a none_proposed = cc
one_party-Valid host t h v derived r at source hm rm n own p f a none_proposed =
    rw (hm, none_proposed, derived-Provenance host h.relationship_type r source v.provenance p f rm)

pub found_here :
    (h : Header) (hs : List Header) (id : String)
    → h.relationship_id ≡ id
    → find_header id (h ∷ hs) ≡ some h
unfolding find_header
found_here h hs id e = rw (e, eq_refl id)

written_under :
    (t : Tables) (v : Version) (h : Header)
    → find_header v.relationship_id t.headers ≡ some h
    → valid_with_header t v (some h) ≡ true
    → IsActed t v
    → validate_relationship_version_evidence t v ≡ true
unfolding validate_relationship_version_evidence
written_under t v h f e a = rw f (and_both _ _ e a)

pub under_header_here-Valid :
    (t : Tables) (v : Version) (h : Header) (u : Version) (t' : Tables)
    → insert_version t v ≡ ok (u, t')
    → find_header v.relationship_id t.headers ≡ some h
    → valid_with_header (record t { versions = v ∷ t.versions }) v (some h) ≡ true
    → IsActed t v
    → validate_relationship_version_evidence t' u ≡ true
under_header_here-Valid t v h u t' e f valid acted =
    let (same, rows) = inserted_version t v u t' e in
    rw (same, rows) (written_under _ v h f valid acted)

pub under_header-Valid :
    (t : Tables) (v : Version) (h : Header) (u : Version) (t' : Tables)
    → insert_version t v ≡ ok (u, t')
    → find_header v.relationship_id t.headers ≡ some h
    → ((rows : Tables) → valid_with_header rows v (some h) ≡ true)
    → IsActed t v
    → validate_relationship_version_evidence t' u ≡ true
under_header-Valid t v h u t' e f valid acted =
    under_header_here-Valid t v h u t' e f (valid _) acted

new_header-Valid :
    (t : Tables) (h : Header) (t1 : Tables) (v u : Version) (t' : Tables)
    → insert_header t h ≡ ok t1
    → insert_version t1 v ≡ ok (u, t')
    → h.relationship_id ≡ v.relationship_id
    → ((rows : Tables) → valid_with_header rows v (some h) ≡ true)
    → IsActed t v
    → validate_relationship_version_evidence t' u ≡ true
new_header-Valid t h t1 v u t' e f same valid acted =
    under_header-Valid t1 v h u t' f
      (ap (λ r. find_header v.relationship_id r.headers) (inserted_header t h t1 e)
        ∙ found_here h t.headers v.relationship_id same)
      valid (subst (λ r. IsActed r v) (sym (inserted_header t h t1 e)) acted)

not_mutual : (r : Rule) → is_mutual_mode r.mode ≡ false → is_mutual (some r) ≡ false
not_mutual r h = h

pub ruled :
    (mode : String) (found : Option Rule) (r : Rule)
    → require_mode mode found ≡ ok r
    → found ≡ some r
unfolding require_mode
ruled mode none r h = cc
ruled mode (some q) r h =
    ap (λ u. some u)
      (ok_inj (guarded (not (mode == mode_text q.mode)) relationship_mode_mismatch _ h))

pub record-Valid :
    (h : Host) (t : Tables) (q : Recording) (c : Context) (v : Version) (t' : Tables)
    → record_relationship h t q c ≡ ok (v, t')
    → IsNamed t
    → IsIssued t c
    → validate_relationship_version_evidence t' v ≡ true
unfolding record_relationship
record-Valid h t q c v t' e named issued =
    let ((kind, found), typed, e1) =
      >>=-eq-ok (require_relationship_type q.relationship_type) _ e in
    let (_, single, e2) =
      >>=-eq-ok (fail_if (is_mutual found) mutual_confirmations_required) _ e1 in
    let (rule, modal, e3) =
      >>=-eq-ok (require_mode (h.upper_case (mode_or_empty q.mode)) found) _ e2 in
    let (state, _, e4) = >>=-eq-ok (require_state h q.status q.dispute_status) _ e3 in
    let (period, _, e5) =
      >>=-eq-ok (require_period h state.status q.valid_from q.valid_until) _ e4 in
    let e6 =
      guarded
        (q.subject_entity_id == ""
          || q.object_entity_id == ""
          || q.subject_entity_id == q.object_entity_id)
        invalid_relationship_parties _ e5 in
    let (_, own, e7) =
      >>=-eq-ok
        (fail_if (is_unilateral rule.mode && not (c.actor == q.subject_entity_id))
          unilateral_actor_mismatch)
        _ e6 in
    let (at, timed, e8) = >>=-eq-ok (action_time t c.action) _ e7 in
    let (p, sourced, e9) =
      >>=-eq-ok (provenance_for h rule.mode rule c.action at q.source_ref) _ e8 in
    let (t1, headed, e10) = >>=-eq-ok (insert_header t _) _ e9 in
    let some_rule = ruled _ found rule modal in
    let fits =
      registered-Fits kind rule
        (sym (required_found q.relationship_type kind found typed) ∙ some_rule) in
    new_header-Valid t _ t1 _ v t' headed e10 refl
      (λ rows.
        one_party-Valid h rows _ _ rule.mode rule at q.source_ref refl refl
          (subst (λ u. is_mutual u ≡ false) some_rule (fail_if-eq-ok _ _ single))
          (fail_if-eq-ok _ _ own) sourced fits (action_named t c.action at named timed) refl)
      (acted_at t c at issued timed)

registered-eq-ok : (found : Option Rule) (r : Rule) → registered found ≡ ok r → found ≡ some r
registered-eq-ok none r h = cc
registered-eq-ok (some q) r h = ap (λ u. some u) (ok_inj h)

-- The type of a header is looked up again, trimmed.
same_rule :
    (given kind : String) (found : Option Rule) (r good : Rule)
    → require_relationship_type (some given) ≡ ok (kind, found)
    → registered found ≡ ok r
    → find_rule given type_rules ≡ some good
    → r ≡ good
same_rule given kind found r good typed known f =
    let trimmed = required_trim given kind found typed ∙ (registered-Fits given good f).trimmed in
    some_inj (
      sym (registered-eq-ok found r known)
      ∙ required_found (some given) kind found typed
      ∙ ap (λ u. find_rule u type_rules) trimmed
      ∙ f)

pub append-Valid :
    (h : Host) (t : Tables) (q : Revision) (c : Context) (v : Version) (t' : Tables)
    → append_relationship_version h t q c ≡ ok (v, t')
    → Sound t
    → IsNamed t
    → IsIssued t c
    → validate_relationship_version_evidence t' v ≡ true
unfolding append_relationship_version
append-Valid h t q c v t' e sound named issued =
    let (header, loaded, e1) = >>=-eq-ok (load_header t q.relationship_id) _ e in
    let (_, single, e2) =
      >>=-eq-ok (fail_if (is_mutual_mode header.relationship_mode) mutual_confirmations_required) _
        e1 in
    let (_, own, e3) =
      >>=-eq-ok
        (fail_if
          (is_unilateral header.relationship_mode && not (c.actor == header.subject_entity_id))
          unilateral_actor_mismatch)
        _ e2 in
    let ((kind, found), typed, e4) =
      >>=-eq-ok (require_relationship_type (some header.relationship_type)) _ e3 in
    let (rule, known, e5) = >>=-eq-ok (registered found) _ e4 in
    let (state, _, e6) = >>=-eq-ok (require_state h q.status q.dispute_status) _ e5 in
    let (period, _, e7) =
      >>=-eq-ok (require_period h state.status q.valid_from q.valid_until) _ e6 in
    let (at, timed, e8) = >>=-eq-ok (action_time t c.action) _ e7 in
    let (p, sourced, e9) =
      >>=-eq-ok (provenance_for h header.relationship_mode rule c.action at q.source_ref) _ e8 in
    let here = loaded_header t q.relationship_id header loaded in
    let good = found-GoodHeader q.relationship_id t.headers header sound.headers here in
    let fits = registered-Fits header.relationship_type good.rule good.registered in
    let equal =
      same_rule header.relationship_type kind found rule good.rule typed known good.registered in
    under_header-Valid t _ header v t' e9 here
      (λ rows.
        one_party-Valid h rows header _ header.relationship_mode rule at q.source_ref refl
          (ap (λ u. u.mode) equal ∙ sym good.mode) (fail_if-eq-ok _ _ single)
          (fail_if-eq-ok _ _ own) sourced
          (subst (λ u. Fits header.relationship_type u) (sym equal) fits)
          (action_named t c.action at named timed) refl)
      (acted_at t c at issued timed)
