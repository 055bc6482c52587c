-- ===== src/Social/Sound.antt =====
-- What the rows of every reachable state keep: headers of registered types, and proposals by one of
-- two distinct parties.
use new_humans.Prelude.{
  ℕ, String, true, false, List, [], ◌∷◌, some, ◌==◌, ◌||◌, ◌≡◌, inl, inr, subst, eqb, eqb_iff,
  some_inj, Bool-cases,
}
use new_humans.Social.Rows.{Header, Proposal, Tables, find_header, find_proposal}
use new_humans.Social.Rules.{find_rule, type_rules, Rule}

pub record GoodHeader (h : Header) : Type 0 where
  pub rule : Rule
  pub registered : find_rule h.relationship_type type_rules ≡ some rule
  pub mode : h.relationship_mode ≡ rule.mode

pub record GoodProposal (p : Proposal) : Type 0 where
  pub kind : p.relationship_type ≡ "mutual_friendship"
  pub distinct : (p.subject_entity_id == p.object_entity_id) ≡ false
  pub party : (p.subject_entity_id == p.proposed_by || p.object_entity_id == p.proposed_by) ≡ true

abbrev pub AllGoodHeaders : List Header → Type 0
AllGoodHeaders [] = Unit {0}
AllGoodHeaders (h ∷ hs) = GoodHeader h × AllGoodHeaders hs

abbrev pub AllGoodProposals : List Proposal → Type 0
AllGoodProposals [] = Unit {0}
AllGoodProposals (p ∷ ps) = GoodProposal p × AllGoodProposals ps

pub record Sound (t : Tables) : Type 0 where
  pub headers : AllGoodHeaders t.headers
  pub proposals : AllGoodProposals t.proposals

pub found-GoodHeader :
    (id : String) (hs : List Header) (h : Header)
    → AllGoodHeaders hs
    → find_header id hs ≡ some h
    → GoodHeader h
unfolding find_header
found-GoodHeader id [] h g f = cc
found-GoodHeader id (k ∷ ks) h (g, gs) f = elim (Bool-cases (k.relationship_id == id)) [
  | inl same ↦ subst (λ u. GoodHeader u) (some_inj (rw same at f)) g
  | inr other ↦ found-GoodHeader id ks h gs (rw other at f)
]

pub found-GoodProposal :
    (id : ℕ) (ps : List Proposal) (p : Proposal)
    → AllGoodProposals ps
    → find_proposal id ps ≡ some p
    → GoodProposal p × (p.proposal_id ≡ id)
unfolding find_proposal
found-GoodProposal id [] p g f = cc
found-GoodProposal id (q ∷ qs) p (g, gs) f = elim (Bool-cases (eqb q.proposal_id id)) [
  | inl same ↦
      subst (λ u. GoodProposal u × (u.proposal_id ≡ id)) (some_inj (rw same at f))
        (g, (eqb_iff q.proposal_id id).0 same)
  | inr other ↦ found-GoodProposal id qs p gs (rw other at f)
]
