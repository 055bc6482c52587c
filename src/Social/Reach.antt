-- ===== src/Social/Reach.antt =====
-- Every version written in a reachable state passes the database's deferred trigger.
use new_humans.Prelude.{ℕ, String, true, [], Option, ok, ◌≡◌}
use new_humans.Social.Rows.{ActionRow, Host, Version, Proposal, Tables, Context}
use new_humans.Social.Records.{
  Recording, Revision, record_relationship, append_relationship_version,
}
use new_humans.Social.Mutual.{confirm_mutual_relationship, Proposing, propose_mutual_relationship}
use new_humans.Social.Evidence.{validate_relationship_version_evidence}
use new_humans.Social.Sound.{Sound}
use new_humans.Social.Actions.{IsNamed, IsIssued}
use new_humans.Social.Valid.{record-Valid, append-Valid}
use new_humans.Social.Steps.{confirm-Valid}
use new_humans.Social.Keeps.{record-Sound, append-Sound, confirm-Sound, propose-Sound}

abbrev pub empty_tables : (String → Option ActionRow) → Tables
empty_tables actions = record {
  headers = [];
  versions = [];
  proposals = [];
  confirmations = [];
  actions = actions;
  next_id = 0;
}

module _ (h : Host) where
  -- An operation that returned a version, called by a command whose action is its actor's.
  pub data Writes (t : Tables) (v : Version) (t' : Tables) : Type 0 where
    records :
        (q : Recording) (c : Context)
        → IsIssued t c
        → record_relationship h t q c ≡ ok (v, t')
        → Writes t v t'
    appends :
        (q : Revision) (c : Context)
        → IsIssued t c
        → append_relationship_version h t q c ≡ ok (v, t')
        → Writes t v t'
    confirms :
        (id : ℕ) (c : Context)
        → IsIssued t c
        → confirm_mutual_relationship t id c ≡ ok (v, t')
        → Writes t v t'

  -- Actions come and go beside the tables; their identifiers are never blank.
  pub data Reachable : Tables → Type 0 where
    starts :
        {actions : String → Option ActionRow}
        → IsNamed (empty_tables actions)
        → Reachable (empty_tables actions)
    acts :
        {t : Tables} {actions : String → Option ActionRow}
        → Reachable t
        → IsNamed (record t { actions = actions })
        → Reachable (record t { actions = actions })
    writes : {t t' : Tables} {v : Version} → Reachable t → Writes t v t' → Reachable t'
    proposes :
        {t t' : Tables} {p : Proposal} (q : Proposing) (c : Context)
        → Reachable t
        → propose_mutual_relationship h t q c ≡ ok (p, t')
        → Reachable t'

write-Sound :
    (h : Host) {t t' : Tables} {v : Version}
    → Writes h t v t'
    → Sound t
    → IsNamed t
    → Sound t' × IsNamed t'
write-Sound h {t} {t'} {v} (records q c i e) s n = record-Sound h t q c v t' e s n
write-Sound h {t} {t'} {v} (appends q c i e) s n = append-Sound h t q c v t' e s n
write-Sound h {t} {t'} {v} (confirms id c i e) s n = confirm-Sound t id c v t' e s n

Reachable-Sound : (h : Host) (t : Tables) → Reachable h t → Sound t × IsNamed t
Reachable-Sound h t (starts n) = (record { headers = tt; proposals = tt }, n)
Reachable-Sound h t (acts {t = u} r n) =
    let (s, _) = Reachable-Sound h u r in
    (record { headers = s.headers; proposals = s.proposals }, n)
Reachable-Sound h t (writes {t = u} r w) = let (s, n) = Reachable-Sound h u r in write-Sound h w s n
Reachable-Sound h t (proposes {t = u} {p = p} q c r e) =
    let (s, n) = Reachable-Sound h u r in propose-Sound h u q c p t e s n

-- In every state that the operations make, whatever version a command records, appends or confirms by
-- an action of its own actor passes the checks of the database's deferred trigger: its header stands,
-- its action is its recorder's and was created when the version was changed, its source is what the
-- trigger expects of its type, a unilateral version is its subject's own, and a mutual one has a
-- matching proposal by one party and the confirmation of the other, which its source cites in their
-- roles.
pub Writes-Valid :
    (h : Host) (t : Tables) (v : Version) (t' : Tables)
    → Reachable h t
    → Writes h t v t'
    → validate_relationship_version_evidence t' v ≡ true
Writes-Valid h t v t' r (records q c i e) = record-Valid h t q c v t' e (Reachable-Sound h t r).1 i
Writes-Valid h t v t' r (appends q c i e) =
    let (s, n) = Reachable-Sound h t r in append-Valid h t q c v t' e s n i
Writes-Valid h t v t' r (confirms id c i e) =
    let (s, n) = Reachable-Sound h t r in confirm-Valid t id c v t' e s n i
