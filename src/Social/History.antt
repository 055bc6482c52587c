-- ===== src/Social/History.antt =====
-- `getRelationshipHistory` and `toRelationshipContract` of src/services/social_relationships.js. The
-- time a header was created and the texts of dates are left out.
use new_humans.Prelude.{
  String, List, [], ◌∷◌, Option, none, some, Result, ok, err, ◌>>=◌, ltb, ◌==◌, if◌then◌else◌,
  relationship_version_required,
}
use new_humans.Prelude.Int.{ℤ}
use new_humans.Social.Rows.{Header, Version, Tables, State, Period, Provenance, load_header}

-- `ORDER BY version ASC`.
unfoldable pub insert_by_version : Version → List Version → List Version
insert_by_version v [] = v ∷ []
insert_by_version v (w ∷ ws) =
    let rest = insert_by_version v ws in if ltb w.version v.version then w ∷ rest else v ∷ w ∷ ws

unfoldable pub versions_of : String → List Version → List Version
unfolding insert_by_version
versions_of id [] = []
versions_of id (v ∷ vs) =
    let rest = versions_of id vs in
    if v.relationship_id == id then insert_by_version v rest else rest

pub record History : Type 0 where
  pub header : Header
  pub versions : List Version

unfoldable pub get_relationship_history : Tables → String → Result History
unfolding versions_of
get_relationship_history t id = do
  header ← load_header t id
  ok (record { header = header; versions = versions_of id t.versions })

-- `versions.at(-1)`.
unfoldable pub last_version : List Version → Option Version
last_version [] = none
last_version (v ∷ []) = some v
last_version (v ∷ w ∷ ws) = last_version (w ∷ ws)

pub record Contract : Type 0 where
  pub relationship_id : String
  pub subject_entity_id : String
  pub object_entity_id : String
  pub relationship_type : String
  pub state : State
  pub changed_at : ℤ
  pub time : Period
  pub provenance : Provenance

version_or_last : List Version → Option Version → Option Version
unfolding last_version
version_or_last vs (some v) = some v
version_or_last vs none = last_version vs

contract_of : Header → Option Version → Result Contract
contract_of h none = err relationship_version_required
contract_of h (some v) = ok record {
  relationship_id = h.relationship_id;
  subject_entity_id = h.subject_entity_id;
  object_entity_id = h.object_entity_id;
  relationship_type = h.relationship_type;
  state = v.state;
  changed_at = v.changed_at;
  time = v.period;
  provenance = v.provenance;
}

unfoldable pub to_relationship_contract : History → Option Version → Result Contract
unfolding version_or_last contract_of
to_relationship_contract h version = contract_of h.header (version_or_last h.versions version)
