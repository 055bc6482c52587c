-- ===== src/Idempotency/Canonical.antt =====
-- The canonical text of a payload, and its digest.
use new_humans.Prelude.{
  String, List, [], ◌∷◌, map, if◌then◌else◌, Result, ok, err, invalid_kb_payload, ◌>>=◌,
}
use new_humans.Platform.{Platform}
use new_humans.Js.{
  not_finite, Value, undefined, null, function, boolean, number, string, array, object, instance_of,
  Items, nil, cons, Fields, end, field,
}
use new_humans.Js.Json.{quote, number_text, join, ◌<>◌}
use new_humans.Js.Order.{sort_entries}

abbrev pub entry_text : String × String → String
entry_text e = quote e.0 <> ":" <> e.1

-- The keys are sorted before the values are read. Every refusal has one code, so that the texts
-- may be taken in the object's order and sorted with their keys.
abbrev pub object_text : List (String × String) → String
object_text es = "{" <> join (map entry_text (sort_entries es)) <> "}"

unfoldable mutual
  unfolding number_text quote join sort_entries

  pub canonicalize_json : Value → Result String
  canonicalize_json null = ok "null"
  canonicalize_json (string s) = ok (quote s)
  canonicalize_json (boolean b) = ok (if b then "true" else "false")
  canonicalize_json (number not_finite) = err invalid_kb_payload
  canonicalize_json (number n) = ok (number_text n)
  canonicalize_json (array xs) = do ts ← canonical_items xs; ok ("[" <> join ts <> "]")
  canonicalize_json (object fs) = do es ← canonical_fields fs; ok (object_text es)
  canonicalize_json (instance_of fs) = err invalid_kb_payload
  canonicalize_json undefined = err invalid_kb_payload
  canonicalize_json function = err invalid_kb_payload

  pub canonical_items : Items → Result (List String)
  canonical_items nil = ok []
  canonical_items (cons v xs) = do t ← canonicalize_json v; ts ← canonical_items xs; ok (t ∷ ts)

  pub canonical_fields : Fields → Result (List (String × String))
  canonical_fields end = ok []
  canonical_fields (field k v fs) = do
    t ← canonicalize_json v
    es ← canonical_fields fs
    ok ((k, t) ∷ es)

unfoldable pub payload_digest : Platform → Value → Result String
unfolding canonicalize_json
payload_digest p v = do canonical ← canonicalize_json v; ok ("sha256:" <> p.sha256_hex canonical)
