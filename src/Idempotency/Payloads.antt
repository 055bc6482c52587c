-- ===== src/Idempotency/Payloads.antt =====
-- Which payloads have a digest, and that a copy through JSON leaves those as they are.
use new_humans.Prelude.{String, ◌≡◌, refl, ap, ◌↔◌, List, ◌∷◌, ok, arith, Result-cases, inl, inr}
use new_humans.Js.{
  int, fraction, not_finite, Number, Value, undefined, null, function, boolean, number, string,
  array, object, instance_of, Items, nil, cons, Fields, end, field,
}
use new_humans.Js.Json.{json_copy, copy_items, copy_fields, copied_item, copied_field, join, ◌<>◌}
use new_humans.Idempotency.Canonical.{
  canonicalize_json, canonical_items, canonical_fields, object_text,
}

abbrev IsFinite : Number → Type 0
IsFinite not_finite = ⊥
IsFinite _ = Unit {0}

-- A value that JSON can say: no `undefined`, function or non-finite number, and plain objects only.
abbrev mutual
  pub IsJson : Value → Type 0
  IsJson undefined = ⊥
  IsJson function = ⊥
  IsJson null = Unit {0}
  IsJson (boolean b) = Unit {0}
  IsJson (number n) = IsFinite n
  IsJson (string s) = Unit {0}
  IsJson (array xs) = ItemsAreJson xs
  IsJson (object fs) = FieldsAreJson fs
  IsJson (instance_of fs) = ⊥

  pub ItemsAreJson : Items → Type 0
  ItemsAreJson nil = Unit {0}
  ItemsAreJson (cons v xs) = IsJson v × ItemsAreJson xs

  pub FieldsAreJson : Fields → Type 0
  FieldsAreJson end = Unit {0}
  FieldsAreJson (field k v fs) = IsJson v × FieldsAreJson fs

mutual
  unfolding canonicalize_json

  IsJson-of_ok : (v : Value) {t : String} → canonicalize_json v ≡ ok t → IsJson v
  IsJson-of_ok undefined h = cc
  IsJson-of_ok function h = cc
  IsJson-of_ok null h = tt
  IsJson-of_ok (boolean b) h = tt
  IsJson-of_ok (number (int z)) h = tt
  IsJson-of_ok (number (fraction t)) h = tt
  IsJson-of_ok (number not_finite) h = cc
  IsJson-of_ok (string s) h = tt
  IsJson-of_ok (array xs) h = elim (Result-cases (canonical_items xs)) [
    | inl (ts, e) ↦ items_of_ok xs e
    | inr (c, e) ↦ absurd (ground arith)
  ]
  IsJson-of_ok (object fs) h = elim (Result-cases (canonical_fields fs)) [
    | inl (ts, e) ↦ fields_of_ok fs e
    | inr (c, e) ↦ absurd (ground arith)
  ]
  IsJson-of_ok (instance_of fs) h = cc

  items_of_ok : (xs : Items) {ts : List String} → canonical_items xs ≡ ok ts → ItemsAreJson xs
  items_of_ok nil h = tt
  items_of_ok (cons v xs) h = elim (Result-cases (canonicalize_json v)) [
    | inl (t, e) ↦ elim (Result-cases (canonical_items xs)) [
      | inl (ts, e') ↦ (IsJson-of_ok v e, items_of_ok xs e')
      | inr (c, e') ↦ absurd (ground arith)
    ]
    | inr (c, e) ↦ absurd (ground arith)
  ]

  fields_of_ok :
      (fs : Fields) {es : List (String × String)} → canonical_fields fs ≡ ok es → FieldsAreJson fs
  fields_of_ok end h = tt
  fields_of_ok (field k v fs) h = elim (Result-cases (canonicalize_json v)) [
    | inl (t, e) ↦ elim (Result-cases (canonical_fields fs)) [
      | inl (ts, e') ↦ (IsJson-of_ok v e, fields_of_ok fs e')
      | inr (c, e') ↦ absurd (ground arith)
    ]
    | inr (c, e) ↦ absurd (ground arith)
  ]

mutual
  unfolding canonicalize_json

  text_of_json : (v : Value) → IsJson v → (t : String) × (canonicalize_json v ≡ ok t)
  text_of_json undefined h = absurd h
  text_of_json function h = absurd h
  text_of_json null h = (_, refl)
  text_of_json (boolean b) h = (_, refl)
  text_of_json (number (int z)) h = (_, refl)
  text_of_json (number (fraction t)) h = (_, refl)
  text_of_json (number not_finite) h = absurd h
  text_of_json (string s) h = (_, refl)
  text_of_json (array xs) h = let (ts, e) = texts_of_items xs h in ("[" <> join ts <> "]", rw e)
  text_of_json (object fs) h = let (es, e) = texts_of_fields fs h in (object_text es, rw e)
  text_of_json (instance_of fs) h = absurd h

  texts_of_items :
      (xs : Items) → ItemsAreJson xs → (ts : List String) × (canonical_items xs ≡ ok ts)
  texts_of_items nil h = (_, refl)
  texts_of_items (cons v xs) (p, h) =
      let (t, e) = text_of_json v p in let (ts, e') = texts_of_items xs h in (t ∷ ts, rw (e, e'))

  texts_of_fields :
      (fs : Fields)
      → FieldsAreJson fs
      → (es : List (String × String)) × (canonical_fields fs ≡ ok es)
  texts_of_fields end h = (_, refl)
  texts_of_fields (field k v fs) (p, h) =
      let (t, e) = text_of_json v p in
      let (es, e') = texts_of_fields fs h in ((k, t) ∷ es, rw (e, e'))

-- A payload has a canonical text, and so a digest, exactly when it is a JSON value.
pub canonicalize_iff : (v : Value) → ((t : String) × (canonicalize_json v ≡ ok t)) ↔ IsJson v
canonicalize_iff v = ((λ p. IsJson-of_ok v p.1), text_of_json v)

copied_item-json : (v : Value) → IsJson v → copied_item v ≡ v
copied_item-json undefined h = absurd h
copied_item-json null h = refl
copied_item-json _ h = refl

copied_field-json :
    (k : String) (v : Value) (fs : Fields) → IsJson v → copied_field k v fs ≡ field k v fs
copied_field-json k undefined fs h = absurd h
copied_field-json k null fs h = refl
copied_field-json k _ fs h = refl

mutual
  unfolding json_copy

  copy_json : (v : Value) → IsJson v → json_copy v ≡ v
  copy_json undefined h = absurd h
  copy_json function h = absurd h
  copy_json null h = refl
  copy_json (boolean b) h = refl
  copy_json (number (int z)) h = refl
  copy_json (number (fraction t)) h = refl
  copy_json (number not_finite) h = absurd h
  copy_json (string s) h = refl
  copy_json (array xs) h = rw (copy_json_items xs h)
  copy_json (object fs) h = rw (copy_json_fields fs h)
  copy_json (instance_of fs) h = absurd h

  copy_json_items : (xs : Items) → ItemsAreJson xs → copy_items xs ≡ xs
  copy_json_items nil h = refl
  copy_json_items (cons v xs) (p, h) =
      rw (copy_json v p, copy_json_items xs h) (ap (λ w. cons w xs) (copied_item-json v p))

  copy_json_fields : (fs : Fields) → FieldsAreJson fs → copy_fields fs ≡ fs
  copy_json_fields end h = refl
  copy_json_fields (field k v fs) (p, h) =
      rw (copy_json v p, copy_json_fields fs h) (copied_field-json k v fs p)

-- A payload that has a digest comes back unchanged from a copy through JSON, so that no value of
-- it can disappear between the digest and the copy.
pub json_copy-canonical : (v : Value) {t : String} → canonicalize_json v ≡ ok t → json_copy v ≡ v
json_copy-canonical v h = copy_json v (IsJson-of_ok v h)
