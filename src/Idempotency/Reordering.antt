-- ===== src/Idempotency/Reordering.antt =====
-- The digest does not see the order of an object's keys.
use new_humans.Prelude.{
  Code, String, ◌≡◌, ◌≢◌, refl, sym, ap, ◌∙◌, List, ◌∷◌, Result, ok, err, ◌>>=◌, arith,
  Result-cases, ok_inj, inl, inr, invalid_kb_payload,
}
use new_humans.Platform.{Platform}
use new_humans.Js.{
  int, fraction, not_finite, Value, undefined, null, function, boolean, number, string, array,
  object, instance_of, Items, nil, cons, Fields, end, field,
}
use new_humans.Js.Order.{insert_entry, sort_entries}
use new_humans.Js.Order.Laws.{insert_entry_comm}
use new_humans.Idempotency.Canonical.{
  canonicalize_json, canonical_items, canonical_fields, object_text, payload_digest,
}

-- The same value but for the order of keys, at any depth.
mutual
  pub data Reordered : Value → Value → Type 0 where
    same : {v : Value} → Reordered v v
    arrays : {xs ys : Items} → ReorderedItems xs ys → Reordered (array xs) (array ys)
    objects : {fs gs : Fields} → ReorderedFields fs gs → Reordered (object fs) (object gs)

  pub data ReorderedItems : Items → Items → Type 0 where
    no_items : ReorderedItems nil nil
    each :
        {v w : Value} {xs ys : Items}
        → Reordered v w
        → ReorderedItems xs ys
        → ReorderedItems (cons v xs) (cons w ys)

  pub data ReorderedFields : Fields → Fields → Type 0 where
    no_fields : ReorderedFields end end
    keep :
        {k : String} {v w : Value} {fs gs : Fields}
        → Reordered v w
        → ReorderedFields fs gs
        → ReorderedFields (field k v fs) (field k w gs)
    swap :
        {k j : String} {v w : Value} {fs : Fields}
        → k ≢ j
        → ReorderedFields (field k v (field j w fs)) (field j w (field k v fs))
    chain :
        {fs gs hs : Fields} → ReorderedFields fs gs → ReorderedFields gs hs → ReorderedFields fs hs

mutual
  unfolding canonicalize_json

  only_code : (v : Value) {c : Code} → canonicalize_json v ≡ err c → c ≡ invalid_kb_payload
  only_code undefined h = cc
  only_code function h = cc
  only_code null h = cc
  only_code (boolean b) h = cc
  only_code (number (int z)) h = cc
  only_code (number (fraction t)) h = cc
  only_code (number not_finite) h = cc
  only_code (string s) h = cc
  only_code (array xs) h = elim (Result-cases (canonical_items xs)) [
    | inl (ts, e) ↦ absurd (ground arith)
    | inr (c, e) ↦ ground (arith, only_code_items xs e)
  ]
  only_code (object fs) h = elim (Result-cases (canonical_fields fs)) [
    | inl (ts, e) ↦ absurd (ground arith)
    | inr (c, e) ↦ ground (arith, only_code_fields fs e)
  ]
  only_code (instance_of fs) h = cc

  only_code_items : (xs : Items) {c : Code} → canonical_items xs ≡ err c → c ≡ invalid_kb_payload
  only_code_items nil h = cc
  only_code_items (cons v xs) h = elim (Result-cases (canonicalize_json v)) [
    | inl (t, e) ↦ elim (Result-cases (canonical_items xs)) [
      | inl (ts, e') ↦ absurd (ground arith)
      | inr (c, e') ↦ ground (arith, only_code_items xs e')
    ]
    | inr (c, e) ↦ ground (arith, only_code v e)
  ]

  only_code_fields : (fs : Fields) {c : Code} → canonical_fields fs ≡ err c → c ≡ invalid_kb_payload
  only_code_fields end h = cc
  only_code_fields (field k v fs) h = elim (Result-cases (canonicalize_json v)) [
    | inl (t, e) ↦ elim (Result-cases (canonical_fields fs)) [
      | inl (ts, e') ↦ absurd (ground arith)
      | inr (c, e') ↦ ground (arith, only_code_fields fs e')
    ]
    | inr (c, e) ↦ ground (arith, only_code v e)
  ]

abbrev Entries : Type 0
Entries = List (String × String)

sorted : Result Entries → Result Entries
sorted r = do es ← r; ok (sort_entries es)

sorted-object_text :
    (r r' : Result Entries)
    → sorted r ≡ sorted r'
    → (r >>= λ es. ok (object_text es)) ≡ (r' >>= λ es. ok (object_text es))
unfolding sorted
sorted-object_text (ok es) (ok es') h = cc
sorted-object_text (ok es) (err c) h = cc
sorted-object_text (err c) (ok es) h = cc
sorted-object_text (err c) (err c') h = cc

-- The entries of an object that has one more field.
abbrev add_entry : String → Result String → Result Entries → Result Entries
add_entry k r rs = do t ← r; es ← rs; ok ((k, t) ∷ es)

sorted-add_entry :
    (k : String) (r : Result String) (rs rs' : Result Entries)
    → sorted rs ≡ sorted rs'
    → sorted (add_entry k r rs) ≡ sorted (add_entry k r rs')
unfolding sorted sort_entries
sorted-add_entry k (err c) rs rs' h = refl
sorted-add_entry k (ok t) (ok es) (ok es') h =
    ap (λ (l : Entries). ok (insert_entry (k, t) l)) (ok_inj h)
sorted-add_entry k (ok t) (ok es) (err c) h = cc
sorted-add_entry k (ok t) (err c) (ok es) h = cc
sorted-add_entry k (ok t) (err c) (err c') h = cc

module _ {k j : String} (distinct : k ≢ j) where
  sorted_swap :
      (r s : Result String) (rs : Result Entries)
      → ((c : Code) → r ≡ err c → c ≡ invalid_kb_payload)
      → ((c : Code) → s ≡ err c → c ≡ invalid_kb_payload)
      → sorted (add_entry k r (add_entry j s rs)) ≡ sorted (add_entry j s (add_entry k r rs))
  unfolding sorted sort_entries
  sorted_swap (ok t) (ok u) (ok es) h h' =
      ap ok (insert_entry_comm (k, t) (j, u) distinct (sort_entries es))
  sorted_swap (ok t) (ok u) (err c) h h' = refl
  sorted_swap (ok t) (err c) rs h h' = refl
  sorted_swap (err c) (ok u) rs h h' = refl
  sorted_swap (err c) (err d) rs h h' = ap err (h c refl ∙ sym (h' d refl))

mutual
  unfolding canonicalize_json

  canonicalize-Reordered : {v w : Value} → Reordered v w → canonicalize_json v ≡ canonicalize_json w
  canonicalize-Reordered same = refl
  canonicalize-Reordered (arrays r) = rw (items-Reordered r)
  canonicalize-Reordered (objects {fs} {gs} r) =
      sorted-object_text (canonical_fields fs) (canonical_fields gs) (fields-Reordered r)

  items-Reordered : {xs ys : Items} → ReorderedItems xs ys → canonical_items xs ≡ canonical_items ys
  items-Reordered no_items = refl
  items-Reordered (each r rs) = rw (canonicalize-Reordered r, items-Reordered rs)

  fields-Reordered :
      {fs gs : Fields}
      → ReorderedFields fs gs
      → sorted (canonical_fields fs) ≡ sorted (canonical_fields gs)
  fields-Reordered no_fields = refl
  fields-Reordered (keep {k} {v} {w} {fs} {gs} r rs) = rw (canonicalize-Reordered r) (
      sorted-add_entry k (canonicalize_json w) (canonical_fields fs) (canonical_fields gs)
        (fields-Reordered rs))
  fields-Reordered (swap {k} {j} {v} {w} {fs} distinct) =
      sorted_swap distinct (canonicalize_json v) (canonicalize_json w) (canonical_fields fs)
        (λ c e. only_code v e) (λ c e. only_code w e)
  fields-Reordered (chain r rs) = fields-Reordered r ∙ fields-Reordered rs

-- Payloads that differ only in the order of object keys, at any depth, have one digest, or are
-- refused alike.
pub payload_digest-Reordered :
    (p : Platform) (v w : Value) → Reordered v w → payload_digest p v ≡ payload_digest p w
unfolding payload_digest
payload_digest-Reordered p v w r = rw (canonicalize-Reordered r)
