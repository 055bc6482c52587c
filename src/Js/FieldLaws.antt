-- ===== src/Js/FieldLaws.antt =====
-- Reads and writes of the fields of an object.
use new_humans.Prelude.{
  String, ◌≡◌, ◌≢◌, refl, ◌==◌, eq_iff, eq_refl, if◌then◌else◌, arith, Bool-cases, inl, inr,
}
use new_humans.Js.Defs.{Value, undefined, Fields, end, field, get_field, set_field}

pub get_field-set_field_self :
    (k : String) (v : Value) (fs : Fields) → get_field k (set_field k v fs) ≡ v
unfolding get_field set_field
get_field-set_field_self k v end = rw (eq_refl k)
get_field-set_field_self k v (field j w fs) =
    ground (arith, eq_iff j k, eq_refl k, get_field-set_field_self k v fs)

pub get_field-set_field :
    (k j : String) (v : Value) (fs : Fields)
    → get_field j (set_field k v fs) ≡ (if k == j then v else get_field j fs)
unfolding get_field set_field
get_field-set_field k j v end = refl
get_field-set_field k j v (field i w fs) =
    ground (arith, eq_iff k j, eq_iff i k, eq_iff i j, get_field-set_field k j v fs)

-- To write a value that is there changes nothing.
pub set_field-get_field :
    (k : String) (v : Value) (fs : Fields)
    → get_field k fs ≡ v
    → v ≢ undefined
    → set_field k v fs ≡ fs
unfolding get_field set_field
set_field-get_field k v end h ne = absurd (ne (ground arith))
set_field-get_field k v (field j w fs) h ne = elim (Bool-cases (j == k)) [
  | inl e ↦ rw e (ground (arith, eq_iff j k))
  | inr e ↦ rw e (ground (arith, set_field-get_field k v fs (ground arith) ne))
]
