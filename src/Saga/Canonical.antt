-- ===== src/Saga/Canonical.antt =====
-- `canonicalJson`, by which a saga compares results and requests.
use new_humans.Prelude.{
  String, Bool, true, false, ◌&&◌, ◌==◌, List, [], ◌∷◌, Option, none, some, ltb, if◌then◌else◌,
}
use new_humans.Js.{Value, array, object, instance_of, Items, nil, cons, Fields, end, field}
use new_humans.Js.Json.{stringify}
use new_humans.Js.Order.{sort_entries}
use new_humans.EconomyPort.{is_non_negative_integer, decimal_value}

-- The keys that the language keeps first, in the order of their numbers.
is_index : String → Bool
is_index k = is_non_negative_integer k && ltb (decimal_value k) 0xFFFFFFFF

-- Whether a new key `k` goes before a key `j` that is there.
goes_before : String → String → Bool
unfolding is_index
goes_before k j =
    is_index k && (if is_index j then ltb (decimal_value k) (decimal_value j) else true)

-- A field that an object gains, or a new value of one that it has.
add_own : String → Value → Fields → Fields
unfolding goes_before
add_own k v end = field k v end
add_own k v (field j w fs) =
    if goes_before k j then field k v (field j w fs) else field j w (add_own k v fs)

-- `Object.fromEntries`, of distinct keys.
from_entries : Fields → List (String × Value) → Fields
unfolding add_own
from_entries fs [] = fs
from_entries fs ((k, v) ∷ es) = from_entries (add_own k v fs) es

unfoldable mutual
  unfolding from_entries sort_entries

  pub canonicalize : Value → Value
  canonicalize (array xs) = array (canonicalize_items xs)
  canonicalize (object fs) = object (from_entries end (sort_entries (canonical_entries fs)))
  canonicalize (instance_of fs) = object (from_entries end (sort_entries (canonical_entries fs)))
  canonicalize v = v

  pub canonicalize_items : Items → Items
  canonicalize_items nil = nil
  canonicalize_items (cons v xs) = cons (canonicalize v) (canonicalize_items xs)

  pub canonical_entries : Fields → List (String × Value)
  canonical_entries end = []
  canonical_entries (field k v fs) = (k, canonicalize v) ∷ canonical_entries fs

unfoldable pub canonical_json : Value → Option String
unfolding canonicalize
canonical_json v = stringify (canonicalize v)

abbrev pub same_text : Option String → Option String → Bool
same_text none none = true
same_text (some s) (some t) = s == t
same_text _ _ = false

-- `canonicalJson(v) === canonicalJson(w)`.
unfoldable pub same_json : Value → Value → Bool
same_json v w = same_text (canonical_json v) (canonical_json w)
