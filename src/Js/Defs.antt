-- ===== src/Js/Defs.antt =====
-- The values of the language, as far as the program meets them: what JSON can say, `undefined`,
-- functions, and objects whose prototype is not `Object.prototype`.
use new_humans.Prelude.{
  String, Bool, true, false, not, List, Result, ok, ◌==◌, includes, if◌then◌else◌,
}
use new_humans.Prelude.Int.{ℤ}

-- A whole number below 10 ^ 21, another finite number by its JSON text, or NaN and the infinities.
pub data Number : Type 0 where
  int : ℤ → Number
  fraction : String → Number
  not_finite : Number

-- The fields of an object are its own enumerable keys with their values, in the language's order.
-- Arrays have no holes.
mutual
  pub data Value : Type 0 where
    undefined null function : Value
    boolean : Bool → Value
    number : Number → Value
    string : String → Value
    array : Items → Value
    object instance_of : Fields → Value

  pub data Items : Type 0 where
    nil : Items
    cons : Value → Items → Items

  pub data Fields : Type 0 where
    end : Fields
    field : String → Value → Fields → Fields

-- A read of a field that is not there is `undefined`.
unfoldable pub get_field : String → Fields → Value
get_field k end = undefined
get_field k (field j v fs) = if j == k then v else get_field k fs

unfoldable pub get : String → Value → Value
unfolding get_field
get k (object fs) = get_field k fs
get k (instance_of fs) = get_field k fs
get k _ = undefined

-- `{ ...fs, [k]: v }`: a key that is there keeps its place.
unfoldable pub set_field : String → Value → Fields → Fields
set_field k v end = field k v end
set_field k v (field j w fs) = if j == k then field k v fs else field j w (set_field k v fs)

abbrev pub is_undefined : Value → Bool
is_undefined undefined = true
is_undefined _ = false

abbrev pub is_null : Value → Bool
is_null null = true
is_null _ = false

-- `v === s` for a text `s`.
abbrev pub is_string : Value → String → Bool
is_string (string t) s = t == s
is_string _ s = false

-- `typeof v === 'string' && v.length > 0`.
abbrev pub is_non_empty_string : Value → Bool
is_non_empty_string (string t) = not (t == "")
is_non_empty_string _ = false

-- Neither `null`, nor a primitive, nor an array.
abbrev pub is_object : Value → Bool
is_object (object fs) = true
is_object (instance_of fs) = true
is_object _ = false

-- `v ?? w`.
abbrev pub or_else : Value → Value → Value
or_else undefined w = w
or_else null w = w
or_else v w = v

abbrev pub is_true : Value → Bool
is_true (boolean true) = true
is_true _ = false

abbrev pub is_false : Value → Bool
is_false (boolean false) = true
is_false _ = false

-- `[…].includes(v)` and `new Set([…]).has(v)` for texts.
abbrev pub is_one_of : List String → Value → Bool
is_one_of names (string s) = includes names s
is_one_of names _ = false

-- `v === w` where one of them is known to be a text.
abbrev pub same_text : Value → Value → Bool
same_text (string a) (string b) = a == b
same_text _ _ = false

-- A value that was checked to be a text.
abbrev pub text_of : Value → String
text_of (string s) = s
text_of _ = ""

-- `if (v !== undefined) check(v)`.
abbrev pub when_defined : Value → (Value → Result (Unit {0})) → Result (Unit {0})
when_defined v check = if is_undefined v then ok tt else check v

abbrev pub text_field : String → String → Fields → Fields
text_field k v fs = field k (string v) fs
