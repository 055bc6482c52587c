-- ===== src/Js/Json.antt =====
-- `JSON.stringify` and `JSON.parse(JSON.stringify(…))` on the values of the language. An instance of a
-- class is written by its own fields: its toJSON, and the TypeError of a BigInt, are left out.
use Prim.Native.Char.{Char, code}
use Prim.Native.String
use new_humans.Prelude.{
  ℕ, zero, suc, ◌/◌, ◌%◌, String, Option, none, some, List, [], ◌∷◌, ltb, eqb, if◌then◌else◌,
}
use new_humans.Prelude.Int.{ℤ, pos, negsuc}
use new_humans.Js.Text.{hex_digit}
use new_humans.Js.Defs.{
  Number, int, fraction, not_finite, Value, undefined, null, function, boolean, number, string,
  array, object, instance_of, Items, nil, cons, Fields, end, field,
}

infixr 65 ◌<>◌
abbrev pub ◌<>◌ : String → String → String
s <> t = String.◌++◌ s t

-- A decimal numeral, its digits found from the last to the first.
digits_from : ℕ → ℕ → String → String
digits_from zero n acc = acc
digits_from (suc fuel) n acc =
    let more = digits_from fuel (n / 10) (String.◌∷◌ (hex_digit (n % 10)) acc) in
    if ltb n 10 then String.◌∷◌ (hex_digit n) acc else more

unfoldable pub decimal : ℕ → String
unfolding digits_from hex_digit
decimal n = digits_from (suc n) n ""

unfoldable pub int_text : ℤ → String
unfolding decimal
int_text (pos n) = decimal n
int_text (negsuc n) = "-" <> decimal (suc n)

unfoldable pub number_text : Number → String
unfolding int_text
number_text (int z) = int_text z
number_text (fraction t) = t
number_text not_finite = "null"

lower_hex : ℕ → String
lower_hex n =
    if ltb n 10
    then decimal n
    else if eqb n 10
    then "a"
    else if eqb n 11
    then "b"
    else if eqb n 12
    then "c"
    else if eqb n 13
    then "d"
    else if eqb n 14
    then "e"
    else "f"

escape_char : Char → String
unfolding lower_hex decimal
escape_char c =
    if eqb n 34
    then "\\\""
    else if eqb n 92
    then "\\\\"
    else if eqb n 8
    then "\\b"
    else if eqb n 9
    then "\\t"
    else if eqb n 10
    then "\\n"
    else if eqb n 12
    then "\\f"
    else if eqb n 13
    then "\\r"
    else if ltb n 32
    then "\\u00" <> decimal (n / 16) <> lower_hex (n % 16)
    else String.◌∷◌ c ""
  where
    n : ℕ
    n = code c

escape : String → String
unfolding escape_char
escape String.[] = ""
escape (String.◌∷◌ c s) = escape_char c <> escape s

unfoldable pub quote : String → String
unfolding escape
quote s = "\"" <> escape s <> "\""

unfoldable pub join : List String → String
join [] = ""
join (s ∷ []) = s
join (s ∷ t ∷ ts) = s <> "," <> join (t ∷ ts)

-- The texts of an array's items: what has none is `null` there.
abbrev or_null : Option String → String
or_null none = "null"
or_null (some t) = t

-- A field without a text is left out.
abbrev with_field : String → Option String → List String → List String
with_field k none ts = ts
with_field k (some t) ts = (quote k <> ":" <> t) ∷ ts

-- `JSON.stringify`; `none` is its `undefined`.
unfoldable mutual
  unfolding number_text quote join

  pub stringify : Value → Option String
  stringify undefined = none
  stringify function = none
  stringify null = some "null"
  stringify (boolean b) = some (if b then "true" else "false")
  stringify (number n) = some (number_text n)
  stringify (string s) = some (quote s)
  stringify (array xs) = some ("[" <> join (stringify_items xs) <> "]")
  stringify (object fs) = some ("{" <> join (stringify_fields fs) <> "}")
  stringify (instance_of fs) = some ("{" <> join (stringify_fields fs) <> "}")

  pub stringify_items : Items → List String
  stringify_items nil = []
  stringify_items (cons v xs) = or_null (stringify v) ∷ stringify_items xs

  pub stringify_fields : Fields → List String
  stringify_fields end = []
  stringify_fields (field k v fs) = with_field k (stringify v) (stringify_fields fs)

abbrev pub copied_item : Value → Value
copied_item undefined = null
copied_item v = v

abbrev pub copied_field : String → Value → Fields → Fields
copied_field k undefined fs = fs
copied_field k v fs = field k v fs

-- `JSON.parse(JSON.stringify(v))`, of a value that has a text.
unfoldable mutual
  pub json_copy : Value → Value
  json_copy undefined = undefined
  json_copy function = undefined
  json_copy null = null
  json_copy (boolean b) = boolean b
  json_copy (number (int z)) = number (int z)
  json_copy (number (fraction t)) = number (fraction t)
  json_copy (number not_finite) = null
  json_copy (string s) = string s
  json_copy (array xs) = array (copy_items xs)
  json_copy (object fs) = object (copy_fields fs)
  json_copy (instance_of fs) = object (copy_fields fs)

  pub copy_items : Items → Items
  copy_items nil = nil
  copy_items (cons v xs) = cons (copied_item (json_copy v)) (copy_items xs)

  pub copy_fields : Fields → Fields
  copy_fields end = end
  copy_fields (field k v fs) = copied_field k (json_copy v) (copy_fields fs)
