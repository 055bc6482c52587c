-- ===== src/Js/Text.antt =====
-- Texts as the language sees them: UTF-16 units, UTF-8 bytes, decimal digits, and
-- `encodeURIComponent`. A text here holds no lone surrogate.
pub mod Codes
pub mod Encoding
pub mod Separators
pub mod Slash
use Prim.Native.Char.{Char, code, nul}
use Prim.Native.String
use new_humans.Prelude.{
  ℕ, zero, suc, ◌+◌, ◌-◌, ◌/◌, ◌%◌, String, Bool, true, false, not, ◌&&◌, ◌||◌, List, [], ◌∷◌, ◌++◌,
  ltb, leb, eqb, if◌then◌else◌, ◌==◌,
}
use new_humans.Prelude.Int.{ℤ, pos, negsuc}

abbrev pub codes : String → List ℕ
codes String.[] = []
codes (String.◌∷◌ c s) = code c ∷ codes s

-- The UTF-16 units of a character.
unfoldable pub code_units : ℕ → List ℕ
code_units c =
    if ltb c 0x10000
    then c ∷ []
    else (0xD800 + (c - 0x10000) / 1024) ∷ (0xDC00 + (c - 0x10000) % 1024) ∷ []

unfoldable pub units : String → List ℕ
unfolding code_units
units String.[] = []
units (String.◌∷◌ c s) = code_units (code c) ++ units s

-- `s.length`.
unfoldable pub length_of : String → ℕ
length_of String.[] = 0
length_of (String.◌∷◌ c s) = (if ltb (code c) 0x10000 then 1 else 2) + length_of s

-- The UTF-8 bytes of a character.
unfoldable pub utf8 : ℕ → List ℕ
utf8 c =
    if ltb c 0x80
    then c ∷ []
    else if ltb c 0x800
    then (0xC0 + c / 64) ∷ (0x80 + c % 64) ∷ []
    else if ltb c 0x10000
    then (0xE0 + c / 4096) ∷ (0x80 + c / 64 % 64) ∷ (0x80 + c % 64) ∷ []
    else (0xF0 + c / 262144) ∷ (0x80 + c / 4096 % 64) ∷ (0x80 + c / 64 % 64) ∷ (0x80 + c % 64) ∷ []

unfoldable pub is_digit : ℕ → Bool
is_digit c = leb b'0' c && leb c b'9'

abbrev between : ℕ → ℕ → ℕ → Bool
between lo hi c = leb lo c && leb c hi

-- What `encodeURIComponent` leaves as it is: A-Z a-z 0-9 - _ . ! ~ * ' ( ).
unfoldable pub is_unescaped : ℕ → Bool
unfolding is_digit
is_unescaped c =
    between b'A' b'Z' c
    || between b'a' b'z' c
    || is_digit c
    || eqb c b'-'
    || eqb c b'_'
    || eqb c b'.'
    || eqb c b'!'
    || eqb c b'~'
    || between 0x27 0x2A c

abbrev hex_table : List Char
hex_table =
    "0" ∷ "1" ∷ "2" ∷ "3" ∷ "4" ∷ "5" ∷ "6" ∷ "7" ∷ "8" ∷ "9" ∷ "A" ∷ "B" ∷ "C" ∷ "D" ∷ "E" ∷ "F"
    ∷ []

abbrev char_in : List Char → ℕ → Char
char_in [] n = nul
char_in (c ∷ cs) zero = c
char_in (c ∷ cs) (suc n) = char_in cs n

-- The digit of a hexadecimal numeral, in upper case.
unfoldable pub hex_digit : ℕ → Char
hex_digit n = char_in hex_table n

-- `%` and the two digits of a byte.
unfoldable pub percent : List ℕ → String
unfolding hex_digit
percent [] = ""
percent (b ∷ bs) =
    String.◌∷◌ "%" (String.◌∷◌ (hex_digit (b / 16)) (String.◌∷◌ (hex_digit (b % 16)) (percent bs)))

unfoldable pub encode_char : Char → String
unfolding is_unescaped percent utf8
encode_char c = if is_unescaped (code c) then String.◌∷◌ c String.[] else percent (utf8 (code c))

-- `encodeURIComponent`.
unfoldable pub encode_uri_component : String → String
unfolding encode_char
encode_uri_component String.[] = ""
encode_uri_component (String.◌∷◌ c s) = String.◌++◌ (encode_char c) (encode_uri_component s)

abbrev pub within : ℕ → ℕ → ℕ → Bool
within low high c = leb low c && leb c high

-- `\s`.
unfoldable pub is_space : ℕ → Bool
is_space c =
    within 9 13 c
    || eqb c 32
    || eqb c 160
    || eqb c 0x1680
    || within 0x2000 0x200A c
    || eqb c 0x2028
    || eqb c 0x2029
    || eqb c 0x202F
    || eqb c 0x205F
    || eqb c 0x3000
    || eqb c 0xFEFF

all_space : List ℕ → Bool
all_space [] = true
all_space (c ∷ cs) = is_space c && all_space cs

-- `value.trim() === ''`.
unfoldable pub is_blank : String → Bool
unfolding all_space is_space
is_blank s = all_space (codes s)

unfoldable pub strip_start : String → String
unfolding is_space
strip_start String.[] = ""
strip_start (String.◌∷◌ c s) =
    let rest = strip_start s in if is_space (code c) then rest else String.◌∷◌ c s

unfoldable pub strip_end : String → String
unfolding is_space
strip_end String.[] = ""
strip_end (String.◌∷◌ c s) =
    let rest = strip_end s in if is_space (code c) && (rest == "") then "" else String.◌∷◌ c rest

-- `value.trim()`.
unfoldable pub trim : String → String
unfolding strip_start strip_end
trim s = strip_end (strip_start s)
