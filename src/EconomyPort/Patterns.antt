-- ===== src/EconomyPort/Patterns.antt =====
-- The regular expressions of the port, and `BigInt` on what they accept.
use new_humans.Prelude.{
  ℕ, ◌+◌, ◌-◌, ◌*◌, String, Bool, true, false, ◌&&◌, ◌||◌, ◌==◌, List, [], ◌∷◌, leb, eqb,
}
use new_humans.Js.Text.{codes, is_digit}

all_digits : List ℕ → Bool
unfolding is_digit
all_digits [] = true
all_digits (c ∷ cs) = is_digit c && all_digits cs

-- `[1-9]\d*`.
unfoldable pub positive_digits : List ℕ → Bool
unfolding all_digits
positive_digits [] = false
positive_digits (c ∷ cs) = leb b'1' c && leb c b'9' && all_digits cs

-- `0|[1-9]\d*`.
unfoldable pub natural_digits : List ℕ → Bool
unfolding positive_digits
natural_digits (c ∷ []) = eqb c b'0' || positive_digits (c ∷ [])
natural_digits cs = positive_digits cs

unfoldable pub decimal_digits : List ℕ → Bool
unfolding natural_digits
decimal_digits [] = false
decimal_digits (c ∷ cs) = (eqb c b'-' && natural_digits cs) || natural_digits (c ∷ cs)

unfoldable pub is_positive_integer : String → Bool
unfolding positive_digits
is_positive_integer s = positive_digits (codes s)

unfoldable pub is_non_negative_integer : String → Bool
unfolding natural_digits
is_non_negative_integer s = natural_digits (codes s)

unfoldable pub is_decimal_integer : String → Bool
unfolding decimal_digits
is_decimal_integer s = decimal_digits (codes s)

-- `\d{4}-\d{2}-\d{2}`.
iso_date : List ℕ → Bool
unfolding all_digits
iso_date (a ∷ b ∷ c ∷ d ∷ e ∷ f ∷ g ∷ h ∷ i ∷ j ∷ []) =
    all_digits (a ∷ b ∷ c ∷ d ∷ f ∷ g ∷ i ∷ j ∷ []) && eqb e b'-' && eqb h b'-'
iso_date _ = false

unfoldable pub is_iso_date : String → Bool
unfolding iso_date
is_iso_date s = iso_date (codes s)

unfoldable pub value_from : ℕ → List ℕ → ℕ
value_from acc [] = acc
value_from acc (c ∷ cs) = value_from (acc * 10 + (c - b'0')) cs

-- `BigInt(s)` of digits.
unfoldable pub decimal_value : String → ℕ
unfolding value_from
decimal_value s = value_from 0 (codes s)

-- `s.endsWith(t)`.
unfoldable pub ends_with : String → String → Bool
ends_with String.[] t = "" == t
ends_with (String.◌∷◌ c s) t = String.◌∷◌ c s == t || ends_with s t
