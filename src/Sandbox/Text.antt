-- ===== src/Sandbox/Text.antt =====
-- The checks of strings, paths and hosts. `node:path` and `toLowerCase` are parameters.
use new_humans.Prelude.{
  ℕ, String, Bool, true, false, not, ◌&&◌, ◌||◌, ◌==◌, eqb, List, [], ◌∷◌, if◌then◌else◌, Result,
  ok, err, fail_if, ◌>>=◌, ◌>>◌, invalid_sandbox_contract,
}
use new_humans.Js.{Value, string, Items, array, is_object}
use new_humans.Js.Text.{codes, is_space, within}

-- `path.posix.isAbsolute`, `path.posix.normalize` and `toLowerCase`.
pub record TextFunctions : Type 0 where
  pub is_absolute : String → Bool
  pub normalize : String → String
  pub lower_case : String → String

unfoldable pub any_code : (ℕ → Bool) → List ℕ → Bool
any_code test [] = false
any_code test (c ∷ cs) = test c || any_code test cs

unfoldable pub starts_with_codes : List ℕ → List ℕ → Bool
starts_with_codes [] cs = true
starts_with_codes (p ∷ ps) [] = false
starts_with_codes (p ∷ ps) (c ∷ cs) = eqb p c && starts_with_codes ps cs

-- `value.includes(part)`.
unfoldable pub contains_codes : List ℕ → List ℕ → Bool
unfolding starts_with_codes
contains_codes part [] = starts_with_codes part []
contains_codes part (c ∷ cs) = starts_with_codes part (c ∷ cs) || contains_codes part cs

abbrev pub last_is : ℕ → List ℕ → Bool
last_is d [] = false
last_is d (c ∷ []) = eqb c d
last_is d (c ∷ e ∷ cs) = last_is d (e ∷ cs)

-- NUL, carriage return and line feed.
unfoldable pub is_control : ℕ → Bool
is_control c = eqb c 0 || eqb c 13 || eqb c 10

unfoldable pub assert_plain_object : Value → Result (Unit {0})
assert_plain_object v = fail_if (not (is_object v)) invalid_sandbox_contract

-- `assertString` without `allowEmpty`, which no caller sets.
unfoldable pub assert_string : Value → Result String
unfolding any_code is_control
assert_string (string s) = do
  fail_if (s == "") invalid_sandbox_contract
  fail_if (any_code is_control (codes s)) invalid_sandbox_contract
  ok s
assert_string _ = err invalid_sandbox_contract

-- `/^[A-Za-z]:/`.
abbrev pub has_drive : List ℕ → Bool
has_drive (c ∷ d ∷ cs) = (within 65 90 c || within 97 122 c) && eqb d 58
has_drive _ = false

abbrev pub add_to_first : ℕ → List (List ℕ) → List (List ℕ)
add_to_first c [] = (c ∷ []) ∷ []
add_to_first c (s ∷ ss) = (c ∷ s) ∷ ss

-- `value.split('/')`.
unfoldable pub split_path : List ℕ → List (List ℕ)
split_path [] = [] ∷ []
split_path (c ∷ cs) =
    let rest = split_path cs in if eqb c 47 then [] ∷ rest else add_to_first c rest

-- An empty segment, `.` or `..`.
abbrev pub is_dot_segment : List ℕ → Bool
is_dot_segment [] = true
is_dot_segment (c ∷ []) = eqb c 46
is_dot_segment (c ∷ d ∷ []) = eqb c 46 && eqb d 46
is_dot_segment _ = false

unfoldable pub any_dot_segment : List (List ℕ) → Bool
any_dot_segment [] = false
any_dot_segment (s ∷ ss) = is_dot_segment s || any_dot_segment ss

-- The checks of a path that is not `.`.
unfoldable pub assert_canonical : TextFunctions → String → Result String
unfolding any_dot_segment split_path
assert_canonical f s = do
  fail_if (s == ".") invalid_sandbox_contract
  fail_if (any_dot_segment (split_path (codes s))) invalid_sandbox_contract
  fail_if (not (f.normalize s == s)) invalid_sandbox_contract
  ok s

unfoldable pub assert_sandbox_relative_path : TextFunctions → Bool → Value → Result String
unfolding assert_string assert_canonical
assert_sandbox_relative_path f allow_dot v = do
  s ← assert_string v
  fail_if (any_code (eqb 92) (codes s)) invalid_sandbox_contract
  fail_if (f.is_absolute s || has_drive (codes s)) invalid_sandbox_contract
  if allow_dot && s == "." then ok s else assert_canonical f s

-- `:`, `/`, `?`, `#`, `@` or white space.
abbrev pub is_url_code : ℕ → Bool
is_url_code c = eqb c 58 || eqb c 47 || eqb c 63 || eqb c 35 || eqb c 64 || is_space c

unfoldable pub assert_exact_host : TextFunctions → Value → Result String
unfolding assert_string contains_codes
assert_exact_host f v = do
  s ← assert_string v
  fail_if (not (s == f.lower_case s)) invalid_sandbox_contract
  fail_if (contains_codes (codes "://") (codes s) || any_code is_url_code (codes s))
      invalid_sandbox_contract
  fail_if
      (starts_with_codes (46 ∷ []) (codes s)
        || last_is 46 (codes s)
        || contains_codes (46 ∷ 46 ∷ []) (codes s))
      invalid_sandbox_contract
  ok s

-- `Array.isArray(v)`.
unfoldable pub assert_array : Value → Result Items
assert_array (array xs) = ok xs
assert_array _ = err invalid_sandbox_contract
