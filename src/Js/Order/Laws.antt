-- ===== src/Js/Order/Laws.antt =====
-- The order of keys is linear, so the order in which distinct keys are inserted is forgotten.
use Prim.Native.Char.{Char, code}
use text.Mathlib.TextEquality.{Char-path}
use new_humans.Prelude.{
  ℕ, ◌+◌, ◌-◌, ◌*◌, String, ◌≡◌, ◌≢◌, refl, ap, sym, ◌∙◌, true, false, ◌||◌, Option, none, some,
  List, [], ◌∷◌, ◌++◌, ltb, if◌then◌else◌, arith,
}
use new_humans.Js.Text.{units, code_units}
use new_humans.Js.Text.Codes.{code_scalar}
use new_humans.Js.Order.{lex, key_le, insert_entry}

lex_total : (xs ys : List ℕ) → lex xs ys ≡ false → lex ys xs ≡ true
unfolding lex
lex_total [] ys h = cc
lex_total (x ∷ xs) [] h = refl
lex_total (x ∷ xs) (y ∷ ys) h = ground (arith, lex_total xs ys)

lex_antisym : (xs ys : List ℕ) → lex xs ys ≡ true → lex ys xs ≡ true → xs ≡ ys
unfolding lex
lex_antisym [] [] h k = refl
lex_antisym [] (y ∷ ys) h k = cc
lex_antisym (x ∷ xs) [] h k = cc
lex_antisym (x ∷ xs) (y ∷ ys) h k = ground (arith, lex_antisym xs ys)

lex_trans : (xs ys zs : List ℕ) → lex xs ys ≡ true → lex ys zs ≡ true → lex xs zs ≡ true
unfolding lex
lex_trans [] ys zs h k = refl
lex_trans (x ∷ xs) [] zs h k = cc
lex_trans (x ∷ xs) (y ∷ ys) [] h k = cc
lex_trans (x ∷ xs) (y ∷ ys) (z ∷ zs) h k = ground (arith, lex_trans xs ys zs)

-- Reads the first character back from its units.
decode_units : List ℕ → Option (ℕ × List ℕ)
decode_units [] = none
decode_units (u ∷ []) = some (u, [])
decode_units (u ∷ v ∷ us) =
    if ltb u 0xD800 || ltb 0xDFFF u
    then some (u, v ∷ us)
    else some (0x10000 + (u - 0xD800) * 1024 + (v - 0xDC00), us)

decode_units-code_units :
    (c : Char) (us : List ℕ) → decode_units (code_units (code c) ++ us) ≡ some (code c, us)
unfolding decode_units code_units
decode_units-code_units c [] = ground (arith, code_scalar c)
decode_units-code_units c (u ∷ us) = ground (arith, code_scalar c)

decode_units-units :
    (c : Char) (s : String) → decode_units (units (String.◌∷◌ c s)) ≡ some (code c, units s)
unfolding units
decode_units-units c s = decode_units-code_units c (units s)

units_inj : (s t : String) → units s ≡ units t → s ≡ t
units_inj String.[] String.[] h = refl
units_inj String.[] (String.◌∷◌ d t) h =
    absurd (unfold units decode_units in cc (ap decode_units h, decode_units-units d t))
units_inj (String.◌∷◌ c s) String.[] h =
    absurd (unfold units decode_units in cc (ap decode_units h, decode_units-units c s))
units_inj (String.◌∷◌ c s) (String.◌∷◌ d t) h =
    let same : some (code c, units s) ≡ some (code d, units t) =
      sym (decode_units-units c s) ∙ ap decode_units h ∙ decode_units-units d t in
    cc (Char-path c d (ground arith), units_inj s t (ground arith))

pub key_le_total : (k j : String) → key_le k j ≡ false → key_le j k ≡ true
unfolding key_le
key_le_total k j h = lex_total (units k) (units j) h

pub key_le_antisym : (k j : String) → key_le k j ≡ true → key_le j k ≡ true → k ≡ j
unfolding key_le
key_le_antisym k j p q = units_inj k j (lex_antisym (units k) (units j) p q)

pub key_le_trans : (k j i : String) → key_le k j ≡ true → key_le j i ≡ true → key_le k i ≡ true
unfolding key_le
key_le_trans k j i p q = lex_trans (units k) (units j) (units i) p q

module _ {ℓ} {V : Type ℓ} (a b : String × V) (distinct : a.0 ≢ b.0) where
  not_both : key_le a.0 b.0 ≡ true → key_le b.0 a.0 ≡ true → ⊥
  not_both p q = distinct (key_le_antisym a.0 b.0 p q)

  pub insert_entry_comm :
      (es : List (String × V))
      → insert_entry a (insert_entry b es) ≡ insert_entry b (insert_entry a es)
  unfolding insert_entry
  insert_entry_comm [] = ground (arith, key_le_total a.0 b.0, key_le_total b.0 a.0, not_both)
  insert_entry_comm (e ∷ es) = ground (
    arith,
    key_le_total a.0 b.0,
    key_le_total b.0 a.0,
    insert_entry_comm es,
    not_both,
    key_le_trans a.0 b.0 e.0,
    key_le_trans b.0 a.0 e.0,
    key_le_total a.0 e.0,
    key_le_total b.0 e.0,
    key_le_trans a.0 e.0 b.0,
    key_le_trans b.0 e.0 a.0,
  )
