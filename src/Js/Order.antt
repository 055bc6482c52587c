-- ===== src/Js/Order.antt =====
-- The order of texts, by their UTF-16 units, which `sort` uses for keys.
pub mod Laws
use new_humans.Prelude.{ℕ, String, Bool, true, false, List, [], ◌∷◌, ltb, if◌then◌else◌}
use new_humans.Js.Text.{units}

unfoldable pub lex : List ℕ → List ℕ → Bool
lex [] ys = true
lex (x ∷ xs) [] = false
lex (x ∷ xs) (y ∷ ys) = if ltb x y then true else if ltb y x then false else lex xs ys

unfoldable pub key_le : String → String → Bool
unfolding lex units
key_le k j = lex (units k) (units j)

-- `sort`, stable, of entries by their keys.
module _ {ℓ} {V : Type ℓ} where
  unfoldable pub insert_entry : String × V → List (String × V) → List (String × V)
  insert_entry e [] = e ∷ []
  insert_entry e (x ∷ xs) = if key_le e.0 x.0 then e ∷ x ∷ xs else x ∷ insert_entry e xs

  unfoldable pub sort_entries : List (String × V) → List (String × V)
  unfolding insert_entry key_le
  sort_entries [] = []
  sort_entries (e ∷ es) = insert_entry e (sort_entries es)
