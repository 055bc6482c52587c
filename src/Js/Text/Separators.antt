-- ===== src/Js/Text/Separators.antt =====
-- Texts joined by a separator that they do not hold can be taken apart again.
use new_humans.Prelude.{ℕ, ◌≡◌, ◌≢◌, List, [], ◌∷◌, ◌++◌, arith}

-- No element is `s`.
abbrev pub Avoids : ℕ → List ℕ → Type 0
Avoids s [] = Unit {0}
Avoids s (c ∷ cs) = (c ≢ s) × Avoids s cs

module _ (s : ℕ) where
  pub Avoids-append : (xs ys : List ℕ) → Avoids s xs → Avoids s ys → Avoids s (xs ++ ys)
  Avoids-append [] ys _ k = k
  Avoids-append (x ∷ xs) ys (p, h) k = (p, Avoids-append xs ys h k)

  -- What stands before the first separator determines both parts.
  pub split_at :
      (xs ys us vs : List ℕ)
      → Avoids s xs
      → Avoids s ys
      → xs ++ s ∷ us ≡ ys ++ s ∷ vs
      → (xs ≡ ys) × (us ≡ vs)
  split_at [] [] us vs h k e = ground arith
  split_at [] (y ∷ ys) us vs h (q, k) e = absurd (q (ground arith))
  split_at (x ∷ xs) [] us vs (p, h) k e = absurd (p (ground arith))
  split_at (x ∷ xs) (y ∷ ys) us vs (p, h) (q, k) e = ground (arith, split_at xs ys us vs h k)
