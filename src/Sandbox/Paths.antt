-- ===== src/Sandbox/Paths.antt =====
-- An accepted path stays inside the workspace.
use new_humans.Prelude.{
  ℕ, String, Bool, false, ◌&&◌, ◌||◌, ◌==◌, eqb, if◌then◌else◌, Option, none, some, List, [], ◌∷◌,
  ok, fail_if, >>=-eq-ok, invalid_sandbox_contract, eq_iff, ◌≡◌, refl, subst, ◌⊎◌, inl, inr, arith,
  Bool-cases,
}
use new_humans.Js.{Value}
use new_humans.Js.Text.{codes}
use new_humans.Sandbox.Text.{
  TextFunctions, any_code, assert_string, has_drive, is_dot_segment, any_dot_segment, split_path,
  assert_canonical, assert_sandbox_relative_path,
}

-- The directories above the root do not exist here: `..` at the root leads out, and there is no way
-- back from outside.
unfoldable pub enter : Option (List (List ℕ)) → List ℕ → Option (List (List ℕ))
enter none s = none
enter (some dirs) [] = some dirs
enter (some dirs) (c ∷ []) = if eqb c 46 then some dirs else some ((c ∷ []) ∷ dirs)
enter (some []) (c ∷ d ∷ []) = if eqb c 46 && eqb d 46 then none else some ((c ∷ d ∷ []) ∷ [])
enter (some (dir ∷ dirs)) (c ∷ d ∷ []) =
    if eqb c 46 && eqb d 46 then some dirs else some ((c ∷ d ∷ []) ∷ dir ∷ dirs)
enter (some dirs) s = some (s ∷ dirs)

-- The walk from a directory, one segment at a time.
unfoldable pub resolve : Option (List (List ℕ)) → List (List ℕ) → Option (List (List ℕ))
unfolding enter
resolve at [] = at
resolve at (s ∷ ss) = resolve (enter at s) ss

-- Where a path without dot segments leads: one directory deeper with each segment.
unfoldable pub descend : List (List ℕ) → List (List ℕ) → List (List ℕ)
descend dirs [] = dirs
descend dirs (s ∷ ss) = descend (s ∷ dirs) ss

enter_plain :
    (dirs : List (List ℕ)) (s : List ℕ)
    → is_dot_segment s ≡ false
    → enter (some dirs) s ≡ some (s ∷ dirs)
unfolding enter
enter_plain dirs [] h = cc
enter_plain dirs (c ∷ []) h = rw (h) refl
enter_plain [] (c ∷ d ∷ []) h = rw (h) refl
enter_plain (dir ∷ dirs) (c ∷ d ∷ []) h = rw (h) refl
enter_plain [] (c ∷ d ∷ e ∷ s) h = refl
enter_plain (dir ∷ dirs) (c ∷ d ∷ e ∷ s) h = refl

resolve_plain :
    (dirs : List (List ℕ)) (ss : List (List ℕ))
    → any_dot_segment ss ≡ false
    → resolve (some dirs) ss ≡ some (descend dirs ss)
unfolding any_dot_segment resolve descend
resolve_plain dirs [] h = refl
resolve_plain dirs (s ∷ ss) h =
    rw (enter_plain dirs s (ground arith)) (resolve_plain (s ∷ dirs) ss (ground arith))

-- The path leads to a place under the root: one directory deeper with each segment, or the root.
abbrev pub Inside : String → Type 0
Inside s =
    (resolve (some []) (split_path (codes s)) ≡ some (descend [] (split_path (codes s))))
    ⊎ (resolve (some []) (split_path (codes s)) ≡ some [])

canonical_inside :
    (f : TextFunctions) (s t : String)
    → assert_canonical f s ≡ ok t
    → (s ≡ t)
      × (resolve (some []) (split_path (codes s)) ≡ some (descend [] (split_path (codes s))))
unfolding assert_canonical
canonical_inside f s t h = (ground arith, resolve_plain [] (split_path (codes s)) (ground arith))

root_inside : resolve (some []) (split_path (codes ".")) ≡ some []
unfolding resolve split_path enter
root_inside = refl

-- A path that `assertSandboxRelativePath` accepts never leads out of the workspace: walked segment
-- by segment from the root, it goes one directory deeper with each, or it is the root itself.
pub path-Inside :
    (f : TextFunctions) (allow_dot : Bool) (v : Value) (s : String)
    → assert_sandbox_relative_path f allow_dot v ≡ ok s
    → Inside s
unfolding assert_sandbox_relative_path
path-Inside f allow_dot v s h =
    let (t, _, h1) = >>=-eq-ok (assert_string v) _ h in
    let (_, _, h2) =
      >>=-eq-ok (fail_if (any_code (eqb 92) (codes t)) invalid_sandbox_contract) _ h1 in
    let (_, _, h3) =
      >>=-eq-ok (fail_if (f.is_absolute t || has_drive (codes t)) invalid_sandbox_contract) _ h2 in
    elim (Bool-cases (allow_dot && t == ".")) [
      | inl e ↦
          let dot : "." ≡ s = ground (arith, eq_iff t ".") in
          inr (subst (λ x. resolve (some []) (split_path (codes x)) ≡ some []) dot root_inside)
      | inr e ↦
          let (same, r) = canonical_inside f t s (ground arith) in
          inl (
            subst
              (λ x.
                resolve (some []) (split_path (codes x)) ≡ some (descend [] (split_path (codes x))))
              same r)
    ]
