-- ===== src/Kb/Required.antt =====
-- Which capabilities an access needs: those that its argument names.
use new_humans.Prelude.{
  String, Bool, true, false, List, [], ◌∷◌, ◌++◌, ◌==◌, ◌||◌, ok, err, range_error, eq_iff, ok_inj,
  >>=-eq-ok, ◌≡◌, refl, sym, ap, ◌∙◌, ◌↔◌, inl, inr, arith, Bool-cases,
}
use new_humans.Js.{Value, string, array, Items, nil, cons, is_string}
use new_humans.Kb.Readiness.{
  KbCapability, economy, memory, knowledge, same_capability, has_capability, read_capability,
  add_capability, unique_capabilities, normalize_required_capabilities,
}

abbrev pub capability_name : KbCapability → String
capability_name economy = "economy"
capability_name memory = "memory"
capability_name knowledge = "knowledge"

-- The item of the array is the name of the capability, for one of the items.
unfoldable pub names_item : KbCapability → Items → Bool
names_item c nil = false
names_item c (cons v vs) = is_string v (capability_name c) || names_item c vs

-- The argument names the capability, alone or in an array.
abbrev pub Requires : Value → KbCapability → Type 0
Requires (array vs) c = names_item c vs ≡ true
Requires v c = is_string v (capability_name c) ≡ true

pub same_capability_path : (c d : KbCapability) → same_capability c d ≡ true → c ≡ d
same_capability_path economy economy h = refl
same_capability_path memory memory h = refl
same_capability_path knowledge knowledge h = refl
same_capability_path economy memory h = cc
same_capability_path economy knowledge h = cc
same_capability_path memory economy h = cc
same_capability_path memory knowledge h = cc
same_capability_path knowledge economy h = cc
same_capability_path knowledge memory h = cc

pub same_capability_refl : (c : KbCapability) → same_capability c c ≡ true
same_capability_refl economy = refl
same_capability_refl memory = refl
same_capability_refl knowledge = refl

-- Adding to the end.
has_capability-end :
    (c d : KbCapability) (cs : List KbCapability)
    → has_capability c (cs ++ (d ∷ [])) ≡ (has_capability c cs || same_capability c d)
unfolding has_capability
has_capability-end c d [] = ground arith
has_capability-end c d (e ∷ cs) = let rest = has_capability-end c d cs in ground arith

same_added :
    (c d : KbCapability) (cs : List KbCapability) (b : Bool)
    → same_capability c d ≡ b
    → has_capability d cs ≡ true
    → has_capability c cs ≡ (has_capability c cs || b)
same_added c d cs true h m =
    let here : has_capability c cs ≡ true =
      ap (λ x. has_capability x cs) (same_capability_path c d h) ∙ m in
    rw here refl
same_added c d cs false h m = ground arith

has_capability-add :
    (c d : KbCapability) (cs : List KbCapability)
    → has_capability c (add_capability d cs) ≡ (has_capability c cs || same_capability c d)
unfolding add_capability
has_capability-add c d cs = elim (Bool-cases (has_capability d cs)) [
  | inl known ↦ rw known (same_added c d cs (same_capability c d) refl known)
  | inr new ↦ rw new (has_capability-end c d cs)
]

no_capability {ℓ} : {P : Type ℓ} {d : KbCapability} → err range_error ≡ ok d → P
no_capability h = cc

or_false : (b : Bool) → b ≡ (b || false)
or_false true = refl
or_false false = refl

pub is_string-path : (v : Value) (s : String) → is_string v s ≡ true → v ≡ string s
is_string-path (string t) s h = ap string ((eq_iff t s).0 h)
is_string-path v s h = cc

read_name :
    (v : Value) (d : KbCapability) → read_capability v ≡ ok d → v ≡ string (capability_name d)
unfolding read_capability
read_name v d h = elim (Bool-cases (is_string v "economy")) [
  | inl e ↦ is_string-path v "economy" e ∙ ap (λ x. string (capability_name x)) (ok_inj (rw e at h))
  | inr n ↦ elim (Bool-cases (is_string v "memory")) [
    | inl e ↦
        is_string-path v "memory" e ∙ ap (λ x. string (capability_name x)) (ok_inj (rw (n, e) at h))
    | inr m ↦ elim (Bool-cases (is_string v "knowledge")) [
      | inl e ↦
          is_string-path v "knowledge" e
          ∙ ap (λ x. string (capability_name x)) (ok_inj (rw (n, m, e) at h))
      | inr k ↦ no_capability (rw (n, m, k) at h)
    ]
  ]
]

same_name :
    (c d : KbCapability)
    → is_string (string (capability_name d)) (capability_name c) ≡ same_capability c d
same_name economy economy = refl
same_name economy memory = refl
same_name economy knowledge = refl
same_name memory economy = refl
same_name memory memory = refl
same_name memory knowledge = refl
same_name knowledge economy = refl
same_name knowledge memory = refl
same_name knowledge knowledge = refl

named :
    (v : Value) (c d : KbCapability)
    → read_capability v ≡ ok d
    → is_string v (capability_name c) ≡ same_capability c d
named v c d h = ap (λ u. is_string u (capability_name c)) (read_name v d h) ∙ same_name c d

or_moves : (a b x y : Bool) → x ≡ y → ((a || x) || b) ≡ (a || (y || b))
or_moves a b x y h = ground arith

has_capability-unique_capabilities :
    (c : KbCapability) (cs ds : List KbCapability) (vs : Items)
    → unique_capabilities cs vs ≡ ok ds
    → has_capability c ds ≡ (has_capability c cs || names_item c vs)
unfolding unique_capabilities names_item
has_capability-unique_capabilities c cs ds nil h =
    let same = ok_inj h in ap (λ u. has_capability c u) (sym same) ∙ or_false (has_capability c cs)
has_capability-unique_capabilities c cs ds (cons v vs) h =
    let (d, e, h1) = >>=-eq-ok (read_capability v) _ h in
    has_capability-unique_capabilities c (add_capability d cs) ds vs h1
    ∙ ap (λ b. b || names_item c vs) (has_capability-add c d cs)
    ∙ or_moves (has_capability c cs) (names_item c vs) (same_capability c d)
        (is_string v (capability_name c)) (sym (named v c d e))

same_truth : (a b : Bool) → a ≡ b → a ≡ true ↔ b ≡ true
same_truth a b h = (λ x. sym h ∙ x, λ x. h ∙ x)

-- The list has exactly the capabilities that the argument names.
pub required-Requires :
    (v : Value) (cs : List KbCapability)
    → normalize_required_capabilities v ≡ ok cs
    → (c : KbCapability) → has_capability c cs ≡ true ↔ Requires v c
unfolding normalize_required_capabilities names_item
required-Requires (string s) cs h c = same_truth _ _ (
    has_capability-unique_capabilities c [] cs (cons (string s) nil) h
    ∙ sym (or_false (s == capability_name c)))
required-Requires (array (cons v vs)) cs h c =
    same_truth _ _ (has_capability-unique_capabilities c [] cs (cons v vs) h)
required-Requires v cs h c = cc
