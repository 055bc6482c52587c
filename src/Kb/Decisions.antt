-- ===== src/Kb/Decisions.antt =====
-- When an access is allowed.
use new_humans.Prelude.{
  String, true, List, [], ◌∷◌, ok, err, range_error, ok_inj, >>=-eq-ok, ◌≡◌, refl, sym, ap, ◌∙◌,
  subst, ◌↔◌, inl, inr, arith, Bool-cases,
}
use new_humans.Js.{Value, string, is_string}
use new_humans.Kb.Readiness.{
  KbCapability, economy, memory, knowledge, KbReport, state_of, same_capability, has_capability,
  normalize_required_capabilities, AccessMode, read, write, read_access_mode, is_ready_for,
  blocked_of, is_empty, AccessDecision, evaluate_kb_capability_access, assert_kb_write_ready,
}
use new_humans.Kb.Required.{
  Requires, same_capability_path, same_capability_refl, is_string-path, required-Requires,
}

abbrev pub mode_name : AccessMode → String
mode_name read = "read"
mode_name write = "write"

-- The report shows the capability ready for the access.
abbrev pub ReadyFor : KbReport → AccessMode → KbCapability → Type 0
ReadyFor r read economy = r.of_economy.read_ready ≡ true
ReadyFor r read memory = r.of_memory.read_ready ≡ true
ReadyFor r read knowledge = r.of_knowledge.read_ready ≡ true
ReadyFor r write economy = r.of_economy.write_ready ≡ true
ReadyFor r write memory = r.of_memory.write_ready ≡ true
ReadyFor r write knowledge = r.of_knowledge.write_ready ≡ true

-- All the capabilities of a list can be used.
abbrev AllReady : KbReport → AccessMode → List KbCapability → Type 0
AllReady r a cs =
    (c : KbCapability) → has_capability c cs ≡ true → is_ready_for a (state_of r c) ≡ true

AllReady-of_none_blocked :
    (r : KbReport) (a : AccessMode) (cs : List KbCapability)
    → is_empty (blocked_of r a cs) ≡ true
    → AllReady r a cs
unfolding blocked_of has_capability
AllReady-of_none_blocked r a [] h c m = cc
AllReady-of_none_blocked r a (d ∷ cs) h c m =
    let here : is_ready_for a (state_of r d) ≡ true = ground arith in
    let rest : is_empty (blocked_of r a cs) ≡ true = ground arith in
    elim (Bool-cases (same_capability c d)) [
      | inl e ↦
          subst (λ x. is_ready_for a (state_of r x) ≡ true) (sym (same_capability_path c d e)) here
      | inr e ↦ AllReady-of_none_blocked r a cs rest c (ground arith)
    ]

none_blocked_of_ready :
    (r : KbReport) (a : AccessMode) (cs : List KbCapability)
    → AllReady r a cs
    → is_empty (blocked_of r a cs) ≡ true
unfolding blocked_of has_capability
none_blocked_of_ready r a [] f = refl
none_blocked_of_ready r a (d ∷ cs) f =
    let here = f d (ground (arith, same_capability_refl d)) in
    let rest = none_blocked_of_ready r a cs (λ c m. f c (ground arith)) in ground arith

ready-ReadyFor :
    (r : KbReport) (a : AccessMode) (c : KbCapability)
    → is_ready_for a (state_of r c) ≡ true ↔ ReadyFor r a c
ready-ReadyFor r read economy = (λ h. h, λ h. h)
ready-ReadyFor r read memory = (λ h. h, λ h. h)
ready-ReadyFor r read knowledge = (λ h. h, λ h. h)
ready-ReadyFor r write economy = (λ h. h, λ h. h)
ready-ReadyFor r write memory = (λ h. h, λ h. h)
ready-ReadyFor r write knowledge = (λ h. h, λ h. h)

no_mode {ℓ} : {P : Type ℓ} {a : AccessMode} → err range_error ≡ ok a → P
no_mode h = cc

mode-name : (v : Value) (a : AccessMode) → read_access_mode v ≡ ok a → v ≡ string (mode_name a)
unfolding read_access_mode
mode-name v a h = elim (Bool-cases (is_string v "write")) [
  | inl e ↦ is_string-path v "write" e ∙ ap (λ x. string (mode_name x)) (ok_inj (rw e at h))
  | inr n ↦ elim (Bool-cases (is_string v "read")) [
    | inl e ↦ is_string-path v "read" e ∙ ap (λ x. string (mode_name x)) (ok_inj (rw (n, e) at h))
    | inr m ↦ no_mode (rw (n, m) at h)
  ]
]

-- Everything that the argument names is ready.
abbrev pub AllRequired : KbReport → AccessMode → Value → Type 0
AllRequired r a v = (c : KbCapability) → Requires v c → ReadyFor r a c

none_blocked-AllRequired :
    (r : KbReport) (a : AccessMode) (v : Value) (cs : List KbCapability)
    → normalize_required_capabilities v ≡ ok cs
    → is_empty (blocked_of r a cs) ≡ true ↔ AllRequired r a v
none_blocked-AllRequired r a v cs h = (
  λ none c q.
      (ready-ReadyFor r a c).0
        (AllReady-of_none_blocked r a cs none c ((required-Requires v cs h c).1 q)),
  λ all.
      none_blocked_of_ready r a cs
        λ c m. (ready-ReadyFor r a c).1 (all c ((required-Requires v cs h c).0 m)),
)

pub allowed_iff :
    (r : KbReport) (required access : Value) (d : AccessDecision)
    → evaluate_kb_capability_access r required access ≡ ok d
    → (access ≡ string (mode_name d.access)) × (d.allowed ≡ true ↔ AllRequired r d.access required)
unfolding evaluate_kb_capability_access
allowed_iff r required access d h =
    let (a, moded, h1) = >>=-eq-ok (read_access_mode access) _ h in
    let (cs, listed, h2) = >>=-eq-ok (normalize_required_capabilities required) _ h1 in
    subst
      (λ x.
        (access ≡ string (mode_name x.access))
        × (x.allowed ≡ true ↔ AllRequired r x.access required))
      (ok_inj h2) (mode-name access a moded, none_blocked-AllRequired r a required cs listed)

write_mode : (a : AccessMode) → string "write" ≡ string (mode_name a) → a ≡ write
write_mode read h = cc
write_mode write h = refl

-- A write that passes `assertKbWriteReady` has each capability that it names ready for writing.
pub write_ready :
    (r : KbReport) (required : Value) (d : AccessDecision)
    → assert_kb_write_ready r required ≡ ok d
    → AllRequired r write required
unfolding assert_kb_write_ready
write_ready r required d h =
    let (x, e, h1) = >>=-eq-ok (evaluate_kb_capability_access r required (string "write")) _ h in
    let (moded, iff) = allowed_iff r required (string "write") x e in
    let allowed : x.allowed ≡ true = ground arith in
    subst (λ a. AllRequired r a required) (write_mode x.access moded) (iff.0 allowed)
