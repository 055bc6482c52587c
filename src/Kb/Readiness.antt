-- ===== src/Kb/Readiness.antt =====
-- What Knowledge Ball can serve, and what an operation may use of it (src/kb/readiness.js).
use new_humans.Prelude.{
  Bool, true, false, not, ◌&&◌, ◌||◌, Option, none, some, List, [], ◌∷◌, ◌++◌, if◌then◌else◌,
  Result, ok, err, ◌>>=◌, type_error, range_error, kb_capability_write_blocked,
}
use new_humans.Js.{
  is_true, is_false, Value, undefined, null, boolean, string, array, object, instance_of, Items,
  nil, cons, end, get, is_string,
}

pub data KbCapability : Type 0 where
  economy memory knowledge : KbCapability

pub data KbReadiness : Type 0 where
  ready degraded unavailable : KbReadiness

-- `reason` is the value whose text is the reason, if there is one, or the code's NOT_REPORTED.
pub record CapabilityState : Type 0 where
  pub reported : Bool
  pub read_ready : Bool
  pub write_ready : Bool
  pub reason : Option Value

abbrev reason_of : Value → Option Value
reason_of undefined = none
reason_of null = none
reason_of v = some v

abbrev capability_of : Value → CapabilityState
capability_of v = record {
  reported = not (is_false (get "reported" v));
  read_ready = is_true (get "read_ready" v);
  write_ready = is_true (get "write_ready" v);
  reason = reason_of (get "reason" v);
}

unfoldable pub normalize_capability : Value → Result CapabilityState
normalize_capability (boolean b) =
    ok (record { reported = true; read_ready = b; write_ready = b; reason = none })
normalize_capability undefined = ok (record {
  reported = false;
  read_ready = false;
  write_ready = false;
  reason = some (string "NOT_REPORTED");
})
normalize_capability null =
    ok (record { reported = true; read_ready = false; write_ready = false; reason = none })
normalize_capability (object fs) = ok (capability_of (object fs))
normalize_capability (instance_of fs) = ok (capability_of (instance_of fs))
normalize_capability _ = err type_error

pub record KbReport : Type 0 where
  pub overall : KbReadiness
  pub of_economy : CapabilityState
  pub of_memory : CapabilityState
  pub of_knowledge : CapabilityState

-- `report.capabilities[capability]`.
abbrev pub state_of : KbReport → KbCapability → CapabilityState
state_of r economy = r.of_economy
state_of r memory = r.of_memory
state_of r knowledge = r.of_knowledge

abbrev pub all_true : List Bool → Bool
all_true [] = true
all_true (b ∷ bs) = b && all_true bs

abbrev pub any_true : List Bool → Bool
any_true [] = false
any_true (b ∷ bs) = b || any_true bs

-- `READY` when all slots are ready, `UNAVAILABLE` when none is.
abbrev pub overall_of : List Bool → KbReadiness
overall_of slots =
    if all_true slots then ready else if not (any_true slots) then unavailable else degraded

abbrev pub slots_of : CapabilityState → CapabilityState → CapabilityState → List Bool
slots_of e m k =
    e.read_ready ∷ e.write_ready ∷ m.read_ready ∷ m.write_ready ∷ k.read_ready ∷ k.write_ready ∷ []

-- The check of the argument, `{}` where it is left out.
unfoldable pub capabilities_object : Value → Result Value
capabilities_object undefined = ok (object end)
capabilities_object (object fs) = ok (object fs)
capabilities_object (instance_of fs) = ok (instance_of fs)
capabilities_object _ = err type_error

unfoldable pub build_kb_readiness : Value → Result KbReport
unfolding normalize_capability capabilities_object
build_kb_readiness v = do
  capabilities ← capabilities_object v
  e ← normalize_capability (get "economy" capabilities)
  m ← normalize_capability (get "memory" capabilities)
  k ← normalize_capability (get "knowledge" capabilities)
  ok (record {
    overall = overall_of (slots_of e m k);
    of_economy = e;
    of_memory = m;
    of_knowledge = k;
  })

-- `KB_CAPABILITIES.includes(capability)`.
unfoldable pub read_capability : Value → Result KbCapability
read_capability v =
    if is_string v "economy"
    then ok economy
    else if is_string v "memory"
    then ok memory
    else if is_string v "knowledge"
    then ok knowledge
    else err range_error

abbrev pub same_capability : KbCapability → KbCapability → Bool
same_capability economy economy = true
same_capability memory memory = true
same_capability knowledge knowledge = true
same_capability _ _ = false

unfoldable pub has_capability : KbCapability → List KbCapability → Bool
has_capability c [] = false
has_capability c (d ∷ ds) = same_capability c d || has_capability c ds

unfoldable pub add_capability : KbCapability → List KbCapability → List KbCapability
unfolding has_capability
add_capability c unique = if has_capability c unique then unique else unique ++ (c ∷ [])

-- The loop over the values, from the capabilities found so far.
unfoldable pub unique_capabilities : List KbCapability → Items → Result (List KbCapability)
unfolding read_capability add_capability
unique_capabilities unique nil = ok unique
unique_capabilities unique (cons v vs) = do
  c ← read_capability v
  unique_capabilities (add_capability c unique) vs

unfoldable pub normalize_required_capabilities : Value → Result (List KbCapability)
unfolding unique_capabilities
normalize_required_capabilities (string s) = unique_capabilities [] (cons (string s) nil)
normalize_required_capabilities (array (cons v vs)) = unique_capabilities [] (cons v vs)
normalize_required_capabilities _ = err type_error

pub data AccessMode : Type 0 where
  read write : AccessMode

unfoldable pub read_access_mode : Value → Result AccessMode
read_access_mode v =
    if is_string v "write"
    then ok write
    else if is_string v "read"
    then ok read
    else err range_error

-- `report.capabilities[capability]?.[readinessField] === true`.
abbrev pub is_ready_for : AccessMode → CapabilityState → Bool
is_ready_for read s = s.read_ready
is_ready_for write s = s.write_ready

unfoldable pub blocked_of : KbReport → AccessMode → List KbCapability → List KbCapability
blocked_of r a [] = []
blocked_of r a (c ∷ cs) =
    let rest = blocked_of r a cs in if is_ready_for a (state_of r c) then rest else c ∷ rest

abbrev pub is_empty : List KbCapability → Bool
is_empty [] = true
is_empty (c ∷ cs) = false

pub record AccessDecision : Type 0 where
  pub allowed : Bool
  pub access : AccessMode
  pub required_capabilities : List KbCapability
  pub blocked_capabilities : List KbCapability

-- A report that `buildKbReadiness` made passes `assertReport`.
unfoldable pub evaluate_kb_capability_access : KbReport → Value → Value → Result AccessDecision
unfolding read_access_mode normalize_required_capabilities
evaluate_kb_capability_access r required access = do
  a ← read_access_mode access
  cs ← normalize_required_capabilities required
  let blocked = blocked_of r a cs
  ok (record {
    allowed = is_empty blocked;
    access = a;
    required_capabilities = cs;
    blocked_capabilities = blocked;
  })

unfoldable pub assert_kb_write_ready : KbReport → Value → Result AccessDecision
unfolding evaluate_kb_capability_access
assert_kb_write_ready r required = do
  d ← evaluate_kb_capability_access r required (string "write")
  if d.allowed then ok d else err kb_capability_write_blocked
