-- ===== src/Kb/Tests.antt =====
-- The theorems on readiness, at a report where memory can only be read.
use new_humans.Prelude.{none, true, false, ok, ◌≡◌, refl, ◌∷◌, []}
use new_humans.Js.{boolean, get, get_field, Value, string, array, object, nil, cons, end, field}
use new_humans.Kb.Readiness.{
  KbReport, degraded, economy, memory, read, write, build_kb_readiness, normalize_capability,
  capabilities_object, evaluate_kb_capability_access, assert_kb_write_ready, AccessDecision,
  read_access_mode, normalize_required_capabilities, unique_capabilities, read_capability,
  add_capability, has_capability, blocked_of,
}

abbrev reported : Value
reported = object (
    field "economy" (boolean true) (
      field "memory" (object (field "read_ready" (boolean true) end))
        (field "knowledge" (boolean false) end)))

abbrev report : KbReport
report = record {
  overall = degraded;
  of_economy = record { reported = true; read_ready = true; write_ready = true; reason = none };
  of_memory = record { reported = true; read_ready = true; write_ready = false; reason = none };
  of_knowledge = record { reported = true; read_ready = false; write_ready = false; reason = none };
}

report_built : build_kb_readiness reported ≡ ok report
unfolding build_kb_readiness normalize_capability capabilities_object get get_field
report_built = refl

abbrev wanted : Value
wanted = array (cons (string "memory") (cons (string "economy") (cons (string "memory") nil)))

abbrev reading : AccessDecision
reading = record {
  allowed = true;
  access = read;
  required_capabilities = memory ∷ economy ∷ [];
  blocked_capabilities = [];
}

abbrev writing : AccessDecision
writing = record {
  allowed = true;
  access = write;
  required_capabilities = economy ∷ [];
  blocked_capabilities = [];
}

writing_passed : assert_kb_write_ready report (string "economy") ≡ ok writing
unfolding assert_kb_write_ready evaluate_kb_capability_access read_access_mode
    normalize_required_capabilities unique_capabilities read_capability add_capability
    has_capability blocked_of
writing_passed = refl
