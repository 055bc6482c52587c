-- ===== src/Kb/Errors.antt =====
-- The error codes of Knowledge Ball and what each asks for (src/shared/kb_errors.js).
use new_humans.Prelude.{String, Bool, true, false, ◌==◌, Option, none, some, if◌then◌else◌}

pub data KbErrorDisposition : Type 0 where
  retryable non_retryable needs_reconciliation : KbErrorDisposition

-- `KB_ERROR_MODEL[code]?.disposition`, `none` where there is no definition.
unfoldable pub disposition_of : String → Option KbErrorDisposition
disposition_of code =
    if code == "UNAVAILABLE"
    then some retryable
    else if code == "TIMEOUT"
    then some retryable
    else if code == "AUTH_FAILED"
    then some non_retryable
    else if code == "BINDING_MISSING"
    then some non_retryable
    else if code == "STALE_VERSION"
    then some retryable
    else if code == "INSUFFICIENT_ENERGY"
    then some non_retryable
    else if code == "CONFLICT"
    then some non_retryable
    else if code == "OUTCOME_UNKNOWN"
    then some needs_reconciliation
    else none

unfoldable pub is_retryable_kb_error : String → Bool
is_retryable_kb_error code = elim (disposition_of code) [ some retryable ↦ true | _ ↦ false ]

unfoldable pub requires_kb_error_reconciliation : String → Bool
requires_kb_error_reconciliation code = elim (disposition_of code) [
  | some needs_reconciliation ↦ true
  | _ ↦ false
]

abbrev pub is_kb_error : Option KbErrorDisposition → Bool
is_kb_error none = false
is_kb_error (some d) = true
