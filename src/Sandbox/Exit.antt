-- ===== src/Sandbox/Exit.antt =====
-- How an execution ended, by what was observed of it.
use new_humans.Prelude.{
  ℕ, String, Bool, true, false, not, ◌||◌, ◌==◌, Option, none, some, if◌then◌else◌, Result, ok,
  ◌>>=◌,
}
use new_humans.Prelude.Int.{ℤ, pos, ltb_ℤ}
use new_humans.Js.{Value}
use new_humans.Sandbox.Text.{TextFunctions}
use new_humans.Sandbox.Request.{SandboxLimits, assert_sandbox_execution_request}

pub data ExitReason : Type 0 where
  exit_completed nonzero_exit signalled cpu_limit_exceeded memory_limit_exceeded : ExitReason
  time_limit_exceeded disk_limit_exceeded network_denied start_failed executor_error : ExitReason

-- The defaults of the fields are those of the source.
pub record Observation : Type 0 where
  pub timed_out : Bool
  pub wall_time_ms : ℤ
  pub cpu_millis : ℤ
  pub memory_peak_bytes : ℤ
  pub disk_bytes : ℤ
  pub network_denied : Bool
  pub start_failed : Bool
  pub executor_error : Bool
  pub exit_code : ℤ
  pub signal : Option String

pub record SandboxExit : Type 0 where
  pub reason : ExitReason
  pub code : Option ℤ
  pub signal : Option String

-- `null` and the empty string count as no signal.
abbrev pub has_signal : Option String → Bool
has_signal none = false
has_signal (some s) = not (s == "")

abbrev pub is_zero : ℤ → Bool
is_zero (pos ℕ.zero) = true
is_zero _ = false

abbrev pub ended : ExitReason → Option String → SandboxExit
ended reason signal = record { reason = reason; code = none; signal = signal }

unfoldable pub classify_observation : SandboxLimits → Observation → SandboxExit
classify_observation l o =
    if o.executor_error
    then ended ExitReason.executor_error none
    else if o.start_failed
    then ended ExitReason.start_failed none
    else if o.timed_out || ltb_ℤ (pos l.wall_time_ms) o.wall_time_ms
    then ended time_limit_exceeded o.signal
    else if ltb_ℤ (pos l.memory_bytes) o.memory_peak_bytes
    then ended memory_limit_exceeded o.signal
    else if ltb_ℤ (pos l.disk_bytes) o.disk_bytes
    then ended disk_limit_exceeded o.signal
    else if ltb_ℤ (pos l.cpu_millis) o.cpu_millis
    then ended cpu_limit_exceeded o.signal
    else if o.network_denied
    then ended ExitReason.network_denied o.signal
    else if has_signal o.signal
    then ended signalled o.signal
    else if is_zero o.exit_code
    then record { reason = exit_completed; code = some (pos 0); signal = none }
    else record { reason = nonzero_exit; code = some o.exit_code; signal = none }

unfoldable pub classify_sandbox_exit : TextFunctions → Value → Observation → Result SandboxExit
unfolding assert_sandbox_execution_request classify_observation
classify_sandbox_exit f request o = do
  r ← assert_sandbox_execution_request f request
  ok (classify_observation r.limits o)
