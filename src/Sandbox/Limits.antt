-- ===== src/Sandbox/Limits.antt =====
-- An execution counts as completed only within its limits.
use new_humans.Prelude.{true, false, ok, >>=-eq-ok, ok_inj, ◌≡◌, subst, sym, ◌∙◌, ◌↔◌, arith}
use new_humans.Prelude.Int.{pos, ◌≤ℤ◌}
use new_humans.Js.{Value}
use new_humans.Sandbox.Text.{TextFunctions}
use new_humans.Sandbox.Request.{SandboxLimits, SandboxRequest, assert_sandbox_execution_request}
use new_humans.Sandbox.Exit.{
  exit_completed, Observation, SandboxExit, has_signal, is_zero, classify_observation,
  classify_sandbox_exit,
}

-- Nothing failed, no limit was passed, nothing was denied or signalled, and the code is zero.
pub record Clean (l : SandboxLimits) (o : Observation) : Type 0 where
  pub no_executor_error : o.executor_error ≡ false
  pub started : o.start_failed ≡ false
  pub in_time : o.timed_out ≡ false
  pub wall_time : o.wall_time_ms ≤ℤ pos l.wall_time_ms
  pub memory : o.memory_peak_bytes ≤ℤ pos l.memory_bytes
  pub disk : o.disk_bytes ≤ℤ pos l.disk_bytes
  pub cpu : o.cpu_millis ≤ℤ pos l.cpu_millis
  pub network : o.network_denied ≡ false
  pub no_signal : has_signal o.signal ≡ false
  pub zero : is_zero o.exit_code ≡ true

Clean-of :
    (l : SandboxLimits) (o : Observation)
    → (classify_observation l o).reason ≡ exit_completed
    → Clean l o
unfolding classify_observation
Clean-of l o h = record {
  no_executor_error = ground arith;
  started = ground arith;
  in_time = ground arith;
  wall_time = ground arith;
  memory = ground arith;
  disk = ground arith;
  cpu = ground arith;
  network = ground arith;
  no_signal = ground arith;
  zero = ground arith;
}

completed_of :
    (l : SandboxLimits) (o : Observation)
    → Clean l o
    → (classify_observation l o).reason ≡ exit_completed
unfolding classify_observation
completed_of l o c = ground (
  arith, c.no_executor_error, c.started, c.in_time, c.wall_time, c.memory, c.disk, c.cpu, c.network,
  c.no_signal, c.zero,
)

-- For an accepted request the exit is COMPLETED exactly when nothing failed, no limit of the request
-- was passed, no access was denied, no signal arrived and the exit code is zero.
pub completed_iff :
    (f : TextFunctions) (v : Value) (r : SandboxRequest) (o : Observation) (e : SandboxExit)
    → assert_sandbox_execution_request f v ≡ ok r
    → classify_sandbox_exit f v o ≡ ok e
    → e.reason ≡ exit_completed ↔ Clean r.limits o
unfolding classify_sandbox_exit
completed_iff f v r o e accepted h =
    let (x, e1, h1) = >>=-eq-ok (assert_sandbox_execution_request f v) _ h in
    let same : r ≡ x = ok_inj (sym accepted ∙ e1) in
    subst (λ q. e.reason ≡ exit_completed ↔ Clean q.limits o) (sym same)
      (subst (λ z. z.reason ≡ exit_completed ↔ Clean x.limits o) (ok_inj h1)
        (Clean-of x.limits o, completed_of x.limits o))
