-- ===== src/Sandbox/Tests.antt =====
-- The theorems on the sandbox, at a request for one artifact and its result.
use new_humans.Prelude.{String, true, false, some, none, ok, List, [], ◌∷◌, ◌≡◌, refl}
use new_humans.Prelude.Int.{pos}
use new_humans.Js.Text.{is_space}
use new_humans.Js.{
  text_field, Value, end, field, string, null, boolean, number, int, object, array, cons, nil, get,
  get_field,
}
use new_humans.Sandbox.Text.{
  TextFunctions, any_code, is_control, assert_plain_object, assert_string, split_path,
  any_dot_segment, assert_canonical, assert_sandbox_relative_path, assert_array,
}
use new_humans.Sandbox.Request.{
  assert_positive_integer, assert_non_negative_integer, assert_limits, read_network_mode,
  assert_hosts, assert_network, assert_boolean, assert_media_type, assert_artifacts, assert_argv,
  assert_command, deny_all, SandboxRequest, assert_sandbox_execution_request,
}
use new_humans.Sandbox.Result.{
  assert_exit, assert_usage, hex_digits, is_sha256, find_policy, assert_result_artifacts, has_path,
  assert_required, ResultArtifact, assert_sandbox_execution_result,
}
use new_humans.Sandbox.Exit.{
  exit_completed, Observation, SandboxExit, classify_observation, classify_sandbox_exit,
}
use new_humans.Sandbox.Paths.{Inside, path-Inside}
use new_humans.Sandbox.Artifacts.{Delivers, result-Delivers}

abbrev functions : TextFunctions
functions = record { is_absolute = λ s. false; normalize = λ s. s; lower_case = λ s. s }

abbrev count : Value
count = number (int (pos 10))

path_accepted :
    assert_sandbox_relative_path functions false (string "out/log.txt") ≡ ok "out/log.txt"
unfolding assert_sandbox_relative_path assert_string any_code is_control assert_canonical
    any_dot_segment split_path
path_accepted = refl

path-Inside_example : Inside "out/log.txt"
path-Inside_example = path-Inside functions false (string "out/log.txt") "out/log.txt" path_accepted

abbrev limits : Value
limits = object (
    field "cpu_millis" count
      (field "memory_bytes" count (field "wall_time_ms" count (field "disk_bytes" count end))))

abbrev command : Value
command =
    object (text_field "executable" "node" (field "argv" (array nil) (text_field "cwd" "." end)))

abbrev network : Value
network = object (text_field "mode" "DENY_ALL" (field "allow_hosts" (array nil) end))

abbrev artifact : Value
artifact =
    object
      (text_field "path" "log.txt" (field "required" (boolean true) (field "max_bytes" count end)))

abbrev asked : Value
asked = object (
    text_field "contract_version" "nh.sandbox.v1" (
      text_field "kind" "request" (
        text_field "execution_id" "e-1" (
          field "command" command (
            field "limits" limits
              (field "network" network (field "artifacts" (array (cons artifact nil)) end)))))))

abbrev request : SandboxRequest
request = record {
  execution_id = "e-1";
  limits = record { cpu_millis = 10; memory_bytes = 10; wall_time_ms = 10; disk_bytes = 10 };
  network = record { mode = deny_all; allow_hosts = [] };
  artifacts = record { path = "log.txt"; required = true; max_bytes = 10 } ∷ [];
}

request_accepted : assert_sandbox_execution_request functions asked ≡ ok request
unfolding assert_sandbox_execution_request assert_plain_object assert_string any_code is_control
    is_space assert_command assert_sandbox_relative_path assert_canonical any_dot_segment split_path
    assert_array assert_argv assert_limits assert_positive_integer assert_network read_network_mode
    assert_hosts assert_artifacts assert_boolean assert_media_type get get_field
request_accepted = refl

abbrev digest : String
digest = "0123456789abcdef0123456789abcdef0123456789abcdef0123456789abcdef"

abbrev usage : Value
usage = object (
    field "cpu_millis" count (
      field "memory_peak_bytes" count (
        field "wall_time_ms" count
          (field "disk_bytes" count (field "network_requests" count end)))))

abbrev result : Value
result = object (
    text_field "contract_version" "nh.sandbox.v1" (
      text_field "kind" "result" (
        text_field "execution_id" "e-1" (
          field "exit"
            (object
              (text_field "reason" "COMPLETED" (field "code" count (field "signal" null end))))
            (field "usage" usage (
              field "artifacts"
                (array (
                  cons
                    (object (
                      text_field "path" "log.txt"
                        (field "size_bytes" count (text_field "sha256" digest end))))
                    nil))
                end))))))

abbrev delivered : List ResultArtifact
delivered = record { path = "log.txt"; size_bytes = 10 } ∷ []

result_accepted : assert_sandbox_execution_result functions result (some request) ≡ ok delivered
unfolding assert_sandbox_execution_result assert_plain_object assert_string any_code is_control
    assert_exit assert_usage assert_non_negative_integer assert_array assert_result_artifacts
    assert_sandbox_relative_path assert_canonical any_dot_segment split_path is_sha256 hex_digits
    assert_media_type find_policy assert_required has_path get get_field
result_accepted = refl

result-Delivers_example : Delivers request delivered
result-Delivers_example = result-Delivers functions result request delivered result_accepted

abbrev observed : Observation
observed = record {
  timed_out = false;
  wall_time_ms = pos 10;
  cpu_millis = pos 3;
  memory_peak_bytes = pos 4;
  disk_bytes = pos 5;
  network_denied = false;
  start_failed = false;
  executor_error = false;
  exit_code = pos 0;
  signal = none;
}

abbrev finished : SandboxExit
finished = record { reason = exit_completed; code = some (pos 0); signal = none }

classified : classify_sandbox_exit functions asked observed ≡ ok finished
unfolding classify_sandbox_exit classify_observation
classified = rw (request_accepted) refl
