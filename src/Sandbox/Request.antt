-- ===== src/Sandbox/Request.antt =====
-- An execution request. What the checks read is kept in a record: a request that was refused goes no
-- further.
use new_humans.Prelude.{
  ℕ, String, Bool, true, false, not, ◌&&◌, eqb, leb, ltb, includes, List, [], ◌∷◌, if◌then◌else◌,
  Result, ok, err, fail_if, ◌>>=◌, ◌>>◌, invalid_sandbox_contract,
}
use new_humans.Prelude.Int.{pos}
use new_humans.Js.{
  Value, int, number, string, boolean, Items, nil, cons, get, is_string, is_undefined,
}
use new_humans.Js.Text.{codes, is_space}
use new_humans.Sandbox.Text.{
  TextFunctions, any_code, assert_plain_object, assert_string, assert_sandbox_relative_path,
  assert_exact_host, assert_array,
}

abbrev pub sandbox_contract_version : String
sandbox_contract_version = "nh.sandbox.v1"

abbrev pub max_safe_integer : ℕ
max_safe_integer = 9007199254740991

unfoldable pub assert_positive_integer : Value → Result ℕ
assert_positive_integer (number (int (pos n))) =
    if ltb 0 n && leb n max_safe_integer then ok n else err invalid_sandbox_contract
assert_positive_integer _ = err invalid_sandbox_contract

unfoldable pub assert_non_negative_integer : Value → Result ℕ
assert_non_negative_integer (number (int (pos n))) =
    if leb n max_safe_integer then ok n else err invalid_sandbox_contract
assert_non_negative_integer _ = err invalid_sandbox_contract

pub record SandboxLimits : Type 0 where
  pub cpu_millis : ℕ
  pub memory_bytes : ℕ
  pub wall_time_ms : ℕ
  pub disk_bytes : ℕ

unfoldable pub assert_limits : Value → Result SandboxLimits
unfolding assert_plain_object assert_positive_integer
assert_limits v = do
  assert_plain_object v
  cpu ← assert_positive_integer (get "cpu_millis" v)
  memory ← assert_positive_integer (get "memory_bytes" v)
  wall ← assert_positive_integer (get "wall_time_ms" v)
  disk ← assert_positive_integer (get "disk_bytes" v)
  ok (record { cpu_millis = cpu; memory_bytes = memory; wall_time_ms = wall; disk_bytes = disk })

pub data NetworkMode : Type 0 where
  deny_all allowlist : NetworkMode

unfoldable pub read_network_mode : Value → Result NetworkMode
read_network_mode v =
    if is_string v "DENY_ALL"
    then ok deny_all
    else if is_string v "ALLOWLIST"
    then ok allowlist
    else err invalid_sandbox_contract

-- The loop over the hosts, with those seen so far.
unfoldable pub assert_hosts : TextFunctions → List String → Items → Result (List String)
unfolding assert_exact_host
assert_hosts f seen nil = ok []
assert_hosts f seen (cons v vs) = do
  host ← assert_exact_host f v
  fail_if (includes seen host) invalid_sandbox_contract
  rest ← assert_hosts f (host ∷ seen) vs
  ok (host ∷ rest)

abbrev pub is_empty : List String → Bool
is_empty [] = true
is_empty (s ∷ ss) = false

-- `DENY_ALL` has no hosts, `ALLOWLIST` has at least one.
abbrev pub fits_mode : NetworkMode → List String → Bool
fits_mode deny_all hosts = is_empty hosts
fits_mode allowlist hosts = not (is_empty hosts)

pub record SandboxNetwork : Type 0 where
  pub mode : NetworkMode
  pub allow_hosts : List String

unfoldable pub assert_network : TextFunctions → Value → Result SandboxNetwork
unfolding assert_plain_object read_network_mode assert_array assert_hosts
assert_network f v = do
  assert_plain_object v
  mode ← read_network_mode (get "mode" v)
  items ← assert_array (get "allow_hosts" v)
  hosts ← assert_hosts f [] items
  fail_if (not (fits_mode mode hosts)) invalid_sandbox_contract
  ok (record { mode = mode; allow_hosts = hosts })

pub record ArtifactPolicy : Type 0 where
  pub path : String
  pub required : Bool
  pub max_bytes : ℕ

unfoldable pub assert_boolean : Value → Result Bool
assert_boolean (boolean b) = ok b
assert_boolean _ = err invalid_sandbox_contract

unfoldable pub assert_media_type : Value → Result (Unit {0})
unfolding assert_string
assert_media_type v = if is_undefined v then ok tt else (do s ← assert_string v; ok tt)

-- The loop over the artifacts, with the paths seen so far and the disk limit.
unfoldable pub assert_artifacts :
    TextFunctions → ℕ → List String → Items → Result (List ArtifactPolicy)
unfolding assert_plain_object assert_sandbox_relative_path assert_boolean assert_positive_integer
    assert_media_type
assert_artifacts f disk seen nil = ok []
assert_artifacts f disk seen (cons v vs) = do
  assert_plain_object v
  path ← assert_sandbox_relative_path f false (get "path" v)
  fail_if (includes seen path) invalid_sandbox_contract
  required ← assert_boolean (get "required" v)
  max_bytes ← assert_positive_integer (get "max_bytes" v)
  fail_if (ltb disk max_bytes) invalid_sandbox_contract
  assert_media_type (get "media_type" v)
  rest ← assert_artifacts f disk (path ∷ seen) vs
  ok (record { path = path; required = required; max_bytes = max_bytes } ∷ rest)

-- NUL-free strings.
unfoldable pub assert_argv : Items → Result (Unit {0})
unfolding any_code
assert_argv nil = ok tt
assert_argv (cons (string s) vs) = do
  fail_if (any_code (eqb 0) (codes s)) invalid_sandbox_contract
  assert_argv vs
assert_argv (cons _ vs) = err invalid_sandbox_contract

unfoldable pub assert_command : TextFunctions → Value → Result (Unit {0})
unfolding assert_plain_object assert_string any_code is_space assert_sandbox_relative_path
    assert_array assert_argv
assert_command f v = do
  assert_plain_object v
  executable ← assert_string (get "executable" v)
  fail_if (any_code is_space (codes executable)) invalid_sandbox_contract
  if any_code (eqb 47) (codes executable)
      then (do s ← assert_sandbox_relative_path f false (string executable); ok tt)
      else ok tt
  argv ← assert_array (get "argv" v)
  assert_argv argv
  cwd ← assert_sandbox_relative_path f true (get "cwd" v)
  ok tt

pub record SandboxRequest : Type 0 where
  pub execution_id : String
  pub limits : SandboxLimits
  pub network : SandboxNetwork
  pub artifacts : List ArtifactPolicy

unfoldable pub assert_sandbox_execution_request : TextFunctions → Value → Result SandboxRequest
unfolding assert_plain_object assert_string assert_command assert_limits assert_network assert_array
    assert_artifacts
assert_sandbox_execution_request f v = do
  assert_plain_object v
  fail_if (not (is_string (get "contract_version" v) sandbox_contract_version))
      invalid_sandbox_contract
  fail_if (not (is_string (get "kind" v) "request")) invalid_sandbox_contract
  execution_id ← assert_string (get "execution_id" v)
  assert_command f (get "command" v)
  limits ← assert_limits (get "limits" v)
  network ← assert_network f (get "network" v)
  items ← assert_array (get "artifacts" v)
  artifacts ← assert_artifacts f limits.disk_bytes [] items
  ok (record {
    execution_id = execution_id;
    limits = limits;
    network = network;
    artifacts = artifacts;
  })
