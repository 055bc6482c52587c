-- ===== src/Sandbox/Result.antt =====
-- An execution result, by itself or against the request that it answers.
use new_humans.Prelude.{
  ℕ, String, Bool, true, false, not, ◌&&◌, ◌||◌, ◌==◌, leb, ltb, includes, List, [], ◌∷◌, Option,
  none, some, if◌then◌else◌, Result, ok, err, fail_if, ◌>>=◌, ◌>>◌, invalid_sandbox_contract,
}
use new_humans.Js.{Value, null, int, number, string, array, Items, nil, cons, get, is_string}
use new_humans.Js.Text.{codes}
use new_humans.Sandbox.Text.{
  TextFunctions, assert_plain_object, assert_string, assert_sandbox_relative_path, assert_array,
}
use new_humans.Sandbox.Request.{
  sandbox_contract_version, assert_non_negative_integer, assert_media_type, ArtifactPolicy,
  SandboxRequest,
}

abbrev pub sandbox_exit_reasons : List String
sandbox_exit_reasons =
    "COMPLETED" ∷ "NONZERO_EXIT" ∷ "SIGNALLED" ∷ "CPU_LIMIT_EXCEEDED" ∷ "MEMORY_LIMIT_EXCEEDED"
    ∷ "TIME_LIMIT_EXCEEDED" ∷ "DISK_LIMIT_EXCEEDED" ∷ "NETWORK_DENIED" ∷ "INVALID_REQUEST"
    ∷ "START_FAILED" ∷ "EXECUTOR_ERROR" ∷ []

abbrev is_reason : Value → Bool
is_reason (string s) = includes sandbox_exit_reasons s
is_reason _ = false

-- An integer or `null`; a string or `null`.
abbrev is_exit_code : Value → Bool
is_exit_code null = true
is_exit_code (number (int z)) = true
is_exit_code _ = false

abbrev is_signal : Value → Bool
is_signal null = true
is_signal (string s) = true
is_signal _ = false

unfoldable pub assert_exit : Value → Result (Unit {0})
unfolding assert_plain_object
assert_exit v = do
  assert_plain_object v
  fail_if (not (is_reason (get "reason" v))) invalid_sandbox_contract
  fail_if (not (is_exit_code (get "code" v))) invalid_sandbox_contract
  fail_if (not (is_signal (get "signal" v))) invalid_sandbox_contract

unfoldable pub assert_usage : Value → Result (Unit {0})
unfolding assert_plain_object assert_non_negative_integer
assert_usage v = do
  assert_plain_object v
  cpu ← assert_non_negative_integer (get "cpu_millis" v)
  memory ← assert_non_negative_integer (get "memory_peak_bytes" v)
  wall ← assert_non_negative_integer (get "wall_time_ms" v)
  disk ← assert_non_negative_integer (get "disk_bytes" v)
  requests ← assert_non_negative_integer (get "network_requests" v)
  ok tt

-- `/^[0-9a-f]{64}$/`, on the text of a value: an array of one item has the text of the item.
unfoldable pub hex_digits : ℕ → List ℕ → Bool
hex_digits ℕ.zero [] = true
hex_digits ℕ.zero (c ∷ cs) = false
hex_digits (ℕ.suc n) [] = false
hex_digits (ℕ.suc n) (c ∷ cs) =
    ((leb 48 c && leb c 57) || (leb 97 c && leb c 102)) && hex_digits n cs

unfoldable pub is_sha256 : Value → Bool
unfolding hex_digits
is_sha256 (string s) = hex_digits 64 (codes s)
is_sha256 (array (cons v nil)) = is_sha256 v
is_sha256 _ = false

-- `declared.get(path)`: of two policies for one path the map keeps the later.
unfoldable pub find_policy : String → List ArtifactPolicy → Option ArtifactPolicy
find_policy path [] = none
find_policy path (q ∷ qs) =
    let later = find_policy path qs in
    elim later [ some r ↦ some r | none ↦ if q.path == path then some q else none ]

abbrev pub within_policy : ℕ → Option ArtifactPolicy → Result (Unit {0})
within_policy size none = err invalid_sandbox_contract
within_policy size (some q) = fail_if (ltb q.max_bytes size) invalid_sandbox_contract

-- `none` stands for a result that is checked without its request.
abbrev pub assert_declared : Option SandboxRequest → String → ℕ → Result (Unit {0})
assert_declared none path size = ok tt
assert_declared (some r) path size = within_policy size (find_policy path r.artifacts)

pub record ResultArtifact : Type 0 where
  pub path : String
  pub size_bytes : ℕ

unfoldable pub assert_result_artifacts :
    TextFunctions → Option SandboxRequest → List String → Items → Result (List ResultArtifact)
unfolding assert_plain_object assert_sandbox_relative_path assert_non_negative_integer is_sha256
    assert_media_type find_policy
assert_result_artifacts f request seen nil = ok []
assert_result_artifacts f request seen (cons v vs) = do
  assert_plain_object v
  path ← assert_sandbox_relative_path f false (get "path" v)
  fail_if (includes seen path) invalid_sandbox_contract
  size ← assert_non_negative_integer (get "size_bytes" v)
  fail_if (not (is_sha256 (get "sha256" v))) invalid_sandbox_contract
  assert_media_type (get "media_type" v)
  assert_declared request path size
  rest ← assert_result_artifacts f request (path ∷ seen) vs
  ok (record { path = path; size_bytes = size } ∷ rest)

-- `seen.has(path)` after the loop.
unfoldable pub has_path : String → List ResultArtifact → Bool
has_path path [] = false
has_path path (a ∷ rest) = path == a.path || has_path path rest

unfoldable pub assert_required : List ArtifactPolicy → List ResultArtifact → Result (Unit {0})
unfolding has_path
assert_required [] found = ok tt
assert_required (q ∷ qs) found = do
  fail_if (q.required && not (has_path q.path found)) invalid_sandbox_contract
  assert_required qs found

abbrev pub assert_all_required : Option SandboxRequest → List ResultArtifact → Result (Unit {0})
assert_all_required none found = ok tt
assert_all_required (some r) found = assert_required r.artifacts found

abbrev pub answers : Option SandboxRequest → String → Bool
answers none execution_id = true
answers (some r) execution_id = execution_id == r.execution_id

-- The artifacts of an accepted result.
unfoldable pub assert_sandbox_execution_result :
    TextFunctions → Value → Option SandboxRequest → Result (List ResultArtifact)
unfolding assert_plain_object assert_string assert_exit assert_usage assert_array
    assert_result_artifacts assert_required
assert_sandbox_execution_result f v request = do
  assert_plain_object v
  fail_if (not (is_string (get "contract_version" v) sandbox_contract_version))
      invalid_sandbox_contract
  fail_if (not (is_string (get "kind" v) "result")) invalid_sandbox_contract
  execution_id ← assert_string (get "execution_id" v)
  fail_if (not (answers request execution_id)) invalid_sandbox_contract
  assert_exit (get "exit" v)
  assert_usage (get "usage" v)
  items ← assert_array (get "artifacts" v)
  found ← assert_result_artifacts f request [] items
  assert_all_required request found
  ok found
