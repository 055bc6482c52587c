-- ===== src/Sandbox/Artifacts.antt =====
-- What an accepted result delivers of what its request declared, and the bounds of a request.
use mathlib.Core.List.{Memᴰ}
use mathlib.Core.List.Memᴰ
use new_humans.Prelude.{
  ℕ, ◌≤◌, String, true, false, not, ◌&&◌, ◌==◌, includes, some, List, [], ◌∷◌, ok, fail_if,
  >>=-eq-ok, ok_inj, invalid_sandbox_contract, eq_iff, Option-cases, ◌≡◌, subst, sym, ap, ◌∙◌, inl,
  inr, arith,
}
use new_humans.Js.{Value, Items, nil, cons, get, is_string}
use new_humans.Sandbox.Text.{
  TextFunctions, assert_plain_object, assert_string, assert_sandbox_relative_path, assert_array,
}
use new_humans.Sandbox.Request.{
  assert_non_negative_integer, assert_media_type, ArtifactPolicy, SandboxRequest,
  sandbox_contract_version,
}
use new_humans.Sandbox.Result.{
  find_policy, assert_declared, ResultArtifact, assert_result_artifacts, has_path, assert_required,
  assert_all_required, assert_exit, assert_usage, answers, is_sha256,
  assert_sandbox_execution_result,
}

-- An artifact that the request declared, within the size that it allows.
pub record Declared (r : SandboxRequest) (a : ResultArtifact) : Type 0 where
  pub policy : ArtifactPolicy
  pub member : Memᴰ policy r.artifacts
  pub same_path : policy.path ≡ a.path
  pub size : a.size_bytes ≤ policy.max_bytes

find_policy-eq-some :
    (path : String) (qs : List ArtifactPolicy) {q : ArtifactPolicy}
    → find_policy path qs ≡ some q
    → Memᴰ q qs × (q.path ≡ path)
unfolding find_policy
find_policy-eq-some path [] h = cc
find_policy-eq-some path (p ∷ qs) {q} h = elim (Option-cases (find_policy path qs)) [
  | inl e ↦
      let here : (p.path == path) ≡ true = ground arith in
      let same : p ≡ q = ground arith in
      (Memᴰ.head (sym same), subst (λ x. x.path ≡ path) same ((eq_iff p.path path).0 here))
  | inr (later, e) ↦
      let same : later ≡ q = ground arith in
      let (m, at) = find_policy-eq-some path qs (e ∙ ap some same) in (Memᴰ.tail m, at)
]

Declared-of :
    (r : SandboxRequest) (path : String) (size : ℕ)
    → assert_declared (some r) path size ≡ ok tt
    → Declared r (record { path = path; size_bytes = size })
Declared-of r path size h = elim (Option-cases (find_policy path r.artifacts)) [
  | inl e ↦ absurd (ground arith)
  | inr (q, e) ↦
      let (m, at) = find_policy-eq-some path r.artifacts e in
      record { policy = q; member = m; same_path = at; size = ground arith }
]

-- The first artifact of a result that passed the loop, and the rest.
record Delivered (f : TextFunctions) (r : SandboxRequest) (vs : Items) (found : List ResultArtifact)
    : Type 0 where
  path : String
  size : ℕ
  seen : List String
  rest : List ResultArtifact
  declared : assert_declared (some r) path size ≡ ok tt
  continues : assert_result_artifacts f (some r) seen vs ≡ ok rest
  shape : record { path = path; size_bytes = size } ∷ rest ≡ found

Delivered-of :
    (f : TextFunctions) (r : SandboxRequest) (seen : List String) (v : Value) (vs : Items)
    (found : List ResultArtifact)
    → assert_result_artifacts f (some r) seen (cons v vs) ≡ ok found
    → Delivered f r vs found
unfolding assert_result_artifacts
Delivered-of f r seen v vs found h =
    let (_, _, h1) = >>=-eq-ok (assert_plain_object v) _ h in
    let (path, _, h2) = >>=-eq-ok (assert_sandbox_relative_path f false (get "path" v)) _ h1 in
    let (_, _, h3) = >>=-eq-ok (fail_if (includes seen path) invalid_sandbox_contract) _ h2 in
    let (size, _, h4) = >>=-eq-ok (assert_non_negative_integer (get "size_bytes" v)) _ h3 in
    let (_, _, h5) =
      >>=-eq-ok (fail_if (not (is_sha256 (get "sha256" v))) invalid_sandbox_contract) _ h4 in
    let (_, _, h6) = >>=-eq-ok (assert_media_type (get "media_type" v)) _ h5 in
    let (_, declared, h7) = >>=-eq-ok (assert_declared (some r) path size) _ h6 in
    let (rest, continues, h8) =
      >>=-eq-ok (assert_result_artifacts f (some r) (path ∷ seen) vs) _ h7 in
    record {
      path = path;
      size = size;
      seen = path ∷ seen;
      rest = rest;
      declared = declared;
      continues = continues;
      shape = ok_inj h8;
    }

all-Declared :
    (f : TextFunctions) (r : SandboxRequest) (seen : List String) (vs : Items)
    (found : List ResultArtifact)
    → assert_result_artifacts f (some r) seen vs ≡ ok found
    → (a : ResultArtifact) → Memᴰ a found
    → Declared r a
unfolding assert_result_artifacts
all-Declared f r seen nil found h a m = absurd (Memᴰ.not-nil (subst (Memᴰ a) (sym (ok_inj h)) m))
all-Declared f r seen (cons v vs) found h a m =
    let d = Delivered-of f r seen v vs found h in
    elim (Memᴰ.cases_cons (subst (Memᴰ a) (sym d.shape) m)) [
      | inl e ↦ subst (Declared r) (sym e) (Declared-of r d.path d.size d.declared)
      | inr rest ↦ all-Declared f r d.seen vs d.rest d.continues a rest
    ]

all_required :
    (qs : List ArtifactPolicy) (found : List ResultArtifact)
    → assert_required qs found ≡ ok tt
    → (q : ArtifactPolicy) → Memᴰ q qs
    → q.required ≡ true
    → has_path q.path found ≡ true
unfolding assert_required
all_required [] found h q m required = absurd (Memᴰ.not-nil m)
all_required (p ∷ qs) found h q m required =
    let (_, first, rest) =
      >>=-eq-ok (fail_if (p.required && not (has_path p.path found)) invalid_sandbox_contract) _
        h in
    elim (Memᴰ.cases_cons m) [
      | inl e ↦
          let here : p.required ≡ true = subst (λ x. x.required ≡ true) e required in
          subst (λ x. has_path x.path found ≡ true) (sym e) (ground arith)
      | inr later ↦ all_required qs found rest q later required
    ]

-- What the request asked for is what the result delivers.
pub record Delivers (r : SandboxRequest) (found : List ResultArtifact) : Type 0 where
  pub declared : (a : ResultArtifact) → Memᴰ a found → Declared r a
  pub required :
      (q : ArtifactPolicy) → Memᴰ q r.artifacts → q.required ≡ true → has_path q.path found ≡ true

-- A result that is accepted against its request delivers only artifacts that the request declared,
-- each within its declared size, and all that the request requires.
pub result-Delivers :
    (f : TextFunctions) (v : Value) (r : SandboxRequest) (found : List ResultArtifact)
    → assert_sandbox_execution_result f v (some r) ≡ ok found
    → Delivers r found
unfolding assert_sandbox_execution_result
result-Delivers f v r found h =
    let (_, _, h1) = >>=-eq-ok (assert_plain_object v) _ h in
    let (_, _, h2) =
      >>=-eq-ok
        (fail_if (not (is_string (get "contract_version" v) sandbox_contract_version))
          invalid_sandbox_contract)
        _ h1 in
    let (_, _, h3) =
      >>=-eq-ok (fail_if (not (is_string (get "kind" v) "result")) invalid_sandbox_contract) _ h2 in
    let (id, _, h4) = >>=-eq-ok (assert_string (get "execution_id" v)) _ h3 in
    let (_, _, h5) =
      >>=-eq-ok (fail_if (not (answers (some r) id)) invalid_sandbox_contract) _ h4 in
    let (_, _, h6) = >>=-eq-ok (assert_exit (get "exit" v)) _ h5 in
    let (_, _, h7) = >>=-eq-ok (assert_usage (get "usage" v)) _ h6 in
    let (items, _, h8) = >>=-eq-ok (assert_array (get "artifacts" v)) _ h7 in
    let (kept, listed, h9) = >>=-eq-ok (assert_result_artifacts f (some r) [] items) _ h8 in
    let (_, required, h10) = >>=-eq-ok (assert_all_required (some r) kept) _ h9 in
    subst (Delivers r) (ok_inj h10) (record {
      declared = all-Declared f r [] items kept listed;
      required = all_required r.artifacts kept required;
    })
