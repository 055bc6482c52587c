-- ===== src/Memory/Scope.antt =====
-- Whose memory a request is about, and who asks.
use new_humans.Prelude.{
  String, Bool, true, false, not, [], ◌∷◌, ok, fail_if, ◌≡◌, refl, sym, ap, subst, ◌∙◌, eq_iff,
  >>=-eq-ok, fail_if-eq-ok, ok_inj, guarded, binding_missing, auth_failed,
}
use new_humans.Js.{is_one_of, same_text, Value, string, get, is_undefined, is_string, is_object}
use new_humans.Memory.Bindings.{
  require_string, require_uuid, is_hpa, assert_mode, assert_trusted_binding, subject_of,
  resolve_memory_subject, assert_memory_subject_scope,
}
use new_humans.Memory.Requests.{BaseRequest, MemoryOperation, base_request}

-- A request is about the subject that was named, which is the one the trusted binding gives: the
-- actor, or the human of an AGENT in the mode HPA.
pub record Scoped (binding subject : Value) (b : BaseRequest) : Type 0 where
  pub trusted : assert_trusted_binding binding ≡ ok tt
  pub about : b.subject_id ≡ subject
  pub bound : subject ≡ subject_of binding
  pub actor : b.actor_entity_id ≡ get "actor_entity_id" binding
  pub world : b.world_id ≡ get "world_id" binding
  pub for_human : is_hpa binding ≡ true → get "actor_entity_type" binding ≡ string "AGENT"
  pub for_self : is_hpa binding ≡ false → is_undefined (get "human_subject_id" binding) ≡ true

pub same_text-eq : (v w : Value) → same_text v w ≡ true → v ≡ w
same_text-eq (string a) (string b) h = ap string ((eq_iff a b).0 h)
same_text-eq v w h = cc

is_string-eq : (v : Value) (s : String) → is_string v s ≡ true → v ≡ string s
is_string-eq (string t) s h = ap string ((eq_iff t s).0 h)
is_string-eq v s h = cc

pub kept : (b : Bool) → not b ≡ false → b ≡ true
kept true h = refl
kept false h = cc

mode_of :
    (binding : Value)
    → assert_mode binding ≡ ok tt
    → (is_hpa binding ≡ true → get "actor_entity_type" binding ≡ string "AGENT")
      × (is_hpa binding ≡ false → is_undefined (get "human_subject_id" binding) ≡ true)
unfolding assert_mode
mode_of binding h = (agent, alone)
  where
    agent : is_hpa binding ≡ true → get "actor_entity_type" binding ≡ string "AGENT"
    agent e =
        let (_, a, _) =
          >>=-eq-ok
            (fail_if (not (is_string (get "actor_entity_type" binding) "AGENT")) auth_failed) _
            (rw e at h) in
        is_string-eq _ "AGENT" (kept _ (fail_if-eq-ok _ _ a))

    alone : is_hpa binding ≡ false → is_undefined (get "human_subject_id" binding) ≡ true
    alone e = kept _ (fail_if-eq-ok _ _ (rw e at h))

trusted-mode :
    (binding : Value) → assert_trusted_binding binding ≡ ok tt → assert_mode binding ≡ ok tt
unfolding assert_trusted_binding
trusted-mode binding h =
    let e1 = guarded (not (is_object binding)) binding_missing _ h in
    let (_, _, e2) = >>=-eq-ok (require_string 256 (get "world_id" binding)) _ e1 in
    let (_, _, e3) = >>=-eq-ok (require_uuid (get "actor_entity_id" binding)) _ e2 in
    let e4 =
      guarded (not (is_one_of ("HUMAN" ∷ "AGENT" ∷ []) (get "actor_entity_type" binding)))
        auth_failed _ e3 in
    let e5 =
      guarded (not (is_one_of ("SELF" ∷ "HPA" ∷ []) (get "mode" binding))) auth_failed _ e4 in
    guarded (not (is_string (get "binding_authority" binding) "M01")) auth_failed _ e5

pub base-Scoped :
    (binding subject : Value) (o : MemoryOperation) (b : BaseRequest)
    → base_request binding subject o ≡ ok b
    → Scoped binding subject b
unfolding base_request assert_memory_subject_scope resolve_memory_subject
base-Scoped binding subject o b h =
    let (resolved, scoped, e) = >>=-eq-ok (assert_memory_subject_scope binding subject) _ h in
    let (_, _, e1) = >>=-eq-ok (require_uuid subject) _ scoped in
    let (r, found, e2) = >>=-eq-ok (resolve_memory_subject binding) _ e1 in
    let (_, trusted, e3) = >>=-eq-ok (assert_trusted_binding binding) _ found in
    let (_, same, e4) = >>=-eq-ok (fail_if (not (same_text r subject)) auth_failed) _ e2 in
    let agrees = same_text-eq r subject (kept _ (fail_if-eq-ok _ _ same)) in
    let (human, alone) = mode_of binding (trusted-mode binding trusted) in
    subst (λ u. Scoped binding subject u) (ok_inj e)
      record {
        trusted = trusted;
        about = sym (ok_inj e4) ∙ agrees;
        bound = sym agrees ∙ sym (ok_inj e3);
        actor = refl;
        world = refl;
        for_human = human;
        for_self = alone;
      }
