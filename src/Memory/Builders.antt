-- ===== src/Memory/Builders.antt =====
-- What the four builders make.
use new_humans.Prelude.{
  not, ok, fail_if, ◌≡◌, sym, ap, ◌∙◌, >>=-eq-ok, fail_if-eq-ok, ok_inj, invalid_memory_contract,
}
use new_humans.Platform.{Platform}
use new_humans.Js.{when_defined, Value, get}
use new_humans.Memory.Bindings.{
  require_string, require_date_time, assert_trusted_binding, assert_source_provenance,
}
use new_humans.Memory.Requests.{
  BaseRequest, recall, append_experience, update_relation, history, base_request, require_content,
  normalize_cursor, normalize_limit, time_range, RecallRequest, build_recall_request,
  ExperienceCommand, build_append_experience_command, RelationCommand,
  build_update_relation_command, is_version, HistoryRequest, build_history_request,
  assert_write_inputs,
}
use new_humans.Memory.Scope.{Scoped, same_text-eq, kept, base-Scoped}

-- A builder that returned, by the base of what it made.
pub data Builds (p : Platform) (binding subject : Value) : BaseRequest → Type 0 where
  recalls :
      {r : RecallRequest} (query cursor limit time : Value)
      → build_recall_request p binding subject query cursor limit time ≡ ok r
      → Builds p binding subject r.base
  reads :
      {r : HistoryRequest} (cursor limit from to kind : Value)
      → build_history_request p binding subject cursor limit from to kind ≡ ok r
      → Builds p binding subject r.base
  appends :
      {r : ExperienceCommand} (key experience at provenance : Value)
      → build_append_experience_command p binding subject key experience at provenance ≡ ok r
      → Builds p binding subject r.base
  updates :
      {r : RelationCommand} (key relation version provenance : Value)
      → build_update_relation_command p binding subject key relation version provenance ≡ ok r
      → Builds p binding subject r.base

module _ (p : Platform) (binding subject : Value) where
  recall-base :
      (r : RecallRequest) (query cursor limit time : Value)
      → build_recall_request p binding subject query cursor limit time ≡ ok r
      → base_request binding subject recall ≡ ok r.base
  unfolding build_recall_request
  recall-base r query cursor limit time h =
      let (_, _, e1) = >>=-eq-ok (require_content query) _ h in
      let (b, based, e2) = >>=-eq-ok (base_request binding subject recall) _ e1 in
      let (_, _, e3) = >>=-eq-ok (normalize_cursor cursor) _ e2 in
      let (_, _, e4) = >>=-eq-ok (normalize_limit limit) _ e3 in
      let (_, _, e5) = >>=-eq-ok (time_range p time) _ e4 in based ∙ ap (λ u. ok u.base) (ok_inj e5)

  history-base :
      (r : HistoryRequest) (cursor limit from to kind : Value)
      → build_history_request p binding subject cursor limit from to kind ≡ ok r
      → base_request binding subject history ≡ ok r.base
  unfolding build_history_request
  history-base r cursor limit from to kind h =
      let (b, based, e1) = >>=-eq-ok (base_request binding subject history) _ h in
      let (_, _, e2) = >>=-eq-ok (normalize_cursor cursor) _ e1 in
      let (_, _, e3) = >>=-eq-ok (normalize_limit limit) _ e2 in
      let (_, _, e4) = >>=-eq-ok (when_defined from (require_date_time p)) _ e3 in
      let (_, _, e5) = >>=-eq-ok (when_defined to (require_date_time p)) _ e4 in
      let (_, _, e6) = >>=-eq-ok (when_defined kind (require_string 128)) _ e5 in
      based ∙ ap (λ u. ok u.base) (ok_inj e6)

  -- A write: its base, and that its inputs passed.
  Written : BaseRequest → (key provenance : Value) → Type 0
  Written b key provenance =
      (assert_write_inputs p binding key provenance ≡ ok tt) × Scoped binding subject b

  append-Written :
      (r : ExperienceCommand) (key experience at provenance : Value)
      → build_append_experience_command p binding subject key experience at provenance ≡ ok r
      → Written r.base key provenance × (r.provenance ≡ provenance)
  unfolding build_append_experience_command Written
  append-Written r key experience at provenance h =
      let (_, checked, e1) = >>=-eq-ok (assert_write_inputs p binding key provenance) _ h in
      let (_, _, e2) = >>=-eq-ok (require_content experience) _ e1 in
      let (_, _, e3) = >>=-eq-ok (require_date_time p at) _ e2 in
      let (b, based, e4) = >>=-eq-ok (base_request binding subject append_experience) _ e3 in
      (
        (
          checked,
          base-Scoped binding subject append_experience r.base
              (based ∙ ap (λ u. ok u.base) (ok_inj e4)),
        ),
        ap (λ u. u.provenance) (sym (ok_inj e4)),
      )

  update-Written :
      (r : RelationCommand) (key relation version provenance : Value)
      → build_update_relation_command p binding subject key relation version provenance ≡ ok r
      → Written r.base key provenance × (r.provenance ≡ provenance)
  unfolding build_update_relation_command Written
  update-Written r key relation version provenance h =
      let (_, checked, e1) = >>=-eq-ok (assert_write_inputs p binding key provenance) _ h in
      let (_, _, e2) = >>=-eq-ok (require_content relation) _ e1 in
      let (_, _, e3) =
        >>=-eq-ok (when_defined version λ v. fail_if (not (is_version v)) invalid_memory_contract) _
          e2 in
      let (b, based, e4) = >>=-eq-ok (base_request binding subject update_relation) _ e3 in
      (
        (
          checked,
          base-Scoped binding subject update_relation r.base
              (based ∙ ap (λ u. ok u.base) (ok_inj e4)),
        ),
        ap (λ u. u.provenance) (sym (ok_inj e4)),
      )

-- Every request and every command that a builder returns is about the subject that was named and no
-- other: it is the subject of a binding that passed every check, the actor itself, or, for an AGENT
-- in the mode HPA only, the human it is bound to; actor and world are the binding's.
pub built-Scoped :
    (p : Platform) (binding subject : Value) (b : BaseRequest)
    → Builds p binding subject b
    → Scoped binding subject b
unfolding Written
built-Scoped p binding subject b (recalls {r = r} query cursor limit time e) =
    base-Scoped binding subject recall b (recall-base p binding subject r query cursor limit time e)
built-Scoped p binding subject b (reads {r = r} cursor limit from to kind e) =
    base-Scoped binding subject history b
      (history-base p binding subject r cursor limit from to kind e)
built-Scoped p binding subject b (appends {r = r} key experience at provenance e) =
    (append-Written p binding subject r key experience at provenance e).0.1
built-Scoped p binding subject b (updates {r = r} key relation version provenance e) =
    (update-Written p binding subject r key relation version provenance e).0.1

executor-eq :
    (p : Platform) (binding key provenance : Value)
    → assert_write_inputs p binding key provenance ≡ ok tt
    → get "executor_entity_id" provenance ≡ get "actor_entity_id" binding
unfolding assert_write_inputs
executor-eq p binding key provenance h =
    let (_, _, e1) = >>=-eq-ok (require_string 512 key) _ h in
    let (_, _, e2) = >>=-eq-ok (assert_trusted_binding binding) _ e1 in
    let (_, _, e3) = >>=-eq-ok (assert_source_provenance p provenance) _ e2 in
    same_text-eq _ _ (kept _ (fail_if-eq-ok _ _ e3))

-- A command that writes, by its base and the provenance it carries.
pub data Writes (p : Platform) (binding subject : Value) : BaseRequest → Value → Type 0 where
  appends :
      {r : ExperienceCommand} (key experience at provenance : Value)
      → build_append_experience_command p binding subject key experience at provenance ≡ ok r
      → Writes p binding subject r.base r.provenance
  updates :
      {r : RelationCommand} (key relation version provenance : Value)
      → build_update_relation_command p binding subject key relation version provenance ≡ ok r
      → Writes p binding subject r.base r.provenance

-- The commands that write are attributed to the actor that the request names: the provenance they
-- carry names as executor the very actor of the request.
pub written-Attributed :
    (p : Platform) (binding subject : Value) (b : BaseRequest) (v : Value)
    → Writes p binding subject b v
    → get "executor_entity_id" v ≡ b.actor_entity_id
unfolding Written
written-Attributed p binding subject b v (Writes.appends {r = r} key experience at provenance e) =
    let ((checked, scoped), same) =
      append-Written p binding subject r key experience at provenance e in
    ap (get "executor_entity_id") same
    ∙ executor-eq p binding key provenance checked
    ∙ sym scoped.actor
written-Attributed p binding subject b v
      (Writes.updates {r = r} key relation version provenance e) =
    let ((checked, scoped), same) =
      update-Written p binding subject r key relation version provenance e in
    ap (get "executor_entity_id") same
    ∙ executor-eq p binding key provenance checked
    ∙ sym scoped.actor
