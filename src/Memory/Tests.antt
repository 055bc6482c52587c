-- ===== src/Memory/Tests.antt =====
-- An agent that writes to its human's memory.
use new_humans.Prelude.{true, ok, ◌≡◌, refl}
use new_humans.Platform.{Platform}
use new_humans.Js.{Value, string, object, field, end, get}
use new_humans.Js.Text.{is_digit}
use new_humans.Memory.Bindings.{
  require_string, require_uuid, require_object, require_date_time, assert_trusted_binding,
  assert_source_provenance, assert_memory_subject_scope, resolve_memory_subject,
}
use new_humans.Memory.Requests.{
  BaseRequest, append_experience, ExperienceCommand, build_append_experience_command, base_request,
  assert_write_inputs,
}
use new_humans.Memory.Scope.{Scoped}
use new_humans.Memory.Builders.{Builds, Writes, built-Scoped, written-Attributed}

abbrev platform : Platform
platform = record { sha256_hex = λ s. s; is_timestamp = λ s. true }

abbrev agent_id : Value
agent_id = string "00000000-0000-4000-8000-00000000000a"

abbrev human_id : Value
human_id = string "00000000-0000-4000-8000-00000000000B"

abbrev binding : Value
binding = object (
    field "world_id" (string "w") (
      field "actor_entity_id" agent_id (
        field "actor_entity_type" (string "AGENT") (
          field "mode" (string "HPA")
            (field "binding_authority" (string "M01") (field "human_subject_id" human_id end))))))

abbrev provenance : Value
provenance = object (
    field "source_id" (string "s1") (
      field "source_kind" (string "CHAT") (
        field "source_authority" (string "NH") (
          field "recorded_at" (string "2026-01-01T00:00:00Z")
            (field "executor_entity_id" agent_id end)))))

abbrev experience : Value
experience = object (field "text" (string "met Bob") end)

abbrev base : BaseRequest
base = record {
  world_id = string "w";
  operation = append_experience;
  subject_id = human_id;
  actor_entity_id = agent_id;
  subject_binding = string "HPA";
}

abbrev command : ExperienceCommand
command = record {
  base = base;
  idempotency_key = string "k1";
  occurred_at = string "2026-01-01T00:00:00Z";
  experience = experience;
  provenance = provenance;
}

built :
    build_append_experience_command platform binding human_id
      (string "k1")
      experience
      (string "2026-01-01T00:00:00Z")
      provenance
    ≡ ok command
unfolding build_append_experience_command assert_write_inputs require_string assert_trusted_binding
    require_uuid is_digit assert_source_provenance require_object require_date_time base_request
    assert_memory_subject_scope resolve_memory_subject
built = refl

built-Scoped_example : Scoped binding human_id base
built-Scoped_example =
    built-Scoped platform binding human_id base
      (Builds.appends (string "k1") experience (string "2026-01-01T00:00:00Z") provenance built)

written-Attributed_example : get "executor_entity_id" provenance ≡ agent_id
written-Attributed_example =
    written-Attributed platform binding human_id base provenance
      (Writes.appends (string "k1") experience (string "2026-01-01T00:00:00Z") provenance built)
