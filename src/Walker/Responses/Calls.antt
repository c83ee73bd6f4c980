-- ===== src/Walker/Responses/Calls.antt =====
-- The calls of functions and tools of walker/responses.go, their callers and outputs, and what is
-- replayed of a reasoning.
use cpa_plugin_privacyfilter.Base.{
  Bool, true, false, not, none, some, ◌++◌, if◌then◌else◌, Bytes, bytes_eq,
}
use cpa_plugin_privacyfilter.Base.Text.{words, codes}
use cpa_plugin_privacyfilter.Walker.{
  scope_system, scope_user, scope_assistant, scope_tool_input, scope_tool_output, natural_text,
  encoded_json, json_value, tool_output, direct, mutable_encoded_json, json_or_plain,
}
use cpa_plugin_privacyfilter.Walker.Tree.{Node, is_string, is_object, is_array, elements}
use cpa_plugin_privacyfilter.Walker.Steps.{Done, done, add, each, ◌>>=◌, ◌>>◌}
use cpa_plugin_privacyfilter.Walker.Fields.{
  shape, missing, field, with_value, unique, unsupported_value, typed_field,
  mark_opaque_string_field, mark_opaque_string_fields, add_string_field, walk_string_values,
  each_object, add_required, mark_required, mark_type,
}
use cpa_plugin_privacyfilter.Walker.Responses.Config.{array_in}
use cpa_plugin_privacyfilter.Walker.Responses.Content.{walk_responses_input_content}

-- `walkResponsesCallerField`
unfoldable pub walk_responses_caller_field : Node → Done
unfolding with_value unique mark_type bytes_eq mark_required
walk_responses_caller_field n = with_value n (codes "caller") λ caller.
    if not (is_object caller) then shape caller (codes "object") (codes "caller") else (do
      unique caller (words "type caller_id")
      caller_type ← mark_type caller
      if bytes_eq caller_type (codes "direct")
          then done
          else if bytes_eq caller_type (codes "program")
          then mark_required caller (codes "caller_id")
          else unsupported_value caller (codes "unknown caller type ") caller_type)

-- The skills of `walkResponsesEnvironmentField`
unfoldable pub walk_skill : Node → Done
unfolding unique mark_opaque_string_fields add_string_field
walk_skill skill = do
  unique skill (words "name description path")
  mark_opaque_string_fields skill (words "name path")
  add_string_field skill (codes "description") false true scope_system natural_text

-- `walkResponsesEnvironmentField`
unfoldable pub walk_responses_environment_field : Node → Done
unfolding with_value unique mark_type bytes_eq mark_required each_object elements walk_skill
walk_responses_environment_field n = with_value n (codes "environment") λ environment.
    if not (is_object environment)
    then shape environment (codes "object") (codes "environment")
    else (do
      unique environment (words "type container_id skills")
      environment_type ← mark_type environment
      if bytes_eq environment_type (codes "container_reference")
          then mark_required environment (codes "container_id")
          else if bytes_eq environment_type (codes "local")
          then with_value environment (codes "skills") (λ skills.
            if is_array skills
            then each_object (elements skills) (codes "local skill is not an object") walk_skill
            else shape skills (codes "array") (codes "local skills"))
          else unsupported_value environment (codes "unknown environment type ") environment_type)

-- `walkResponsesFunctionCall`
unfoldable pub walk_responses_function_call : Node → Done
unfolding unique mark_opaque_string_fields walk_responses_caller_field add_required
walk_responses_function_call v = do
  unique v (words "type arguments call_id id name namespace caller status")
  mark_opaque_string_fields v (words "call_id id name namespace status")
  walk_responses_caller_field v
  add_required v (codes "arguments") scope_tool_input encoded_json mutable_encoded_json

abbrev output_label : Bool → Bytes
output_label custom =
    if custom then codes "custom-tool-call output" else codes "function-call output"

-- `walkResponsesCallOutput`
unfoldable pub walk_responses_call_output : Node → Bool → Done
unfolding unique mark_opaque_string_fields walk_responses_caller_field field each elements
    walk_responses_input_content
walk_responses_call_output v custom = do
  unique v (words "type output call_id id caller status")
  mark_opaque_string_fields v (words "call_id id status")
  walk_responses_caller_field v
  output ← field v (codes "output")
  elim output [
    | none ↦ missing v (codes "output") (codes "string or content list")
    | some n ↦
        if is_string n
        then add n scope_tool_output tool_output json_or_plain
        else if is_array n
        then each (elements n)
            (λ block. walk_responses_input_content block scope_tool_output tool_output)
        else shape n (codes "string or array") (output_label custom)
  ]

-- `walkResponsesToolSearchCall`
unfoldable pub walk_responses_tool_search_call : Node → Done
unfolding unique mark_opaque_string_fields field walk_string_values
walk_responses_tool_search_call v = do
  unique v (words "type arguments id call_id status execution")
  mark_opaque_string_fields v (words "id call_id status execution")
  arguments ← field v (codes "arguments")
  elim arguments [
    | none ↦ missing v (codes "arguments") (codes "JSON value")
    | some n ↦ walk_string_values n scope_tool_input json_value
  ]

-- `walkResponsesReasoningParts`
unfoldable pub walk_responses_reasoning_parts : Node → Bytes → Bytes → Bool → Done
unfolding typed_field each elements unique mark_type bytes_eq add_required
walk_responses_reasoning_parts v key expected_type required =
    array_in v key required (not required) λ parts. each (elements parts) (λ part.
      if not (is_object part) then shape part (codes "object") (key ++ codes " element") else (do
        unique part (words "type text")
        part_type ← mark_type part
        if bytes_eq part_type expected_type
            then add_required part (codes "text") scope_assistant natural_text direct
            else unsupported_value part (codes "unknown reasoning replay content type ") part_type))

-- `walkResponsesReasoningReplay`
unfoldable pub walk_responses_reasoning_replay : Node → Done
unfolding unique mark_opaque_string_field walk_responses_reasoning_parts
walk_responses_reasoning_replay v = do
  unique v (words "type id summary encrypted_content content status")
  mark_opaque_string_field v (codes "id") true false
  mark_opaque_string_field v (codes "encrypted_content") false true
  mark_opaque_string_field v (codes "status") false true
  walk_responses_reasoning_parts v (codes "summary") (codes "summary_text") true
  walk_responses_reasoning_parts v (codes "content") (codes "reasoning_text") false

-- `walkResponsesCompactionReplay`
unfoldable pub walk_responses_compaction_replay : Node → Done
unfolding unique mark_opaque_string_field
walk_responses_compaction_replay v = do
  unique v (words "type encrypted_content id")
  mark_opaque_string_field v (codes "encrypted_content") true false
  mark_opaque_string_field v (codes "id") false true

-- `walkResponsesImageGenerationReplay`
unfoldable pub walk_responses_image_generation_replay : Node → Done
unfolding unique mark_opaque_string_field
walk_responses_image_generation_replay v = do
  unique v (words "type result id status")
  mark_opaque_string_field v (codes "result") true true
  mark_opaque_string_field v (codes "id") true false
  mark_opaque_string_field v (codes "status") true false

-- `walkResponsesCustomCall`
unfoldable pub walk_responses_custom_call : Node → Done
unfolding unique mark_opaque_string_fields walk_responses_caller_field add_required
walk_responses_custom_call v = do
  unique v (words "type input call_id id name namespace caller status")
  mark_opaque_string_fields v (words "call_id id name namespace status")
  walk_responses_caller_field v
  add_required v (codes "input") scope_tool_input encoded_json json_or_plain

-- `walkResponsesReferenceItem`
unfoldable pub walk_responses_reference_item : Node → Done
unfolding unique mark_required
walk_responses_reference_item v = unique v (words "type id") >> mark_required v (codes "id")

-- `walkResponsesProgramOutput`
unfoldable pub walk_responses_program_output : Node → Done
unfolding unique mark_opaque_string_fields add_required
walk_responses_program_output v = do
  unique v (words "type result id call_id status")
  mark_opaque_string_fields v (words "id call_id status")
  add_required v (codes "result") scope_tool_output tool_output json_or_plain

-- `walkResponsesCompatibilityText`
unfoldable pub walk_responses_compatibility_text : Node → Bytes → Done
unfolding unique bytes_eq add_required
walk_responses_compatibility_text v item_type = do
  unique v (words "type text")
  add_required v (codes "text")
      (if bytes_eq item_type (codes "output_text") then scope_assistant else scope_user)
      natural_text direct
