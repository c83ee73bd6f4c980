-- ===== src/Walker/OpenAi.antt =====
-- walker/openai.go: what is read of a chat completions request.
use cpa_plugin_privacyfilter.Base.{
  Bool, true, false, not, ◌&&◌, ◌||◌, Option, none, some, List, ◌++◌, if◌then◌else◌, Bytes,
  bytes_eq,
}
use cpa_plugin_privacyfilter.Base.Text.{words, codes}
use cpa_plugin_privacyfilter.Walker.{
  Scope, scope_system, scope_assistant, scope_tool_input, scope_tool_output, natural_text,
  encoded_json, tool_output, direct, mutable_encoded_json, json_or_plain, plain,
}
use cpa_plugin_privacyfilter.Walker.Tree.{
  Node, text_of, is_string, is_object, is_array, is_number, is_null, elements,
}
use cpa_plugin_privacyfilter.Walker.Steps.{
  Done, done, add, mark_opaque, unsupported, each, ◌>>=◌, ◌>>◌,
}
use cpa_plugin_privacyfilter.Walker.Fields.{
  shape, missing, field, with_field, with_value, unique, unique_object_keys, unsupported_value,
  mark_fields, mark_opaque_string_field, mark_opaque_string_fields, add_string_field,
  walk_string_object_field, string_field, required_string, required_object, required_array,
  scope_for_role,
}
use cpa_plugin_privacyfilter.Walker.Common.{walk_anthropic_cache_control, walk_typed_text_content}

-- `openAIRootControlFields`
abbrev pub open_ai_root_control_fields : List Bytes
open_ai_root_control_fields =
    words "audio frequency_penalty function_call logit_bias logprobs"
    ++ words "max_completion_tokens max_tokens metadata modalities moderation n"
    ++ words "parallel_tool_calls presence_penalty prompt_cache_key"
    ++ words "prompt_cache_options prompt_cache_retention reasoning_effort"
    ++ words "response_format safety_identifier seed service_tier stop store"
    ++ words "stream stream_options temperature tool_choice top_logprobs top_p"
    ++ words "user verbosity web_search_options"

-- `walkOpenAIFunction`
unfoldable pub walk_open_ai_function : Node → Done
unfolding unique mark_opaque_string_fields
walk_open_ai_function function = do
  unique function (words "arguments name id call_id")
  mark_opaque_string_fields function (words "name id call_id")
  arguments ← string_field function (codes "arguments")
  elim arguments [ none ↦ done | some a ↦ add a scope_tool_input encoded_json mutable_encoded_json ]

-- `walkOpenAIToolCall`, from the function on
abbrev walk_called_function : Node → Done
unfolding walk_open_ai_function
walk_called_function call = do
  function ← required_object call (codes "function")
  walk_open_ai_function function

-- `walkOpenAIToolCall`
unfoldable pub walk_open_ai_tool_call : Node → Done
unfolding unique mark_opaque_string_fields with_field walk_anthropic_cache_control bytes_eq
    walk_called_function
walk_open_ai_tool_call call =
    if not (is_object call) then shape call (codes "object") (codes "tool_calls element") else (do
      unique call (words "type function id name call_id extra_content cache_control")
      mark_opaque_string_fields call (words "id name call_id")
      with_field call (codes "extra_content") mark_opaque
      walk_anthropic_cache_control call
      call_type ← string_field call (codes "type")
      elim call_type [
        | none ↦ walk_called_function call
        | some t ↦
            mark_opaque t
            >> (if bytes_eq (text_of t) (codes "function")
                then walk_called_function call
                else unsupported_value call (codes "unknown tool call type ") (text_of t))
      ])

-- The `switch` of `walkOpenAIReasoningDetail`
unfoldable pub walk_reasoning_fields : Bytes → Node → Done
unfolding bytes_eq mark_opaque_string_fields mark_opaque_string_field
walk_reasoning_fields type_of detail =
    if bytes_eq type_of (codes "reasoning.text")
    then mark_opaque_string_fields detail (words "text signature")
    else if bytes_eq type_of (codes "reasoning.summary")
    then mark_opaque_string_field detail (codes "summary") true false
    else if bytes_eq type_of (codes "reasoning.encrypted")
    then mark_opaque_string_field detail (codes "data") true false
    else unsupported_value detail (codes "unknown reasoning_details type ") type_of

-- `walkOpenAIReasoningDetail`
unfoldable pub walk_open_ai_reasoning_detail : Node → Done
unfolding unique_object_keys mark_opaque_string_fields with_field walk_reasoning_fields
walk_open_ai_reasoning_detail detail =
    if not (is_object detail)
    then shape detail (codes "object") (codes "reasoning_details element")
    else (do
      unique_object_keys detail
      type_node ← required_string detail (codes "type")
      mark_opaque type_node
      mark_opaque_string_fields detail (words "id format")
      with_field detail (codes "index") (λ index.
          if is_number index || is_null index
          then done
          else shape index (codes "number or null") (codes "reasoning_details index"))
      walk_reasoning_fields (text_of type_node) detail)

-- The loop over the two keys of `walkOpenAIReasoningReplay`.
unfoldable pub walk_reasoning_text : Node → Bool → Bytes → Done
unfolding with_value
walk_reasoning_text message assistant key = with_value message key λ v.
    if not (is_string v)
    then shape v (codes "string or null") key
    else if assistant
    then mark_opaque v
    else unsupported v (plain (key ++ codes " outside an assistant message"))

-- `walkOpenAIReasoningReplay`
unfoldable pub walk_open_ai_reasoning_replay : Node → Bool → Done
unfolding each walk_reasoning_text with_value walk_open_ai_reasoning_detail elements
walk_open_ai_reasoning_replay message assistant = do
  each (words "reasoning reasoning_content") (walk_reasoning_text message assistant)
  with_value message (codes "reasoning_details") (λ details.
      if not (is_array details)
      then shape details (codes "array or null") (codes "reasoning_details")
      else if assistant
      then each (elements details) walk_open_ai_reasoning_detail
      else unsupported details (plain (codes "reasoning_details outside an assistant message")))

-- The parts of `walkOpenAIMessage`: the content of a message with a known role, `refusal`, `audio`,
-- `tool_calls` and `function_call`.
abbrev pub is_tool_output : Scope → Bool
is_tool_output scope_tool_output = true
is_tool_output _ = false

abbrev pub is_assistant : Scope → Bool
is_assistant scope_assistant = true
is_assistant _ = false

unfoldable pub walk_message_content : Node → Scope → Done
unfolding walk_typed_text_content
walk_message_content content scope =
    if is_tool_output scope && is_string content
    then add content scope_tool_output tool_output json_or_plain
    else walk_typed_text_content content scope

unfoldable pub walk_message_refusal : Node → Bool → Done
unfolding with_value
walk_message_refusal message assistant = with_value message (codes "refusal") λ refusal.
    if not (is_string refusal)
    then shape refusal (codes "string or null") (codes "refusal")
    else if assistant
    then add refusal scope_assistant natural_text direct
    else unsupported refusal (plain (codes "refusal text outside an assistant message"))

unfoldable pub walk_message_calls : Node → Done
unfolding with_value with_field mark_opaque_string_field each elements walk_open_ai_tool_call
    walk_open_ai_function
walk_message_calls message = do
  with_value message (codes "audio") (λ audio.
      if is_object audio
      then mark_opaque_string_field audio (codes "id") false true
      else shape audio (codes "object or null") (codes "audio"))
  with_field message (codes "tool_calls") (λ calls.
      if is_array calls
      then each (elements calls) walk_open_ai_tool_call
      else shape calls (codes "array") (codes "tool_calls"))
  with_field message (codes "function_call") (λ legacy.
      if is_object legacy
      then walk_open_ai_function legacy
      else shape legacy (codes "object") (codes "function_call"))

-- `walkOpenAIMessage`, from the role on: of a role that is unknown no content is read.
unfoldable pub walk_message_as : Option Scope → Node → Node → Done
unfolding walk_open_ai_reasoning_replay walk_message_refusal walk_message_calls with_field
    walk_message_content
walk_message_as none role_node message = do
  unsupported_value role_node (codes "unknown message role ") (text_of role_node)
  walk_open_ai_reasoning_replay message false
  with_field message (codes "content") (λ content. done)
  walk_message_refusal message false
  walk_message_calls message
walk_message_as (some scope) role_node message = do
  walk_open_ai_reasoning_replay message (is_assistant scope)
  with_field message (codes "content") (λ content. walk_message_content content scope)
  walk_message_refusal message (is_assistant scope)
  walk_message_calls message

-- `walkOpenAIMessage`
unfoldable pub walk_open_ai_message : Node → Done
unfolding unique mark_opaque_string_fields with_field walk_anthropic_cache_control walk_message_as
    scope_for_role
walk_open_ai_message message =
    if not (is_object message)
    then shape message (codes "object") (codes "messages element")
    else (do
      unique message (
          words "role content tool_calls function_call name id call_id tool_call_id"
          ++ words "refusal audio reasoning reasoning_content reasoning_details"
          ++ words "cache_control annotations")
      mark_opaque_string_fields message (words "name id call_id tool_call_id")
      walk_anthropic_cache_control message
      with_field message (codes "annotations") mark_opaque
      role_node ← required_string message (codes "role")
      mark_opaque role_node
      walk_message_as (scope_for_role (text_of role_node)) role_node message)

-- `walkOpenAIPrediction`
unfoldable pub walk_open_ai_prediction : Node → Done
unfolding unique field bytes_eq walk_typed_text_content
walk_open_ai_prediction prediction =
    if not (is_object prediction)
    then shape prediction (codes "object") (codes "prediction")
    else (do
      unique prediction (words "type content")
      type_node ← required_string prediction (codes "type")
      mark_opaque type_node
      if not (bytes_eq (text_of type_node) (codes "content"))
          then unsupported_value prediction (codes "unknown prediction type ") (text_of type_node)
          else (do
            content ← field prediction (codes "content")
            elim content [
              | none ↦ missing prediction (codes "content") (codes "string or array")
              | some c ↦ walk_typed_text_content c scope_assistant
            ]))

-- `walkOpenAIFunctionDefinition`
unfoldable pub walk_open_ai_function_definition : Node → Done
unfolding unique mark_opaque_string_field add_string_field walk_string_object_field
walk_open_ai_function_definition function = do
  unique function (words "name description parameters strict")
  mark_opaque_string_field function (codes "name") true false
  add_string_field function (codes "description") false true scope_system natural_text
  walk_string_object_field function (codes "parameters") false true scope_system

-- A turn of the loop over `tools` of `walkOpenAIToolDefinitions`.
unfoldable pub walk_open_ai_tool : Node → Done
unfolding unique bytes_eq walk_open_ai_function_definition walk_anthropic_cache_control
walk_open_ai_tool tool =
    if not (is_object tool)
    then unsupported tool (plain (codes "tool definition is not an object"))
    else (do
      unique tool (words "type function cache_control")
      type_node ← required_string tool (codes "type")
      mark_opaque type_node
      if not (bytes_eq (text_of type_node) (codes "function"))
          then unsupported_value tool (codes "unknown tool definition type ") (text_of type_node)
          else (do
            function ← required_object tool (codes "function")
            walk_open_ai_function_definition function
            walk_anthropic_cache_control tool))

-- `walkOpenAIToolDefinitions`
unfoldable pub walk_open_ai_tool_definitions : Node → Done
unfolding with_field each elements walk_open_ai_tool walk_open_ai_function_definition
walk_open_ai_tool_definitions root = do
  with_field root (codes "tools") (λ tools.
      if is_array tools
      then each (elements tools) walk_open_ai_tool
      else shape tools (codes "array") (codes "tools"))
  with_field root (codes "functions") (λ functions.
      if is_array functions
      then each (elements functions) (λ function.
        if is_object function
        then walk_open_ai_function_definition function
        else unsupported function (plain (codes "legacy function definition is not an object")))
      else shape functions (codes "array") (codes "functions"))

-- `walkOpenAI`
unfoldable pub walk_open_ai : Node → Done
unfolding unique mark_fields each elements walk_open_ai_message with_field walk_open_ai_prediction
    walk_open_ai_tool_definitions
walk_open_ai root = do
  unique root (words "messages prediction tools functions")
  mark_fields root open_ai_root_control_fields
  messages ← required_array root (codes "messages")
  each (elements messages) walk_open_ai_message
  with_field root (codes "prediction") walk_open_ai_prediction
  walk_open_ai_tool_definitions root
