-- ===== src/Walker/Responses/Config.antt =====
-- The controls of a Responses request: `walkResponsesRootControls`, `walkResponsesRootReferences` and
-- `walkResponsesClientMetadata` of walker/responses.go. `markResponsesOpaqueStringFields` is the loop
-- `mark_opaque_string_fields`.
use cpa_plugin_privacyfilter.Base.{◌++◌, Bool, true, false, [], ◌∷◌, if◌then◌else◌, Bytes, bytes_eq}
use cpa_plugin_privacyfilter.Base.Text.{words, codes, any_of}
use cpa_plugin_privacyfilter.Walker.{
  scope_system, scope_tool_input, natural_text, encoded_json, json_value, mutable_encoded_json,
  json_or_plain,
}
use cpa_plugin_privacyfilter.Walker.Tree.{
  Node, string_node, object_node, array_node, Members, no_members, member, Nodes, no_nodes, item,
  is_string, is_object, is_array, is_number, is_boolean, is_null, elements, members_of,
}
use cpa_plugin_privacyfilter.Walker.Steps.{Done, done, add, mark_opaque, each, ◌>>=◌, ◌>>◌}
use cpa_plugin_privacyfilter.Walker.Fields.{
  shape, with_field, with_value, unique, unique_object_keys, unsupported_value, typed_field,
  mark_opaque_string_field, mark_opaque_string_fields, mark_opaque_string_array_field,
  add_string_field, walk_string_object_field, each_object, mark_required, mark_type,
}

-- `responsesFieldOfKind`, and what is done with the field if there is one.
abbrev pub object_in : Node → Bytes → Bool → Bool → (Node → Done) → Done
unfolding typed_field
object_in n key required nullable f =
    typed_field (codes "object") is_object n key required nullable f

abbrev pub array_in : Node → Bytes → Bool → Bool → (Node → Done) → Done
unfolding typed_field
array_in n key required nullable f = typed_field (codes "array") is_array n key required nullable f

abbrev pub number_in : Node → Bytes → Bool → Bool → Done
unfolding typed_field
number_in n key required nullable =
    typed_field (codes "number") is_number n key required nullable (λ v. done)

abbrev pub boolean_in : Node → Bytes → Done
unfolding typed_field
boolean_in n key = typed_field (codes "boolean") is_boolean n key false true (λ v. done)

-- `walkResponsesModeration`
unfoldable pub walk_responses_moderation : Node → Done
unfolding typed_field unique mark_opaque_string_field each
walk_responses_moderation root = object_in root (codes "moderation") false true λ moderation. do
  unique moderation (words "model policy")
  mark_opaque_string_field moderation (codes "model") true false
  object_in moderation (codes "policy") false true (λ policy. do
    unique policy (words "input output")
    each (words "input output") (λ key. object_in policy key false true (λ direction.
        unique direction (codes "mode" ∷ [])
        >> mark_opaque_string_field direction (codes "mode") true false)))

-- `walkResponsesPromptCacheOptions`
unfoldable pub walk_responses_prompt_cache_options : Node → Done
unfolding typed_field unique mark_opaque_string_fields
walk_responses_prompt_cache_options root =
    object_in root (codes "prompt_cache_options") false true λ options.
      unique options (words "mode ttl") >> mark_opaque_string_fields options (words "mode ttl")

-- `walkResponsesStreamOptions`
unfoldable pub walk_responses_stream_options : Node → Done
unfolding typed_field unique
walk_responses_stream_options root = object_in root (codes "stream_options") false true λ options.
    unique options (codes "include_obfuscation" ∷ [])
    >> boolean_in options (codes "include_obfuscation")

-- `walkResponsesReasoningConfig`
unfoldable pub walk_responses_reasoning_config : Node → Done
unfolding typed_field unique mark_opaque_string_fields
walk_responses_reasoning_config root = object_in root (codes "reasoning") false true λ reasoning.
    unique reasoning (words "context effort generate_summary summary mode")
    >> mark_opaque_string_fields reasoning (words "context effort generate_summary summary mode")

-- The `switch` of `walkResponsesTextConfig`
unfoldable pub walk_text_format : Bytes → Node → Done
unfolding any_of bytes_eq unique mark_opaque_string_field add_string_field walk_string_object_field
    typed_field
walk_text_format format_type format =
    if any_of (bytes_eq format_type) (words "text json_object")
    then unique format (codes "type" ∷ [])
    else if bytes_eq format_type (codes "json_schema")
    then (do
      unique format (words "type name schema strict description")
      mark_opaque_string_field format (codes "name") true false
      add_string_field format (codes "description") false true scope_system natural_text
      walk_string_object_field format (codes "schema") true false scope_system
      boolean_in format (codes "strict"))
    else unsupported_value format (codes "unknown response text format type ") format_type

-- `walkResponsesTextConfig`
unfoldable pub walk_responses_text_config : Node → Done
unfolding typed_field unique mark_opaque_string_field mark_type walk_text_format
walk_responses_text_config root = object_in root (codes "text") false true λ text. do
  unique text (words "verbosity format")
  mark_opaque_string_field text (codes "verbosity") false true
  object_in text (codes "format") false true
      (λ format. do format_type ← mark_type format; walk_text_format format_type format)

-- The `switch` of `walkResponsesToolChoice`
unfoldable pub walk_choice_of : Bytes → Node → Done
unfolding any_of bytes_eq unique mark_opaque_string_field typed_field each elements
walk_choice_of choice_type choice =
    if bytes_eq choice_type (codes "allowed_tools")
    then (do
      unique choice (words "type mode tools")
      mark_opaque_string_field choice (codes "mode") true false
      array_in choice (codes "tools") true false (λ tools. each (elements tools) (λ tool.
          if is_object tool
          then mark_opaque tool
          else shape tool (codes "object") (codes "allowed tool definition"))))
    else if any_of (bytes_eq choice_type) (words "function custom")
    then (unique choice (words "type name")
        >> mark_opaque_string_field choice (codes "name") true false)
    else if bytes_eq choice_type (codes "mcp")
    then (do
      unique choice (words "type server_label name")
      mark_opaque_string_field choice (codes "server_label") true false
      mark_opaque_string_field choice (codes "name") false true)
    else if any_of (bytes_eq choice_type) (
        words "file_search web_search_preview computer computer_use_preview"
        ++ words "computer_use web_search_preview_2025_03_11 image_generation"
        ++ words "code_interpreter programmatic_tool_calling apply_patch shell")
    then unique choice (codes "type" ∷ [])
    else unsupported_value choice (codes "unknown tool-choice type ") choice_type

-- `walkResponsesToolChoice`
unfoldable pub walk_responses_tool_choice : Node → Done
unfolding with_value mark_type walk_choice_of
walk_responses_tool_choice root = with_value root (codes "tool_choice") λ choice.
    if is_string choice
    then mark_opaque choice
    else if is_object choice
    then (do choice_type ← mark_type choice; walk_choice_of choice_type choice)
    else shape choice (codes "string, object, or null") (codes "tool_choice")

-- `walkResponsesRootControls`: the fields of a kind, in the order of its table, and the rest.
unfoldable pub walk_root_kinds : Node → Done
unfolding typed_field
walk_root_kinds root = do
  boolean_in root (codes "background")
  number_in root (codes "max_output_tokens") false true
  number_in root (codes "max_tool_calls") false true
  boolean_in root (codes "parallel_tool_calls")
  boolean_in root (codes "store")
  number_in root (codes "temperature") false true
  number_in root (codes "top_logprobs") false true
  number_in root (codes "top_p") false true
  boolean_in root (codes "stream")

unfoldable pub walk_responses_root_controls : Node → Done
unfolding unique mark_opaque_string_fields walk_root_kinds mark_opaque_string_array_field
    typed_field walk_responses_moderation walk_responses_prompt_cache_options
    walk_responses_stream_options walk_responses_reasoning_config walk_responses_text_config
    walk_responses_tool_choice
walk_responses_root_controls root = do
  unique root (
      words "model background max_output_tokens max_tool_calls"
      ++ words "parallel_tool_calls previous_response_id store temperature"
      ++ words "top_logprobs top_p prompt_cache_key safety_identifier user include"
      ++ words "metadata moderation prompt_cache_retention service_tier stream"
      ++ words "stream_options truncation prompt_cache_options reasoning text"
      ++ words "tool_choice")
  mark_opaque_string_fields root (
      words "model previous_response_id prompt_cache_key safety_identifier user"
      ++ words "prompt_cache_retention service_tier truncation")
  walk_root_kinds root
  mark_opaque_string_array_field root (codes "include") false true
  object_in root (codes "metadata") false true mark_opaque
  walk_responses_moderation root
  walk_responses_prompt_cache_options root
  walk_responses_stream_options root
  walk_responses_reasoning_config root
  walk_responses_text_config root
  walk_responses_tool_choice root

-- The conversation of `walkResponsesRootReferences`
abbrev pub walk_conversation : Node → Done
unfolding unique mark_required
walk_conversation conversation =
    if is_string conversation
    then mark_opaque conversation
    else if is_object conversation
    then (unique conversation (codes "id" ∷ []) >> mark_required conversation (codes "id"))
    else shape conversation (codes "string or object") (codes "conversation")

-- `walkResponsesRootReferences`
unfoldable pub walk_responses_root_references : Node → Done
unfolding with_field each_object elements unique mark_type bytes_eq with_value mark_required
walk_responses_root_references root = do
  with_field root (codes "context_management") (λ management.
      if is_array management
      then each_object (elements management) (codes "context_management element is not an object")
          (λ entry. do
            unique entry (words "type compact_threshold")
            entry_type ← mark_type entry
            if bytes_eq entry_type (codes "compaction")
                then done
                else unsupported_value entry (codes "unknown context-management type ") entry_type)
      else shape management (codes "array") (codes "context_management"))
  with_value root (codes "conversation") walk_conversation

-- `walkResponsesUntrustedMetadata`
unfoldable mutual
  unfolding unique_object_keys

  pub walk_responses_untrusted_metadata : Node → Done
  walk_responses_untrusted_metadata (string_node path token) =
      add (string_node path token) scope_tool_input json_value json_or_plain
  walk_responses_untrusted_metadata (object_node path ms) =
      unique_object_keys (object_node path ms) >> walk_untrusted_members ms
  walk_responses_untrusted_metadata (array_node path items) = walk_untrusted_items items
  walk_responses_untrusted_metadata n = done

  pub walk_untrusted_members : Members → Done
  walk_untrusted_members no_members = done
  walk_untrusted_members (member key n rest) =
      walk_responses_untrusted_metadata n >> walk_untrusted_members rest

  pub walk_untrusted_items : Nodes → Done
  walk_untrusted_items no_nodes = done
  walk_untrusted_items (item n rest) =
      walk_responses_untrusted_metadata n >> walk_untrusted_items rest

-- `isResponsesClientMetadataControl`
unfoldable pub is_responses_client_metadata_control : Bytes → Bool
unfolding any_of bytes_eq
is_responses_client_metadata_control key = any_of (bytes_eq key) (
    words "x-codex-installation-id session_id thread_id x-codex-window-id"
    ++ words "turn_id x-openai-subagent x-codex-parent-thread-id parent_turn_id"
    ++ words "root_turn_id x-codex-turn-state x-codex-responses-lite"
    ++ words "x-codex-ws-stream-request-start-ms traceparent tracestate")

-- A turn of the loop of `walkResponsesClientMetadata`.
unfoldable pub walk_client_entry : Bytes → Node → Done
unfolding bytes_eq is_responses_client_metadata_control walk_responses_untrusted_metadata
walk_client_entry key v =
    if bytes_eq key (codes "x-codex-turn-metadata")
    then (if is_null v
        then done
        else if is_string v
        then add v scope_tool_input encoded_json mutable_encoded_json
        else shape v (codes "string or null") (codes "x-codex-turn-metadata"))
    else if is_responses_client_metadata_control key
    then (if is_null v
        then done
        else if is_string v
        then mark_opaque v
        else shape v (codes "string or null") key)
    else walk_responses_untrusted_metadata v

unfoldable pub walk_client_entries : Members → Done
unfolding walk_client_entry
walk_client_entries no_members = done
walk_client_entries (member key n rest) = walk_client_entry key n >> walk_client_entries rest

-- `walkResponsesClientMetadata`
unfoldable pub walk_responses_client_metadata : Node → Done
unfolding typed_field unique_object_keys walk_client_entries
walk_responses_client_metadata root =
    object_in root (codes "client_metadata") false true
      λ metadata. unique_object_keys metadata >> walk_client_entries (members_of metadata)
