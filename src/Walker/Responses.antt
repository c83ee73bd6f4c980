-- ===== src/Walker/Responses.antt =====
-- walker/responses.go: what is read of a Responses request.
pub mod Config
pub mod Tools
pub mod Content
pub mod Searches
pub mod Calls
pub mod Shells
use cpa_plugin_privacyfilter.Base.{
  ◌++◌, true, false, not, Option, none, some, List, [], ◌∷◌, if◌then◌else◌, Bytes, bytes_eq,
}
use cpa_plugin_privacyfilter.Base.Text.{words, codes, any_of}
use cpa_plugin_privacyfilter.Walker.{scope_system, scope_user, natural_text, direct, plain}
use cpa_plugin_privacyfilter.Walker.Tree.{
  Node, string_node, array_node, items_of, text_of, is_string, is_object, depth_of,
}
use cpa_plugin_privacyfilter.Walker.Steps.{
  Walk, Done, done, add, mark_opaque, unsupported, each, ◌>>=◌, ◌>>◌,
}
use cpa_plugin_privacyfilter.Walker.Fields.{
  shape, field, with_field, with_value, unique, unsupported_value, typed_field,
  mark_opaque_string_fields, mark_opaque_string_array_field, string_field, string_or_null,
}
use cpa_plugin_privacyfilter.Walker.Responses.Config.{
  object_in, number_in, boolean_in, walk_responses_root_controls, walk_responses_root_references,
  walk_responses_untrusted_metadata, walk_responses_client_metadata,
}
use cpa_plugin_privacyfilter.Walker.Responses.Tools.{
  walk_responses_root_tools, walk_tools_of, walk_responses_additional_tools,
}
use cpa_plugin_privacyfilter.Walker.Responses.Content.{
  walk_responses_message, walk_responses_prompt,
}
use cpa_plugin_privacyfilter.Walker.Responses.Searches.{
  walk_responses_file_search, walk_responses_computer_call, walk_responses_computer_output,
  walk_responses_web_search,
}
use cpa_plugin_privacyfilter.Walker.Responses.Calls.{
  walk_responses_function_call, walk_responses_call_output, walk_responses_tool_search_call,
  walk_responses_reasoning_replay, walk_responses_compaction_replay,
  walk_responses_image_generation_replay, walk_responses_custom_call, walk_responses_reference_item,
  walk_responses_program_output, walk_responses_compatibility_text,
}
use cpa_plugin_privacyfilter.Walker.Responses.Shells.{
  walk_responses_code_interpreter, walk_responses_local_shell, walk_responses_local_shell_output,
  walk_responses_shell_call, walk_responses_shell_output, walk_responses_apply_patch,
  walk_responses_apply_patch_output, walk_responses_mcp_list_tools,
  walk_responses_mcp_approval_request, walk_responses_mcp_approval_response,
  walk_responses_mcp_call,
}

-- `walkResponsesInternalItemMetadata`
unfoldable pub walk_responses_internal_item_metadata : Node → Done
unfolding typed_field unique mark_opaque_string_fields mark_opaque_string_array_field with_value
    walk_responses_untrusted_metadata
walk_responses_internal_item_metadata v =
    object_in v (codes "internal_chat_message_metadata_passthrough") false true λ metadata. do
      unique metadata (
          words "turn_id create_time content_item_kinds cell_id executed_tool_calls"
          ++ words "tool_calls_complete")
      mark_opaque_string_fields metadata (words "turn_id cell_id")
      mark_opaque_string_array_field metadata (codes "content_item_kinds") false true
      number_in metadata (codes "create_time") false true
      boolean_in metadata (codes "tool_calls_complete")
      with_value metadata (codes "executed_tool_calls") walk_responses_untrusted_metadata

-- The items of `walkResponsesItem` that are not admitted, or need no walk of their own.
unfoldable pub walk_plain_item : Bytes → Node → Done
unfolding bytes_eq any_of unique walk_responses_compatibility_text
walk_plain_item item_type v =
    if bytes_eq item_type (codes "tool_search_output")
    then unsupported v (plain (codes "tool-search output definitions are not admitted"))
    else if bytes_eq item_type (codes "compaction_trigger")
    then unique v (codes "type" ∷ [])
    else if bytes_eq item_type (codes "program")
    then unsupported v (plain (codes "program code is integrity-coupled to its fingerprint"))
    else if any_of (bytes_eq item_type) (words "text input_text output_text")
    then walk_responses_compatibility_text v item_type
    else if bytes_eq item_type (codes "thought")
    then unsupported v (plain (codes "legacy thought item semantics are not admitted"))
    else unsupported_value v (codes "unknown input item type ") item_type

-- The other cases of its `switch`, with the walk of each.
abbrev pub item_walks : List (Bytes × (Node → Done))
unfolding walk_responses_message walk_responses_file_search walk_responses_computer_call
    walk_responses_computer_output walk_responses_web_search walk_responses_function_call
    walk_responses_call_output walk_responses_tool_search_call walk_responses_additional_tools
    walk_responses_reasoning_replay walk_responses_compaction_replay
    walk_responses_image_generation_replay walk_responses_code_interpreter
    walk_responses_local_shell walk_responses_local_shell_output walk_responses_shell_call
    walk_responses_shell_output walk_responses_apply_patch walk_responses_apply_patch_output
    walk_responses_mcp_list_tools walk_responses_mcp_approval_request
    walk_responses_mcp_approval_response walk_responses_mcp_call walk_responses_custom_call
    walk_responses_reference_item walk_responses_program_output
item_walks =
    (codes "message", walk_responses_message)
    ∷ (codes "file_search_call", walk_responses_file_search)
    ∷ (codes "computer_call", walk_responses_computer_call)
    ∷ (codes "computer_call_output", walk_responses_computer_output)
    ∷ (codes "web_search_call", walk_responses_web_search)
    ∷ (codes "function_call", walk_responses_function_call)
    ∷ (codes "function_call_output", λ v. walk_responses_call_output v false)
    ∷ (codes "tool_search_call", walk_responses_tool_search_call)
    ∷ (codes "additional_tools", walk_responses_additional_tools)
    ∷ (codes "reasoning", walk_responses_reasoning_replay)
    ∷ (codes "compaction", walk_responses_compaction_replay)
    ∷ (codes "image_generation_call", walk_responses_image_generation_replay)
    ∷ (codes "code_interpreter_call", walk_responses_code_interpreter)
    ∷ (codes "local_shell_call", walk_responses_local_shell)
    ∷ (codes "local_shell_call_output", walk_responses_local_shell_output)
    ∷ (codes "shell_call", walk_responses_shell_call)
    ∷ (codes "shell_call_output", walk_responses_shell_output)
    ∷ (codes "apply_patch_call", walk_responses_apply_patch)
    ∷ (codes "apply_patch_call_output", walk_responses_apply_patch_output)
    ∷ (codes "mcp_list_tools", walk_responses_mcp_list_tools)
    ∷ (codes "mcp_approval_request", walk_responses_mcp_approval_request)
    ∷ (codes "mcp_approval_response", walk_responses_mcp_approval_response)
    ∷ (codes "mcp_call", walk_responses_mcp_call)
    ∷ (codes "custom_tool_call_output", λ v. walk_responses_call_output v true)
    ∷ (codes "custom_tool_call", walk_responses_custom_call)
    ∷ (codes "item_reference", walk_responses_reference_item)
    ∷ (codes "program_output", walk_responses_program_output)
    ∷ []

-- The first case that matches, or what is left.
unfoldable pub dispatch : Bytes → List (Bytes × (Node → Done)) → Node → Done
unfolding bytes_eq walk_plain_item
dispatch item_type [] v = walk_plain_item item_type v
dispatch item_type ((name, walk) ∷ rest) v =
    if bytes_eq item_type name then walk v else dispatch item_type rest v

-- `walkResponsesItem`
unfoldable pub walk_responses_item : Node → Done
unfolding walk_responses_internal_item_metadata field walk_responses_message dispatch item_walks
walk_responses_item v =
    if not (is_object v)
    then unsupported v (plain (codes "input array element is not an object"))
    else (do
      walk_responses_internal_item_metadata v
      type_node ← string_field v (codes "type")
      elim type_node [
        | some t ↦ mark_opaque t >> dispatch (text_of t) item_walks v
        | none ↦ (do
          content ← field v (codes "content")
          elim content [
            | none ↦ unsupported v (plain (codes "input item has no type"))
            | some c ↦ walk_responses_message v
          ])
      ])

-- `walkResponsesInput`
unfoldable pub walk_responses_input : Node → Done
unfolding each items_of walk_responses_item
walk_responses_input (string_node path token) =
    add (string_node path token) scope_user natural_text direct
walk_responses_input (array_node path items) = each (items_of items) walk_responses_item
walk_responses_input n = shape n (codes "string or array") (codes "input")

-- `walkResponses`
unfoldable pub walk_responses : Node → Done
unfolding unique walk_responses_root_controls walk_responses_root_references string_or_null
    with_value walk_responses_input with_field walk_responses_prompt walk_responses_client_metadata
    walk_responses_root_tools depth_of
walk_responses root = do
  unique root (
      words "instructions input prompt context_management conversation tools"
      ++ words "client_metadata")
  walk_responses_root_controls root
  walk_responses_root_references root
  string_or_null root (codes "instructions") (codes "instructions")
      (λ v. add v scope_system natural_text direct)
  with_value root (codes "input") walk_responses_input
  with_field root (codes "prompt") walk_responses_prompt
  walk_responses_client_metadata root
  with_field root (codes "tools") walk_tools_of
