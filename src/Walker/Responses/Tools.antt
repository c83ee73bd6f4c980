-- ===== src/Walker/Responses/Tools.antt =====
-- The tool definitions of walker/responses.go.
use cpa_plugin_privacyfilter.Base.{◌++◌, ℕ, zero, suc, true, false, if◌then◌else◌, Bytes, bytes_eq}
use cpa_plugin_privacyfilter.Base.Text.{words, codes, any_of}
use cpa_plugin_privacyfilter.Walker.{scope_system, natural_text, code_text, plain, walk_internal}
use cpa_plugin_privacyfilter.Walker.Tree.{Node, is_array, elements, depth_of}
use cpa_plugin_privacyfilter.Walker.Steps.{refuse, Done, unsupported, each, ◌>>=◌, ◌>>◌}
use cpa_plugin_privacyfilter.Walker.Fields.{
  shape, unique, unsupported_value, typed_field, mark_opaque_string_field,
  mark_opaque_string_fields, mark_opaque_string_array_field, add_string_field,
  walk_string_object_field, each_object, mark_type,
}
use cpa_plugin_privacyfilter.Walker.Responses.Config.{object_in, array_in, number_in, boolean_in}

-- `walkResponsesFunctionTool`
unfoldable pub walk_responses_function_tool : Node → Done
unfolding unique mark_opaque_string_field add_string_field walk_string_object_field
    mark_opaque_string_array_field
walk_responses_function_tool tool = do
  unique tool (
      words "type name description parameters strict allowed_callers"
      ++ words "defer_loading output_schema")
  mark_opaque_string_field tool (codes "name") true false
  add_string_field tool (codes "description") false true scope_system natural_text
  walk_string_object_field tool (codes "parameters") true false scope_system
  mark_opaque_string_array_field tool (codes "allowed_callers") false true
  walk_string_object_field tool (codes "output_schema") false true scope_system

-- `walkResponsesCustomTool`
unfoldable pub walk_responses_custom_tool : Node → Done
unfolding unique mark_opaque_string_field add_string_field typed_field
    mark_opaque_string_array_field
walk_responses_custom_tool tool = do
  unique tool (words "type name description defer_loading format allowed_callers")
  mark_opaque_string_field tool (codes "name") true false
  add_string_field tool (codes "description") false true scope_system natural_text
  boolean_in tool (codes "defer_loading")
  mark_opaque_string_array_field tool (codes "allowed_callers") false true
  object_in tool (codes "format") false true (λ format. do
    unique format (words "type syntax definition")
    mark_opaque_string_field format (codes "type") true false
    mark_opaque_string_field format (codes "syntax") false true
    add_string_field format (codes "definition") false true scope_system code_text)

-- `walkResponsesNamespaceTool`; its tools are walked by the function that is being defined.
unfoldable pub walk_responses_namespace_tool : (Node → Done) → Node → Done
unfolding unique mark_opaque_string_field add_string_field typed_field
walk_responses_namespace_tool walk_tools tool = do
  unique tool (words "type name description tools")
  mark_opaque_string_field tool (codes "name") true false
  add_string_field tool (codes "description") false true scope_system natural_text
  array_in tool (codes "tools") true false walk_tools

-- `walkResponsesToolSearchDefinition`
unfoldable pub walk_responses_tool_search_definition : Node → Done
unfolding unique mark_opaque_string_field add_string_field walk_string_object_field
walk_responses_tool_search_definition tool = do
  unique tool (words "type execution description parameters")
  mark_opaque_string_field tool (codes "execution") true false
  add_string_field tool (codes "description") true false scope_system natural_text
  walk_string_object_field tool (codes "parameters") true false scope_system

-- `walkResponsesWebSearchDefinition`
unfoldable pub walk_responses_web_search_definition : Node → Done
unfolding unique typed_field each mark_opaque_string_array_field mark_opaque_string_field
    mark_opaque_string_fields
walk_responses_web_search_definition tool = do
  unique tool (
      words "type external_web_access indexed_web_access filters user_location"
      ++ words "search_context_size search_content_types return_token_budget")
  boolean_in tool (codes "external_web_access")
  boolean_in tool (codes "indexed_web_access")
  object_in tool (codes "filters") false true (λ filters. do
    unique filters (words "allowed_domains blocked_domains")
    each (words "allowed_domains blocked_domains")
        (λ key. mark_opaque_string_array_field filters key false true))
  object_in tool (codes "user_location") false true (λ location. do
    unique location (words "type country region city timezone")
    mark_opaque_string_field location (codes "type") true false
    mark_opaque_string_fields location (words "country region city timezone"))
  mark_opaque_string_field tool (codes "search_context_size") false true
  mark_opaque_string_array_field tool (codes "search_content_types") false true
  number_in tool (codes "return_token_budget") false true

-- The `switch` of `walkResponsesRootTools`
unfoldable pub walk_tool_of : (Node → Done) → Bytes → Node → Done
unfolding any_of bytes_eq walk_responses_function_tool walk_responses_custom_tool
    walk_responses_namespace_tool walk_responses_tool_search_definition
    walk_responses_web_search_definition
walk_tool_of walk_tools tool_type tool =
    if bytes_eq tool_type (codes "function")
    then walk_responses_function_tool tool
    else if bytes_eq tool_type (codes "custom")
    then walk_responses_custom_tool tool
    else if bytes_eq tool_type (codes "namespace")
    then walk_responses_namespace_tool walk_tools tool
    else if bytes_eq tool_type (codes "tool_search")
    then walk_responses_tool_search_definition tool
    else if any_of (bytes_eq tool_type) (
        words "web_search web_search_2025_08_26 web_search_preview"
        ++ words "web_search_preview_2025_03_11")
    then walk_responses_web_search_definition tool
    else if any_of (bytes_eq tool_type) (
        words "file_search computer computer_use_preview mcp code_interpreter"
        ++ words "programmatic_tool_calling image_generation local_shell shell"
        ++ words "apply_patch")
    then unsupported tool (plain (codes "root tool definition variant is not admitted"))
    else unsupported_value tool (codes "unknown root tool definition type ") tool_type

-- The body of `walkResponsesRootTools`.
unfoldable pub walk_tools_with : (Node → Done) → Node → Done
unfolding each_object elements mark_type walk_tool_of
walk_tools_with walk_tools tools =
    if is_array tools
    then each_object (elements tools) (codes "tool definition is not an object")
        (λ tool. do tool_type ← mark_type tool; walk_tool_of walk_tools tool_type tool)
    else shape tools (codes "array") (codes "tools")

-- `walkResponsesRootTools`, on fuel: the tools of a namespace are deeper in the tree.
unfoldable pub walk_responses_root_tools : ℕ → Node → Done
unfolding walk_tools_with
walk_responses_root_tools zero tools = refuse walk_internal
walk_responses_root_tools (suc fuel) tools = walk_tools_with (walk_responses_root_tools fuel) tools

-- The same, with the fuel of the tree.
abbrev pub walk_tools_of : Node → Done
unfolding walk_responses_root_tools depth_of
walk_tools_of tools = walk_responses_root_tools (depth_of tools) tools

-- `walkResponsesAdditionalTools`
unfoldable pub walk_responses_additional_tools : Node → Done
unfolding unique mark_opaque_string_field typed_field walk_responses_root_tools depth_of
walk_responses_additional_tools v = do
  unique v (words "type id role tools")
  mark_opaque_string_field v (codes "id") false true
  mark_opaque_string_field v (codes "role") true false
  array_in v (codes "tools") true false walk_tools_of
