-- ===== src/Walker/Claude.antt =====
-- walker/claude.go: what is read of a messages request. `walkClaudeCacheControl` is the
-- `walkAnthropicCacheControl` of Walker/Common, line for line.
pub mod Blocks
use cpa_plugin_privacyfilter.Base.{
  ◌++◌, true, false, not, none, some, List, [], ◌∷◌, if◌then◌else◌, Bytes, bytes_eq,
}
use cpa_plugin_privacyfilter.Base.Text.{words, codes}
use cpa_plugin_privacyfilter.Walker.{
  Scope, scope_system, scope_tool_input, natural_text, json_value, direct, plain,
}
use cpa_plugin_privacyfilter.Walker.Tree.{
  Node, string_node, array_node, items_of, text_of, is_object, is_array, elements,
}
use cpa_plugin_privacyfilter.Walker.Steps.{
  Done, done, add, mark_opaque, unsupported, each, ◌>>=◌, ◌>>◌,
}
use cpa_plugin_privacyfilter.Walker.Fields.{
  shape, missing, field, with_field, with_value, unique, unsupported_value, mark_fields,
  mark_opaque_string_field, mark_opaque_string_fields, add_string_field, walk_string_values,
  walk_string_object_field, string_field, required_string, required_array, scope_for_role,
}
use cpa_plugin_privacyfilter.Walker.Common.{walk_anthropic_cache_control}
use cpa_plugin_privacyfilter.Walker.Claude.Blocks.{
  walk_claude_citations, walk_claude_opaque_source, walk_claude_document, mark_thinking,
  walk_claude_tool_result,
}

-- `claudeRootControlFields`
abbrev pub claude_root_control_fields : List Bytes
claude_root_control_fields =
    words "model max_tokens inference_geo temperature top_k top_p container"
    ++ words "cache_control metadata output_config service_tier stop_sequences"
    ++ words "stream thinking tool_choice context_management mcp_servers"

-- A turn of the loop of `walkClaudeSystem`.
unfoldable pub walk_system_block : Node → Done
unfolding unique mark_opaque_string_fields walk_anthropic_cache_control walk_claude_citations
    bytes_eq
walk_system_block block =
    if not (is_object block)
    then unsupported block (plain (codes "system array element is not an object"))
    else (do
      unique block (words "type text id name signature cache_control citations")
      mark_opaque_string_fields block (words "id name signature")
      walk_anthropic_cache_control block
      walk_claude_citations block
      type_node ← string_field block (codes "type")
      elim type_node [
        | none ↦ unsupported block (plain (codes "system block has no type"))
        | some t ↦
            mark_opaque t
            >> (if bytes_eq (text_of t) (codes "text")
                then (do
                  text ← required_string block (codes "text")
                  add text scope_system natural_text direct)
                else unsupported_value block (codes "unknown system block type ") (text_of t))
      ])

-- `walkClaudeSystem`
unfoldable pub walk_claude_system : Node → Done
unfolding each walk_system_block items_of
walk_claude_system (string_node path token) =
    add (string_node path token) scope_system natural_text direct
walk_claude_system (array_node path items) = each (items_of items) walk_system_block
walk_claude_system n = shape n (codes "string or array") (codes "system")

-- The cases `tool_use` and `tool_result` of `walkClaudeContentBlock`
unfoldable pub walk_tool_use : Node → Done
unfolding mark_opaque_string_fields walk_anthropic_cache_control with_value field walk_string_values
walk_tool_use block = do
  mark_opaque_string_fields block (words "id name toolset_name")
  walk_anthropic_cache_control block
  with_value block (codes "caller")
      (λ caller. unsupported caller (plain (codes "tool-use caller metadata is not admitted")))
  input ← field block (codes "input")
  elim input [
    | none ↦ missing block (codes "input") (codes "JSON value")
    | some v ↦ walk_string_values v scope_tool_input json_value
  ]

unfoldable pub walk_tool_result_block : Node → Done
unfolding mark_opaque_string_fields walk_anthropic_cache_control field walk_claude_tool_result
walk_tool_result_block block = do
  mark_opaque_string_fields block (words "tool_use_id toolset_name")
  walk_anthropic_cache_control block
  content ← field block (codes "content")
  elim content [
    | none ↦ missing block (codes "content") (codes "string or array")
    | some v ↦ walk_claude_tool_result v
  ]

-- The `switch` of `walkClaudeContentBlock`
unfoldable pub walk_content_block_of : Bytes → Node → Scope → Done
unfolding bytes_eq mark_opaque_string_fields walk_anthropic_cache_control walk_claude_citations
    walk_tool_use walk_tool_result_block mark_thinking mark_opaque_string_field
    walk_claude_opaque_source walk_claude_document
walk_content_block_of block_type block scope =
    if bytes_eq block_type (codes "text")
    then (do
      mark_opaque_string_fields block (words "id name signature")
      walk_anthropic_cache_control block
      walk_claude_citations block
      text ← required_string block (codes "text")
      add text scope natural_text direct)
    else if bytes_eq block_type (codes "tool_use")
    then walk_tool_use block
    else if bytes_eq block_type (codes "tool_result")
    then walk_tool_result_block block
    else if bytes_eq block_type (codes "thinking")
    then mark_thinking block
    else if bytes_eq block_type (codes "redacted_thinking")
    then mark_opaque_string_field block (codes "data") true false
    else if bytes_eq block_type (codes "image")
    then (walk_anthropic_cache_control block >> walk_claude_opaque_source block)
    else if bytes_eq block_type (codes "document")
    then walk_claude_document block scope
    else unsupported_value block (codes "unknown content block type ") block_type

-- `walkClaudeContentBlock`
unfoldable pub walk_claude_content_block : Node → Scope → Done
unfolding unique walk_content_block_of
walk_claude_content_block block scope =
    if not (is_object block)
    then unsupported block (plain (codes "content array element is not an object"))
    else (do
      unique block (
          words "type text input content source context title thinking data"
          ++ words "signature id name tool_use_id toolset_name cache_control citations"
          ++ words "caller is_error")
      type_node ← string_field block (codes "type")
      elim type_node [
        | none ↦ unsupported block (plain (codes "content block has no type"))
        | some t ↦ mark_opaque t >> walk_content_block_of (text_of t) block scope
      ])

-- The content of `walkClaudeMessage`
unfoldable pub walk_claude_content : Node → Scope → Done
unfolding each walk_claude_content_block items_of
walk_claude_content (string_node path token) scope =
    add (string_node path token) scope natural_text direct
walk_claude_content (array_node path items) scope =
    each (items_of items) (λ block. walk_claude_content_block block scope)
walk_claude_content n scope = shape n (codes "string or array") (codes "message content")

-- `walkClaudeMessage`
unfoldable pub walk_claude_message : Node → Done
unfolding unique mark_opaque_string_fields scope_for_role field walk_claude_content
walk_claude_message message =
    if not (is_object message)
    then shape message (codes "object") (codes "messages element")
    else (do
      unique message (words "role content id name signature")
      mark_opaque_string_fields message (words "id name signature")
      role_node ← required_string message (codes "role")
      mark_opaque role_node
      elim (scope_for_role (text_of role_node)) [
        | none ↦ unsupported_value role_node (codes "unknown message role ") (text_of role_node)
        | some scope ↦ (do
          content ← field message (codes "content")
          elim content [
            | none ↦ missing message (codes "content") (codes "string or array")
            | some v ↦ walk_claude_content v scope
          ])
      ])

-- A turn of the loop of `walkClaudeToolDefinitions`: the type, the schema where there is none, and the
-- rest.
unfoldable pub walk_claude_tool : Node → Done
unfolding unique mark_opaque_string_field add_string_field walk_string_object_field
    walk_anthropic_cache_control
walk_claude_tool tool =
    if not (is_object tool)
    then unsupported tool (plain (codes "tool definition is not an object"))
    else (do
      unique tool
          (words "type name description input_schema cache_control strict" ++ words "defer_loading")
      type_node ← string_field tool (codes "type")
      elim type_node [ none ↦ done | some t ↦ mark_opaque t ]
      mark_opaque_string_field tool (codes "name") true false
      add_string_field tool (codes "description") false true scope_system natural_text
      walk_string_object_field tool (codes "input_schema")
          (elim type_node [ none ↦ true | some t ↦ false ]) false scope_system
      walk_anthropic_cache_control tool)

-- `walkClaudeToolDefinitions`
unfoldable pub walk_claude_tool_definitions : Node → Done
unfolding with_field each elements walk_claude_tool
walk_claude_tool_definitions root = with_field root (codes "tools") λ tools.
    if is_array tools
    then each (elements tools) walk_claude_tool
    else shape tools (codes "array") (codes "tools")

-- `walkClaude`
unfoldable pub walk_claude : Node → Done
unfolding unique mark_fields with_field walk_claude_system each elements walk_claude_message
    walk_claude_tool_definitions
walk_claude root = do
  unique root (words "system messages tools")
  mark_fields root claude_root_control_fields
  with_field root (codes "system") walk_claude_system
  messages ← required_array root (codes "messages")
  each (elements messages) walk_claude_message
  walk_claude_tool_definitions root
