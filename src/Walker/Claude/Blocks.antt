-- ===== src/Walker/Claude/Blocks.antt =====
-- The citations, media sources, documents and tool results of walker/claude.go.
use cpa_plugin_privacyfilter.Base.{
  true, false, not, none, some, [], ◌∷◌, if◌then◌else◌, Bytes, bytes_eq,
}
use cpa_plugin_privacyfilter.Base.Text.{words, codes}
use cpa_plugin_privacyfilter.Walker.{
  Scope, scope_tool_output, TargetKind, natural_text, json_value, tool_output, direct,
  json_or_plain, plain,
}
use cpa_plugin_privacyfilter.Walker.Tree.{
  Node, string_node, object_node, array_node, no_nodes, item, items_of, text_of, is_string,
  is_object, is_boolean, elements,
}
use cpa_plugin_privacyfilter.Walker.Steps.{
  Done, done, add, mark_opaque, unsupported, each, ◌>>=◌, ◌>>◌,
}
use cpa_plugin_privacyfilter.Walker.Fields.{
  shape, missing, field, with_value, unique, unsupported_value, mark_opaque_string_field,
  walk_string_values, string_field, required_string, required_object, required_array,
}
use cpa_plugin_privacyfilter.Walker.Common.{walk_anthropic_cache_control, walk_typed_text_block}

-- The `switch` of `walkClaudeCitations`
abbrev pub walk_citations_of : Node → Done
unfolding unique field
walk_citations_of (object_node path ms) = do
  unique (object_node path ms) (codes "enabled" ∷ [])
  enabled ← field (object_node path ms) (codes "enabled")
  elim enabled [
    | none ↦ missing (object_node path ms) (codes "enabled") (codes "boolean")
    | some b ↦ if is_boolean b then done else shape b (codes "boolean") (codes "citations enabled")
  ]
walk_citations_of (array_node path no_nodes) = done
walk_citations_of (array_node path (item v rest)) =
    unsupported (array_node path (item v rest))
      (plain (codes "citation replay metadata is integrity-coupled"))
walk_citations_of n = shape n (codes "object, array, or null") (codes "citations")

-- `walkClaudeCitations`
unfoldable pub walk_claude_citations : Node → Done
unfolding with_value walk_citations_of
walk_claude_citations n = with_value n (codes "citations") walk_citations_of

-- The cases of a source that is no text.
unfoldable pub walk_media_source : Bytes → Bytes → Node → Done
unfolding bytes_eq mark_opaque_string_field
walk_media_source unknown type_of source =
    if bytes_eq type_of (codes "base64")
    then (mark_opaque_string_field source (codes "media_type") true false
        >> mark_opaque_string_field source (codes "data") true false)
    else if bytes_eq type_of (codes "url")
    then mark_opaque_string_field source (codes "url") true false
    else if bytes_eq type_of (codes "file")
    then mark_opaque_string_field source (codes "file_id") true false
    else unsupported_value source unknown type_of

-- `walkClaudeOpaqueSource`
unfoldable pub walk_claude_opaque_source : Node → Done
unfolding unique walk_media_source
walk_claude_opaque_source block = do
  source ← required_object block (codes "source")
  unique source (words "type media_type data url file_id")
  type_node ← required_string source (codes "type")
  mark_opaque type_node
  walk_media_source (codes "unknown media source type ") (text_of type_node) source

abbrev pub document_kind : Scope → TargetKind
document_kind scope_tool_output = tool_output
document_kind _ = natural_text

-- The `switch` of `walkClaudeDocument`
unfoldable pub walk_document_source : Bytes → Node → Scope → Done
unfolding bytes_eq each walk_typed_text_block walk_media_source elements
walk_document_source type_of source scope =
    if bytes_eq type_of (codes "text")
    then (do
      data_node ← required_string source (codes "data")
      add data_node scope (document_kind scope) direct)
    else if bytes_eq type_of (codes "content")
    then (do
      content ← required_array source (codes "content")
      each (elements content) (λ block. walk_typed_text_block block scope))
    else walk_media_source (codes "unknown document source type ") type_of source

-- `walkClaudeDocument`
unfoldable pub walk_claude_document : Node → Scope → Done
unfolding walk_anthropic_cache_control walk_claude_citations each with_value unique
    walk_document_source
walk_claude_document block scope = do
  walk_anthropic_cache_control block
  walk_claude_citations block
  each (words "context title") (λ key. with_value block key (λ v.
      if is_string v
      then add v scope (document_kind scope) direct
      else shape v (codes "string or null") key))
  source ← required_object block (codes "source")
  unique source (words "type media_type data url file_id content")
  type_node ← required_string source (codes "type")
  mark_opaque type_node
  walk_document_source (text_of type_node) source scope

-- The text of a thinking block, and of a redacted one
unfoldable pub mark_thinking : Node → Done
unfolding mark_opaque_string_field
mark_thinking block =
    mark_opaque_string_field block (codes "thinking") true false
    >> mark_opaque_string_field block (codes "signature") true false

-- The inner `switch` of `walkClaudeToolResult`
unfoldable pub walk_result_block : Bytes → Node → Done
unfolding bytes_eq unique walk_anthropic_cache_control walk_claude_citations
    walk_claude_opaque_source walk_claude_document mark_thinking mark_opaque_string_field
walk_result_block type_of block =
    if bytes_eq type_of (codes "text")
    then (do
      unique block (words "type text cache_control citations")
      walk_anthropic_cache_control block
      walk_claude_citations block
      text ← required_string block (codes "text")
      add text scope_tool_output tool_output direct)
    else if bytes_eq type_of (codes "image")
    then walk_claude_opaque_source block
    else if bytes_eq type_of (codes "document")
    then walk_claude_document block scope_tool_output
    else if bytes_eq type_of (codes "thinking")
    then mark_thinking block
    else if bytes_eq type_of (codes "redacted_thinking")
    then mark_opaque_string_field block (codes "data") true false
    else unsupported_value block (codes "unknown tool-result content block type ") type_of

-- A turn of the loop of `walkClaudeToolResult`.
unfoldable pub walk_result_item : Node → Done
unfolding walk_string_values walk_result_block
walk_result_item v =
    if not (is_object v) then walk_string_values v scope_tool_output json_value else (do
      type_node ← string_field v (codes "type")
      elim type_node [
        | none ↦ walk_string_values v scope_tool_output json_value
        | some t ↦ mark_opaque t >> walk_result_block (text_of t) v
      ])

-- `walkClaudeToolResult`
unfoldable pub walk_claude_tool_result : Node → Done
unfolding each walk_result_item walk_string_values items_of
walk_claude_tool_result (string_node path token) =
    add (string_node path token) scope_tool_output tool_output json_or_plain
walk_claude_tool_result (array_node path items) = each (items_of items) walk_result_item
walk_claude_tool_result n = walk_string_values n scope_tool_output json_value
