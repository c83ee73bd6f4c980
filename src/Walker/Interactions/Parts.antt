-- ===== src/Walker/Interactions/Parts.antt =====
-- The natural content, the parts and the reasoning of walker/interactions.go.
-- `markInteractionsOpaqueStringFields` is the loop `mark_opaque_string_fields`.
use cpa_plugin_privacyfilter.Base.{
  ◌++◌, ℕ, zero, suc, true, false, none, some, if◌then◌else◌, Bytes, bytes_eq,
}
use cpa_plugin_privacyfilter.Base.Text.{words, codes, any_of}
use cpa_plugin_privacyfilter.Walker.{
  Scope, scope_assistant, scope_tool_output, natural_text, json_value, tool_output, direct,
  json_or_plain, plain, walk_internal,
}
use cpa_plugin_privacyfilter.Walker.Tree.{
  Node, string_node, object_node, array_node, null_node, boolean_node, no_nodes, item, items_of,
  text_of, is_string, is_object, is_array, elements,
}
use cpa_plugin_privacyfilter.Walker.Steps.{
  refuse, Done, done, add, mark_opaque, unsupported, each, ◌>>=◌, ◌>>◌,
}
use cpa_plugin_privacyfilter.Walker.Fields.{
  shape, with_field, with_value, unique, unsupported_value, mark_opaque_string_field,
  mark_opaque_string_fields, walk_string_values, string_field, required_string,
}
use cpa_plugin_privacyfilter.Walker.Common.{walk_common_opaque_content_fields}

-- The `switch` of `walkInteractionsOpaqueReasoningFields`
abbrev pub mark_reasoning : Node → Done
mark_reasoning (string_node path token) = mark_opaque (string_node path token)
mark_reasoning (boolean_node path b) = done
mark_reasoning n =
    unsupported n (plain (codes "structured reasoning integrity field is not admitted"))

-- `walkInteractionsOpaqueReasoningFields`
unfoldable pub walk_interactions_opaque_reasoning_fields : Node → Done
unfolding each with_value
walk_interactions_opaque_reasoning_fields v =
    each (words "thought thinking redacted_thinking") (λ key. with_value v key mark_reasoning)

-- An array that is to be empty, or anything but an array.
abbrev pub refuse_annotations : Node → Done
refuse_annotations (array_node path no_nodes) = done
refuse_annotations (array_node path (item n rest)) =
    unsupported (array_node path (item n rest))
      (plain (codes "text annotations are integrity-coupled"))
refuse_annotations n = shape n (codes "array or null") (codes "annotations")

-- The first case of `walkInteractionsPart`
unfoldable pub walk_text_part : Node → Scope → Done
unfolding mark_opaque_string_field with_value
walk_text_part part scope = do
  mark_opaque_string_field part (codes "name") false true
  with_value part (codes "annotations") refuse_annotations
  text ← required_string part (codes "text")
  add text scope natural_text direct

-- The `switch` of `walkInteractionsPart`; the content of a thought is walked by the function that is
-- being defined.
unfoldable pub walk_part_of : (Node → Scope → Done) → Bytes → Node → Scope → Done
unfolding any_of bytes_eq walk_text_part walk_interactions_opaque_reasoning_fields each with_field
    walk_common_opaque_content_fields
walk_part_of walk_content part_type part scope =
    if any_of (bytes_eq part_type) (words "text input_text output_text")
    then walk_text_part part scope
    else if any_of (bytes_eq part_type) (words "thought reasoning")
    then (do
      walk_interactions_opaque_reasoning_fields part
      each (words "text content summary")
          (λ key. with_field part key (λ v. walk_content v scope_assistant)))
    else if any_of (bytes_eq part_type)
        (words "image audio video document file input_image output_image" ++ words "input_audio")
    then walk_common_opaque_content_fields part (
        words "data url file_uri fileUri file_id file_data filename image_url"
        ++ words "mime_type mimeType")
    else unsupported_value part (codes "unknown content part type ") part_type

-- `walkInteractionsPart`, of an object
unfoldable pub walk_object_part : (Node → Scope → Done) → Node → Scope → Done
unfolding unique mark_opaque_string_fields walk_part_of
walk_object_part walk_content part scope = do
  unique part (
      words "type text content summary thought thinking signature"
      ++ words "thoughtSignature thought_signature id name call_id data url"
      ++ words "file_uri fileUri file_id file_data filename image_url mime_type"
      ++ words "mimeType annotations")
  mark_opaque_string_fields part (words "signature thoughtSignature thought_signature id call_id")
  type_node ← string_field part (codes "type")
  elim type_node [
    | none ↦ (do
      text ← string_field part (codes "text")
      elim text [
        | none ↦ unsupported part (plain (codes "content part has no type"))
        | some v ↦ add v scope natural_text direct
      ])
    | some t ↦ mark_opaque t >> walk_part_of walk_content (text_of t) part scope
  ]

-- `walkInteractionsPart`
unfoldable pub walk_part_with : (Node → Scope → Done) → Node → Scope → Done
unfolding walk_object_part
walk_part_with walk_content part scope =
    if is_string part
    then add part scope natural_text direct
    else if is_object part
    then walk_object_part walk_content part scope
    else unsupported part (plain (codes "content part is neither string nor object"))

-- The `switch` of `walkInteractionsNaturalContent`
unfoldable pub walk_content_with : (Node → Scope → Done) → Node → Scope → Done
unfolding walk_part_with each items_of
walk_content_with walk_content (string_node path token) scope =
    add (string_node path token) scope natural_text direct
walk_content_with walk_content (object_node path ms) scope =
    walk_part_with walk_content (object_node path ms) scope
walk_content_with walk_content (array_node path items) scope =
    each (items_of items) (λ part. walk_part_with walk_content part scope)
walk_content_with walk_content (null_node path) scope = done
walk_content_with walk_content n scope =
    shape n (codes "string, object, array, or null") (codes "natural content")

-- `walkInteractionsNaturalContent`, on fuel: the content of a part is deeper in the tree than the part.
unfoldable pub walk_interactions_natural_content : ℕ → Node → Scope → Done
unfolding walk_content_with
walk_interactions_natural_content zero content scope = refuse walk_internal
walk_interactions_natural_content (suc fuel) content scope =
    walk_content_with (walk_interactions_natural_content fuel) content scope

-- `walkInteractionsParts`
unfoldable pub walk_interactions_parts : ℕ → Node → Scope → Done
unfolding each elements walk_part_with walk_interactions_natural_content
walk_interactions_parts fuel parts scope =
    if is_array parts
    then each (elements parts)
        (λ part. walk_part_with (walk_interactions_natural_content fuel) part scope)
    else shape parts (codes "array") (codes "parts")

-- `walkInteractionToolOutput`
unfoldable pub walk_interaction_tool_output : Node → Done
unfolding walk_string_values
walk_interaction_tool_output output =
    if is_string output
    then add output scope_tool_output tool_output json_or_plain
    else walk_string_values output scope_tool_output json_value
