-- ===== src/Walker/Common.antt =====
-- The content blocks that protocols share, and `validateRootControls` (walker/common.go).
use cpa_plugin_privacyfilter.Base.{
  ◌++◌, true, false, not, Option, none, some, List, [], ◌∷◌, if◌then◌else◌, Bytes, bytes_eq,
}
use cpa_plugin_privacyfilter.Base.Text.{words, codes, any_of}
use cpa_plugin_privacyfilter.Walker.{Scope, natural_text, direct, plain}
use cpa_plugin_privacyfilter.Walker.Tree.{
  Node, string_node, array_node, null_node, items_of, text_of, is_string, is_object,
}
use cpa_plugin_privacyfilter.Walker.Steps.{
  Done, done, add, mark_opaque, unsupported, each, ◌>>=◌, ◌>>◌,
}
use cpa_plugin_privacyfilter.Walker.Fields.{
  shape, with_value, unique, unsupported_value, mark_opaque_string_field, mark_opaque_string_fields,
  string_field, required_string,
}

abbrev pub text_block_types : List Bytes
text_block_types = words "text input_text output_text summary_text"

abbrev file_fields : List Bytes
file_fields = words "file file_id file_data filename url"

abbrev audio_fields : List Bytes
audio_fields = words "audio data format id"

-- `commonOpaqueContentFields`
abbrev pub common_opaque_content_fields : List (Bytes × List Bytes)
common_opaque_content_fields =
    (codes "image", words "image_url url file_id detail data mime_type mimeType")
    ∷ (codes "input_image", words "image_url url file_id detail")
    ∷ (codes "output_image", words "image_url url file_id data mime_type mimeType")
    ∷ (codes "image_url", words "image_url url detail")
    ∷ (codes "input_audio", words "input_audio audio data format")
    ∷ (codes "output_audio", audio_fields)
    ∷ (codes "audio", audio_fields)
    ∷ (codes "video", words "video data url file_id mime_type mimeType")
    ∷ (codes "file", file_fields)
    ∷ (codes "input_file", file_fields)
    ∷ (codes "output_file", file_fields)
    ∷ []

-- `commonOpaqueNestedContentFields`
abbrev pub common_opaque_nested_content_fields : List (Bytes × List Bytes)
common_opaque_nested_content_fields =
    (codes "image_url", words "url file_id detail")
    ∷ (codes "input_audio", words "data format")
    ∷ (codes "audio", words "data format id url file_id")
    ∷ (codes "video", words "data url file_id mime_type mimeType")
    ∷ (codes "file", words "file_id file_data filename url")
    ∷ []

-- A look-up in such a table.
unfoldable pub fields_for : Bytes → List (Bytes × List Bytes) → Option (List Bytes)
unfolding bytes_eq
fields_for key [] = none
fields_for key ((k, fields) ∷ rest) = if bytes_eq k key then some fields else fields_for key rest

-- The turn of the loop of `walkCommonOpaqueContentFields` for a value that is no null and no string.
unfoldable pub nested_opaque_fields : Bytes → Node → Done
unfolding fields_for unique mark_opaque_string_fields
nested_opaque_fields key v = elim (fields_for key common_opaque_nested_content_fields) [
  | none ↦ shape v (codes "string, object, or null") key
  | some nested ↦
      if is_object v
      then unique v nested >> mark_opaque_string_fields v nested
      else shape v (codes "string, object, or null") key
]

-- `walkCommonOpaqueContentFields`
unfoldable pub walk_common_opaque_content_fields : Node → List Bytes → Done
unfolding each with_value nested_opaque_fields
walk_common_opaque_content_fields block fields = each fields (λ key.
    with_value block key (λ v. if is_string v then mark_opaque v else nested_opaque_fields key v))

-- `walkCommonCacheBreakpoint`
unfoldable pub walk_common_cache_breakpoint : Node → Done
unfolding with_value unique mark_opaque_string_field
walk_common_cache_breakpoint block =
    with_value block (codes "prompt_cache_breakpoint") λ breakpoint.
      if not (is_object breakpoint)
      then shape breakpoint (codes "object or null") (codes "prompt_cache_breakpoint")
      else (unique breakpoint (codes "mode" ∷ [])
          >> mark_opaque_string_field breakpoint (codes "mode") true false)

-- `walkAnthropicCacheControl`, and `walkClaudeCacheControl` of walker/claude.go
unfoldable pub walk_anthropic_cache_control : Node → Done
unfolding with_value unique mark_opaque_string_field
walk_anthropic_cache_control n = with_value n (codes "cache_control") λ cache_control.
    if not (is_object cache_control)
    then shape cache_control (codes "object or null") (codes "cache_control")
    else (do
      unique cache_control (words "type ttl")
      mark_opaque_string_field cache_control (codes "type") true false
      mark_opaque_string_field cache_control (codes "ttl") false true)

-- `walkTypedTextBlock` from the type of the block on.
unfoldable pub walk_text_block_of : Bytes → Node → Scope → Done
unfolding any_of fields_for walk_common_opaque_content_fields bytes_eq
walk_text_block_of block_type block scope =
    if any_of (bytes_eq block_type) text_block_types
    then (do text ← required_string block (codes "text"); add text scope natural_text direct)
    else if bytes_eq block_type (codes "refusal")
    then (do
      refusal ← required_string block (codes "refusal")
      add refusal scope natural_text direct)
    else elim (fields_for block_type common_opaque_content_fields) [
      | some fields ↦ walk_common_opaque_content_fields block fields
      | none ↦ unsupported_value block (codes "unknown content block type ") block_type
    ]

-- `walkTypedTextBlock`
unfoldable pub walk_typed_text_block : Node → Scope → Done
unfolding unique mark_opaque_string_fields walk_common_cache_breakpoint walk_anthropic_cache_control
    walk_text_block_of
walk_typed_text_block block scope =
    if not (is_object block)
    then unsupported block (plain (codes "content array element is not an object"))
    else (do
      unique block (
          words "type text refusal id name call_id signature"
          ++ words "prompt_cache_breakpoint cache_control")
      mark_opaque_string_fields block (words "id name call_id signature")
      walk_common_cache_breakpoint block
      walk_anthropic_cache_control block
      type_node ← string_field block (codes "type")
      elim type_node [
        | none ↦ unsupported block (plain (codes "content block has no type"))
        | some t ↦ mark_opaque t >> walk_text_block_of (text_of t) block scope
      ])

-- `walkTypedTextContent`
unfoldable pub walk_typed_text_content : Node → Scope → Done
unfolding each walk_typed_text_block items_of
walk_typed_text_content (string_node path token) scope =
    add (string_node path token) scope natural_text direct
walk_typed_text_content (null_node path) scope = done
walk_typed_text_content (array_node path items) scope =
    each (items_of items) (λ block. walk_typed_text_block block scope)
walk_typed_text_content n scope = shape n (codes "string, array, or null") (codes "content")

-- `validateRootControls`
unfoldable pub validate_root_controls : Node → Done
unfolding unique mark_opaque_string_field
validate_root_controls root =
    unique root (codes "model" ∷ []) >> mark_opaque_string_field root (codes "model") false true
