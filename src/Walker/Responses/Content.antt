-- ===== src/Walker/Responses/Content.antt =====
-- The messages of walker/responses.go: their content, its annotations, and the prompt.
use cpa_plugin_privacyfilter.Base.{
  ◌++◌, Bool, true, false, not, none, some, List, [], ◌∷◌, if◌then◌else◌, Bytes, bytes_eq,
}
use cpa_plugin_privacyfilter.Base.Text.{words, codes, any_of}
use cpa_plugin_privacyfilter.Walker.{
  Scope, scope_user, scope_assistant, scope_tool_output, TargetKind, natural_text, json_value,
  tool_output, direct, json_or_plain, plain,
}
use cpa_plugin_privacyfilter.Walker.Tree.{
  Node, string_node, object_node, array_node, Members, no_members, member, item, text_of, is_string,
  is_object, is_array, is_null, elements, members_of,
}
use cpa_plugin_privacyfilter.Walker.Steps.{
  Walk, ret, Done, done, add, mark_opaque, unsupported, ◌>>=◌, ◌>>◌,
}
use cpa_plugin_privacyfilter.Walker.Fields.{
  shape, missing, field, with_value, unique, unsupported_value, typed_field,
  mark_opaque_string_field, mark_opaque_string_fields, required_string, scope_for_role, each_object,
  add_required, mark_required, mark_type,
}
use cpa_plugin_privacyfilter.Walker.Responses.Config.{number_in}

-- `walkResponsesCacheBreakpoint`
unfoldable pub walk_responses_cache_breakpoint : Node → Done
unfolding with_value unique mark_required
walk_responses_cache_breakpoint n = with_value n (codes "prompt_cache_breakpoint") λ breakpoint.
    if is_object breakpoint
    then unique breakpoint (codes "mode" ∷ []) >> mark_required breakpoint (codes "mode")
    else shape breakpoint (codes "object") (codes "prompt_cache_breakpoint")

-- `walkResponsesInputContent`
unfoldable pub walk_responses_input_content : Node → Scope → TargetKind → Done
unfolding unique mark_type walk_responses_cache_breakpoint bytes_eq add_required
    mark_opaque_string_fields
walk_responses_input_content block scope kind =
    if not (is_object block) then shape block (codes "object") (codes "input content") else (do
      unique block (
          words "type text file_id image_url detail file_data file_url filename"
          ++ words "prompt_cache_breakpoint")
      block_type ← mark_type block
      walk_responses_cache_breakpoint block
      if bytes_eq block_type (codes "input_text")
          then add_required block (codes "text") scope kind direct
          else if bytes_eq block_type (codes "input_image")
          then mark_opaque_string_fields block (words "file_id image_url detail")
          else if bytes_eq block_type (codes "input_file")
          then mark_opaque_string_fields block (words "file_data file_id file_url filename detail")
          else unsupported_value block (codes "unknown input content type ") block_type)

-- A turn of the loop of `walkResponsesOutputAnnotations`, from the type on: whether the loop goes on.
unfoldable pub annotation_of : Bytes → Node → Node → Walk Bool
unfolding bytes_eq unique mark_opaque_string_field typed_field any_of
annotation_of annotation_type annotation block =
    if bytes_eq annotation_type (codes "file_citation")
    then (do
      unique annotation (words "type file_id filename index")
      mark_opaque_string_field annotation (codes "file_id") true false
      mark_opaque_string_field annotation (codes "filename") true false
      number_in annotation (codes "index") true false
      ret true)
    else if bytes_eq annotation_type (codes "file_path")
    then (do
      unique annotation (words "type file_id index")
      mark_opaque_string_field annotation (codes "file_id") true false
      number_in annotation (codes "index") true false
      ret true)
    else if any_of (bytes_eq annotation_type) (words "url_citation container_file_citation")
    then unsupported block (plain (codes "output text has position-coupled annotations"))
      >> ret false
    else unsupported_value block (codes "unknown output-text annotation type ") annotation_type
      >> ret false

unfoldable pub walk_annotation : Node → Node → Walk Bool
unfolding mark_type annotation_of
walk_annotation block annotation =
    if is_object annotation
    then (do annotation_type ← mark_type annotation; annotation_of annotation_type annotation block)
    else unsupported block (plain (codes "output-text annotation is not an object")) >> ret false

unfoldable pub walk_annotations : Node → List Node → Walk Bool
unfolding walk_annotation
walk_annotations block [] = ret true
walk_annotations block (a ∷ more) = do
  goes_on ← walk_annotation block a
  let later = walk_annotations block more
  if goes_on then later else ret false

-- `walkResponsesOutputAnnotations`
unfoldable pub walk_responses_output_annotations : Node → Walk Bool
unfolding field walk_annotations elements
walk_responses_output_annotations block = do
  annotations ← field block (codes "annotations")
  elim annotations [
    | none ↦ ret true
    | some v ↦
        if is_null v
        then ret true
        else if is_array v
        then walk_annotations block (elements v)
        else shape v (codes "array or null") (codes "annotations")
  ]

-- The end of an output text with safe annotations: the text, unless there are logprobs.
abbrev pub has_elements : Node → Bool
has_elements (array_node path (item n rest)) = true
has_elements _ = false

abbrev add_output_text : Node → Done
unfolding add_required
add_output_text block = add_required block (codes "text") scope_assistant natural_text direct

unfoldable pub walk_output_text : Node → Done
unfolding field add_required
walk_output_text block = do
  logprobs ← field block (codes "logprobs")
  elim logprobs [
    | none ↦ add_output_text block
    | some v ↦
        if is_null v
        then add_output_text block
        else if not (is_array v)
        then shape v (codes "array or null") (codes "logprobs")
        else if has_elements v
        then unsupported block (plain (codes "output text has integrity-coupled logprobs"))
        else add_output_text block
  ]

-- `walkResponsesOutputContent`
unfoldable pub walk_responses_output_content : Node → Done
unfolding unique mark_type bytes_eq walk_responses_output_annotations walk_output_text add_required
walk_responses_output_content block = do
  unique block (words "type text refusal annotations logprobs")
  block_type ← mark_type block
  if bytes_eq block_type (codes "output_text")
      then (do
        safe ← walk_responses_output_annotations block
        if safe then walk_output_text block else done)
      else if bytes_eq block_type (codes "refusal")
      then add_required block (codes "refusal") scope_assistant natural_text direct
      else unsupported_value block (codes "unknown output content type ") block_type

abbrev pub is_tool_output : Scope → Bool
is_tool_output scope_tool_output = true
is_tool_output _ = false

abbrev pub is_assistant : Scope → Bool
is_assistant scope_assistant = true
is_assistant _ = false

-- The `switch` of `walkResponsesMessage`
unfoldable pub walk_message_block : Bytes → Node → Scope → Done
unfolding any_of bytes_eq walk_responses_input_content walk_responses_output_content unique
    mark_opaque_string_fields walk_responses_cache_breakpoint add_required
walk_message_block block_type block scope =
    if any_of (bytes_eq block_type) (words "input_text input_image input_file")
    then walk_responses_input_content block scope natural_text
    else if any_of (bytes_eq block_type) (words "output_text refusal")
    then (if is_assistant scope
        then walk_responses_output_content block
        else unsupported block (plain (codes "output content outside assistant message")))
    else if bytes_eq block_type (codes "text")
    then (do
      unique block (words "type text id name call_id signature prompt_cache_breakpoint")
      mark_opaque_string_fields block (words "id name call_id signature")
      walk_responses_cache_breakpoint block
      add_required block (codes "text") scope
          (if is_tool_output scope then tool_output else natural_text) direct)
    else unsupported_value block (codes "unknown message content type ") block_type

-- The content of `walkResponsesMessage`
unfoldable pub walk_message_content : Node → Scope → Done
unfolding each_object elements mark_type walk_message_block
walk_message_content content scope =
    if is_string content
    then (if is_tool_output scope
        then add content scope tool_output json_or_plain
        else add content scope natural_text direct)
    else if is_array content
    then each_object (elements content) (codes "message content element is not an object")
        (λ block. do block_type ← mark_type block; walk_message_block block_type block scope)
    else shape content (codes "string or array") (codes "message content")

-- `walkResponsesMessage`
unfoldable pub walk_responses_message : Node → Done
unfolding unique mark_opaque_string_fields scope_for_role field walk_message_content
walk_responses_message message = do
  unique message (words "type role content id status phase")
  mark_opaque_string_fields message (words "id status phase")
  role_node ← required_string message (codes "role")
  mark_opaque role_node
  elim (scope_for_role (text_of role_node)) [
    | none ↦ unsupported_value role_node (codes "unknown message role ") (text_of role_node)
    | some scope ↦ (do
      content ← field message (codes "content")
      elim content [
        | none ↦ missing message (codes "content") (codes "string or array")
        | some v ↦ walk_message_content v scope
      ])
  ]

-- A turn of the loop of `walkResponsesPrompt`.
unfoldable pub walk_variable : Node → Done
unfolding walk_responses_input_content
walk_variable (string_node path token) = add (string_node path token) scope_user json_value direct
walk_variable (object_node path ms) =
    walk_responses_input_content (object_node path ms) scope_user json_value
walk_variable n = unsupported n (plain (codes "prompt variable is not a supported v3.42.0 variant"))

unfoldable pub walk_variables : Members → Done
unfolding walk_variable
walk_variables no_members = done
walk_variables (member key n rest) = walk_variable n >> walk_variables rest

-- `walkResponsesPrompt`
unfoldable pub walk_responses_prompt : Node → Done
unfolding unique mark_opaque_string_fields with_value walk_variables
walk_responses_prompt prompt =
    if not (is_object prompt) then shape prompt (codes "object") (codes "prompt") else (do
      unique prompt (words "variables id version name")
      mark_opaque_string_fields prompt (words "id version name")
      with_value prompt (codes "variables") (λ variables.
          if is_object variables
          then walk_variables (members_of variables)
          else shape variables (codes "object") (codes "prompt variables")))
