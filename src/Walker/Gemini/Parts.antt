-- ===== src/Walker/Gemini/Parts.antt =====
-- The media and the parts of walker/gemini.go.
use cpa_plugin_privacyfilter.Base.{
  ◌++◌, ℕ, zero, suc, Bool, true, false, not, ◌||◌, Option, none, some, if◌then◌else◌,
}
use cpa_plugin_privacyfilter.Base.Text.{words, codes}
use cpa_plugin_privacyfilter.Walker.{
  Scope, scope_tool_input, scope_tool_output, natural_text, json_value, code_text, execution_output,
  direct, plain, walk_internal,
}
use cpa_plugin_privacyfilter.Walker.Tree.{
  Node, is_true, is_string, is_object, is_array, is_boolean, elements,
}
use cpa_plugin_privacyfilter.Walker.Steps.{
  Walk, ret, refuse, Done, done, add, mark_opaque, unsupported, each, ◌>>=◌, ◌>>◌,
}
use cpa_plugin_privacyfilter.Walker.Fields.{
  shape, missing, field, with_field, with_value, one_of, unique, mark_opaque_string_field,
  mark_opaque_string_fields, walk_string_values, string_field, required_string, number_field,
  boolean_field, each_object, has, for_some,
}

-- `markGeminiMediaMIME`
unfoldable pub mark_gemini_media_mime : Node → Done
unfolding one_of
mark_gemini_media_mime data_node = do
  mime_type ← one_of data_node (words "mimeType mime_type")
  for_some mime_type (λ v.
      if is_string v then mark_opaque v else shape v (codes "string") (codes "media MIME type"))

-- `addGeminiDisplayName`
unfoldable pub add_gemini_display_name : Node → Scope → Done
unfolding with_value
add_gemini_display_name data_node scope = with_value data_node (codes "displayName") λ v.
    if is_string v
    then add v scope natural_text direct
    else shape v (codes "string or null") (codes "media displayName")

-- `walkGeminiInlineData`
unfoldable pub walk_gemini_inline_data : Node → Scope → Done
unfolding unique mark_gemini_media_mime add_gemini_display_name
walk_gemini_inline_data data_node scope =
    if not (is_object data_node) then shape data_node (codes "object") (codes "inlineData") else (do
      unique data_node (words "data displayName mimeType mime_type")
      encoded ← required_string data_node (codes "data")
      mark_opaque encoded
      mark_gemini_media_mime data_node
      add_gemini_display_name data_node scope)

-- `walkGeminiFileData`
unfoldable pub walk_gemini_file_data : Node → Scope → Done
unfolding unique one_of mark_gemini_media_mime add_gemini_display_name
walk_gemini_file_data data_node scope =
    if not (is_object data_node) then shape data_node (codes "object") (codes "fileData") else (do
      unique data_node (words "displayName fileUri file_uri mimeType mime_type")
      uri ← one_of data_node (words "fileUri file_uri")
      elim uri [
        | none ↦ missing data_node (codes "fileUri") (codes "string")
        | some v ↦
            if is_string v then mark_opaque v else shape v (codes "string") (codes "file URI")
      ]
      mark_gemini_media_mime data_node
      add_gemini_display_name data_node scope)

-- `walkGeminiMediaFields`
unfoldable pub walk_gemini_media_fields : Node → Scope → Walk Bool
unfolding one_of walk_gemini_inline_data walk_gemini_file_data
walk_gemini_media_fields part scope = do
  inline_data ← one_of part (words "inlineData inline_data")
  file_data ← one_of part (words "fileData file_data")
  for_some inline_data (λ v. walk_gemini_inline_data v scope)
  for_some file_data (λ v. walk_gemini_file_data v scope)
  ret (has inline_data || has file_data)

-- `walkGeminiPartMediaControls`
unfoldable pub walk_gemini_part_media_controls : Node → Done
unfolding with_value unique mark_opaque_string_field number_field mark_opaque_string_fields
walk_gemini_part_media_controls part = do
  with_value part (codes "mediaResolution") (λ v.
      if is_object v
      then (do
        unique v (words "level numTokens")
        mark_opaque_string_field v (codes "level") false true
        number_field v (codes "numTokens") (codes "mediaResolution numTokens"))
      else shape v (codes "object or null") (codes "mediaResolution"))
  with_value part (codes "videoMetadata") (λ v.
      if is_object v
      then (do
        unique v (words "startOffset endOffset fps")
        mark_opaque_string_fields v (words "startOffset endOffset")
        number_field v (codes "fps") (codes "videoMetadata fps"))
      else shape v (codes "object or null") (codes "videoMetadata"))

-- The reading of `thought`: the field, if there is one, is a boolean.
unfoldable pub thought_field : Node → Walk (Option Node)
unfolding field
thought_field part = do
  thought ← field part (codes "thought")
  elim thought [
    | none ↦ ret none
    | some v ↦ if is_boolean v then ret (some v) else shape v (codes "boolean") (codes "thought")
  ]

abbrev pub is_thought : Option Node → Bool
is_thought none = false
is_thought (some v) = is_true v

-- `walkGeminiPartialArgs`
unfoldable pub walk_gemini_partial_args : Node → Done
unfolding each_object elements unique mark_opaque_string_fields
walk_gemini_partial_args partial_args =
    if not (is_array partial_args)
    then shape partial_args (codes "array") (codes "partialArgs")
    else each_object (elements partial_args) (codes "partialArgs element is not an object")
        (λ partial. do
          unique partial (words "boolValue jsonPath nullValue numberValue stringValue willContinue")
          mark_opaque_string_fields partial (words "jsonPath nullValue")
          value ← string_field partial (codes "stringValue")
          for_some value (λ v. add v scope_tool_input json_value direct))

-- The parts of `walkGeminiPart`, one for each field that makes a part known.
unfoldable pub walk_function_call : Node → Done
unfolding unique mark_opaque_string_fields boolean_field with_field walk_string_values
    walk_gemini_partial_args
walk_function_call call =
    if not (is_object call) then shape call (codes "object") (codes "functionCall") else (do
      unique call (words "args partialArgs name id call_id willContinue")
      mark_opaque_string_fields call (words "name id call_id")
      boolean_field call (codes "willContinue") (codes "functionCall willContinue")
      with_field call (codes "args") (λ v. walk_string_values v scope_tool_input json_value)
      with_field call (codes "partialArgs") walk_gemini_partial_args)

-- The parts of a response are walked by the function that is being defined.
unfoldable pub walk_function_response : (Node → Done) → Node → Done
unfolding unique mark_opaque_string_fields boolean_field with_field walk_string_values each elements
walk_function_response walk_part response =
    if not (is_object response)
    then shape response (codes "object") (codes "functionResponse")
    else (do
      unique response (words "response parts name id call_id willContinue scheduling")
      mark_opaque_string_fields response (words "name id call_id scheduling")
      boolean_field response (codes "willContinue") (codes "functionResponse willContinue")
      with_field response (codes "response")
          (λ v. walk_string_values v scope_tool_output json_value)
      with_field response (codes "parts") (λ parts.
          if is_array parts
          then each (elements parts) walk_part
          else shape parts (codes "array") (codes "functionResponse parts")))

unfoldable pub walk_executable_code : Node → Scope → Done
unfolding unique mark_opaque_string_fields
walk_executable_code executable scope =
    if not (is_object executable)
    then shape executable (codes "object") (codes "executableCode")
    else (do
      unique executable (words "code language id name")
      mark_opaque_string_fields executable (words "language id")
      code ← string_field executable (codes "code")
      for_some code (λ v. add v scope code_text direct))

unfoldable pub walk_execution_result : Node → Done
unfolding unique mark_opaque_string_fields
walk_execution_result execution =
    if not (is_object execution)
    then shape execution (codes "object") (codes "codeExecutionResult")
    else (do
      unique execution (words "output outcome id name")
      mark_opaque_string_fields execution (words "outcome id")
      output ← string_field execution (codes "output")
      for_some output (λ v. add v scope_tool_output execution_output direct))

-- The fields of a part that say what it is.
unfoldable pub walk_known_parts : (Node → Done) → Node → Scope → Bool → Done
unfolding field walk_function_call walk_function_response walk_executable_code walk_execution_result
walk_known_parts walk_part part scope recognized = do
  call ← field part (codes "functionCall")
  for_some call walk_function_call
  response ← field part (codes "functionResponse")
  for_some response (walk_function_response walk_part)
  executable ← field part (codes "executableCode")
  for_some executable (λ v. walk_executable_code v scope)
  execution ← field part (codes "codeExecutionResult")
  for_some execution walk_execution_result
  if recognized || has call || has response || has executable || has execution
      then done
      else unsupported part (plain (codes "unknown Gemini part shape"))

-- The body of `walkGeminiPart`.
unfoldable pub walk_part_with : (Node → Done) → Node → Scope → Bool → Done
unfolding unique mark_opaque_string_field walk_gemini_part_media_controls with_field thought_field
    field walk_gemini_media_fields walk_known_parts
walk_part_with walk_part part scope role_ok =
    if not (is_object part)
    then unsupported part (plain (codes "parts element is not an object"))
    else (do
      unique part (
          words "text thought thoughtSignature functionCall functionResponse"
          ++ words "executableCode codeExecutionResult inlineData inline_data fileData"
          ++ words "file_data mediaResolution videoMetadata mediaProcessing"
          ++ words "partMetadata audioTranscription name id call_id mimeType")
      mark_opaque_string_field part (codes "thoughtSignature") false true
      walk_gemini_part_media_controls part
      with_field part (codes "partMetadata") (λ v.
          if is_object v then mark_opaque v else shape v (codes "object") (codes "partMetadata"))
      thought ← thought_field part
      signature ← field part (codes "thoughtSignature")
      media ← walk_gemini_media_fields part scope
      text ← string_field part (codes "text")
      for_some text (λ v.
          if is_thought thought || has signature || not role_ok
          then mark_opaque v
          else add v scope natural_text direct)
      walk_known_parts walk_part part scope (has thought || has signature || media || has text))

-- `walkGeminiPart`, on fuel: a part of a response is deeper in the tree than the part.
unfoldable pub walk_gemini_part : ℕ → Node → Scope → Bool → Done
unfolding walk_part_with
walk_gemini_part zero part scope role_ok = refuse walk_internal
walk_gemini_part (suc fuel) part scope role_ok =
    walk_part_with (λ p. walk_gemini_part fuel p scope_tool_output true) part scope role_ok
