-- ===== src/Walker/Gemini.antt =====
-- walker/gemini.go: what is read of a generateContent request.
pub mod Tools
pub mod Parts
pub mod Fuel
use cpa_plugin_privacyfilter.Base.{
  ◌++◌, ◌&&◌, ◌||◌, Bool, true, false, not, Option, none, some, List, [], ◌∷◌, if◌then◌else◌, Bytes,
  bytes_eq,
}
use cpa_plugin_privacyfilter.Base.Text.{words, codes}
use cpa_plugin_privacyfilter.Walker.{
  Scope, scope_system, scope_user, scope_assistant, natural_text, direct, plain,
}
use cpa_plugin_privacyfilter.Walker.Tree.{Node, text_of, is_object, elements, depth_of}
use cpa_plugin_privacyfilter.Walker.Steps.{
  Walk, ret, Done, done, add, mark_opaque, unsupported, each, ◌>>=◌, ◌>>◌,
}
use cpa_plugin_privacyfilter.Walker.Fields.{
  shape, field, one_of, unique, unsupported_value, mark_fields, mark_opaque_string_fields,
  string_field, required_array, each_object, has, for_some,
}
use cpa_plugin_privacyfilter.Walker.Gemini.Tools.{walk_gemini_tool_definitions}
use cpa_plugin_privacyfilter.Walker.Gemini.Parts.{
  walk_gemini_media_fields, thought_field, is_thought, walk_gemini_part,
}

-- `geminiRootControlFields`
abbrev pub gemini_root_control_fields : List Bytes
gemini_root_control_fields =
    words "model toolConfig safetySettings generationConfig cachedContent"
    ++ words "serviceTier store labels tool_config safety_settings"
    ++ words "generation_config cached_content service_tier"

-- A turn of the loop of `walkGeminiSystem`.
unfoldable pub walk_system_part : Node → Done
unfolding unique mark_opaque_string_fields thought_field field walk_gemini_media_fields
walk_system_part part = do
  unique part (
      words "text thought thoughtSignature inlineData inline_data fileData"
      ++ words "file_data id name")
  mark_opaque_string_fields part (words "thoughtSignature id name")
  text ← string_field part (codes "text")
  thought ← thought_field part
  signature ← field part (codes "thoughtSignature")
  for_some text (λ v.
      if has signature || is_thought thought
      then mark_opaque v
      else add v scope_system natural_text direct)
  media ← walk_gemini_media_fields part scope_system
  if not (has text) && not media
      then unsupported part (plain (codes "system part has no text or media"))
      else done

-- `walkGeminiSystem`
unfoldable pub walk_gemini_system : Node → Done
unfolding unique mark_opaque_string_fields each_object elements walk_system_part
walk_gemini_system system =
    if not (is_object system)
    then shape system (codes "object") (codes "system instruction")
    else (do
      unique system (words "parts role id name")
      mark_opaque_string_fields system (words "role id name")
      parts ← required_array system (codes "parts")
      each_object (elements parts) (codes "system parts element is not an object") walk_system_part)

-- The scope of a role, and whether the role is known.
unfoldable pub walk_gemini_role : Option Node → Walk (Scope × Bool)
unfolding bytes_eq
walk_gemini_role none = ret (scope_user, true)
walk_gemini_role (some role) =
    mark_opaque role
    >> (if bytes_eq (text_of role) (codes "user")
        then ret (scope_user, true)
        else if bytes_eq (text_of role) (codes "model")
        then ret (scope_assistant, true)
        else (unsupported_value role (codes "unknown Gemini role ") (text_of role)
            >> ret (scope_user, false)))

-- `walkGeminiContent`
unfoldable pub walk_gemini_content : Node → Done
unfolding unique mark_opaque_string_fields walk_gemini_role each elements walk_gemini_part depth_of
walk_gemini_content content =
    if not (is_object content)
    then shape content (codes "object") (codes "contents element")
    else (do
      unique content (words "role parts id name")
      mark_opaque_string_fields content (words "id name")
      role ← string_field content (codes "role")
      read ← walk_gemini_role role
      parts ← required_array content (codes "parts")
      each (elements parts) (λ part. walk_gemini_part (depth_of part) part read.0 read.1))

-- `walkGemini`
unfoldable pub walk_gemini : Node → Done
unfolding unique mark_fields one_of walk_gemini_system each elements walk_gemini_content
    walk_gemini_tool_definitions
walk_gemini root = do
  unique root (words "systemInstruction system_instruction contents tools")
  mark_fields root gemini_root_control_fields
  system ← one_of root (words "systemInstruction system_instruction")
  for_some system walk_gemini_system
  contents ← required_array root (codes "contents")
  each (elements contents) walk_gemini_content
  walk_gemini_tool_definitions root
