-- ===== src/Walker/Gemini/Tools.antt =====
-- The tool definitions of walker/gemini.go.
use cpa_plugin_privacyfilter.Base.{true, false, not, ◌&&◌, [], ◌∷◌, ◌++◌, if◌then◌else◌, Bytes}
use cpa_plugin_privacyfilter.Base.Text.{words, codes}
use cpa_plugin_privacyfilter.Walker.{scope_system, natural_text, json_value, walk_ambiguous}
use cpa_plugin_privacyfilter.Walker.Tree.{
  Node, path_of, is_string, is_object, is_array, is_null, elements,
}
use cpa_plugin_privacyfilter.Walker.Steps.{Done, done, refuse, mark_opaque, each, ◌>>=◌, ◌>>◌}
use cpa_plugin_privacyfilter.Walker.Fields.{
  shape, field, with_field, with_value, one_of, unique, mark_opaque_string_field,
  mark_opaque_string_fields, add_string_field, walk_string_values, required_string, each_object,
  has, for_some,
}

-- A turn of the loop over the schemas of `walkGeminiFunctionDeclaration`.
unfoldable pub walk_schema : Node → Done
unfolding walk_string_values
walk_schema schema =
    if is_null schema
    then done
    else if is_object schema
    then walk_string_values schema scope_system json_value
    else shape schema (codes "object or null") (codes "function schema")

-- A turn of the loop over the two pairs of keys.
unfoldable pub walk_schema_pair : Node → Bytes → Bytes → Done
unfolding field walk_schema
walk_schema_pair declaration one other = do
  first ← field declaration one
  second ← field declaration other
  if has first && has second
      then refuse (walk_ambiguous (path_of declaration) (one ∷ other ∷ []))
      else (for_some first walk_schema >> for_some second walk_schema)

-- `walkGeminiFunctionDeclaration`
unfoldable pub walk_gemini_function_declaration : Node → Done
unfolding unique add_string_field mark_opaque_string_field walk_schema_pair
walk_gemini_function_declaration declaration = do
  unique declaration (
      words "name description parameters parametersJsonSchema response"
      ++ words "responseJsonSchema behavior")
  name ← required_string declaration (codes "name")
  mark_opaque name
  add_string_field declaration (codes "description") false true scope_system natural_text
  mark_opaque_string_field declaration (codes "behavior") false true
  walk_schema_pair declaration (codes "parameters") (codes "parametersJsonSchema")
  walk_schema_pair declaration (codes "response") (codes "responseJsonSchema")

-- `walkGeminiFunctionDeclarations`
unfoldable pub walk_gemini_function_declarations : Node → Done
unfolding each_object elements walk_gemini_function_declaration
walk_gemini_function_declarations declarations =
    if is_array declarations
    then each_object (elements declarations) (codes "function declaration is not an object")
        walk_gemini_function_declaration
    else shape declarations (codes "array") (codes "function declarations")

-- `walkGeminiMarkerTool`
abbrev pub walk_gemini_marker_tool : Node → Bytes → Done
walk_gemini_marker_tool marker detail =
    if is_object marker then done else shape marker (codes "object") detail

-- The three parts of `walkGeminiGoogleSearch`.
unfoldable pub walk_search_types : Node → Done
unfolding unique each with_field
walk_search_types types =
    if is_object types
    then (do
      unique types (words "webSearch imageSearch")
      each (words "webSearch imageSearch") (λ key.
          with_field types key
            (λ marker. walk_gemini_marker_tool marker (codes "googleSearch " ++ key))))
    else shape types (codes "object or null") (codes "googleSearch searchTypes")

unfoldable pub mark_excluded_domains : Node → Done
unfolding each elements
mark_excluded_domains domains =
    if is_array domains
    then each (elements domains) (λ domain.
      if is_string domain
      then mark_opaque domain
      else shape domain (codes "string") (codes "googleSearch excluded domain"))
    else shape domains (codes "array or null") (codes "googleSearch excludeDomains")

unfoldable pub mark_time_range : Node → Done
unfolding unique mark_opaque_string_fields
mark_time_range range =
    if is_object range
    then (unique range (words "startTime endTime")
        >> mark_opaque_string_fields range (words "startTime endTime"))
    else shape range (codes "object or null") (codes "googleSearch timeRangeFilter")

-- `walkGeminiGoogleSearch`
unfoldable pub walk_gemini_google_search : Node → Done
unfolding unique mark_opaque_string_field with_value walk_search_types mark_excluded_domains
    mark_time_range
walk_gemini_google_search search =
    if not (is_object search) then shape search (codes "object") (codes "googleSearch") else (do
      unique search (words "searchTypes blockingConfidence excludeDomains timeRangeFilter")
      mark_opaque_string_field search (codes "blockingConfidence") false true
      with_value search (codes "searchTypes") walk_search_types
      with_value search (codes "excludeDomains") mark_excluded_domains
      with_value search (codes "timeRangeFilter") mark_time_range)

-- A turn of the loop of `walkGeminiToolDefinitions`.
unfoldable pub walk_gemini_tool : Node → Done
unfolding unique one_of walk_gemini_function_declarations with_field walk_gemini_google_search each
walk_gemini_tool tool = do
  unique tool (
      words "functionDeclarations function_declarations googleSearch"
      ++ words "codeExecution urlContext")
  declarations ← one_of tool (words "functionDeclarations function_declarations")
  for_some declarations walk_gemini_function_declarations
  with_field tool (codes "googleSearch") walk_gemini_google_search
  each (words "codeExecution urlContext")
      (λ key. with_field tool key (λ marker. walk_gemini_marker_tool marker key))

-- `walkGeminiToolDefinitions`
unfoldable pub walk_gemini_tool_definitions : Node → Done
unfolding with_field each_object elements walk_gemini_tool
walk_gemini_tool_definitions root = with_field root (codes "tools") λ tools.
    if is_array tools
    then each_object (elements tools) (codes "tool definition is not an object") walk_gemini_tool
    else shape tools (codes "array") (codes "tools")
