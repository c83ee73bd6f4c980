-- ===== src/Walker/Responses/Searches.antt =====
-- The file searches, web searches and computer calls of walker/responses.go.
use cpa_plugin_privacyfilter.Base.{
  Bool, true, false, none, some, List, [], ◌∷◌, if◌then◌else◌, Bytes, bytes_eq,
}
use cpa_plugin_privacyfilter.Base.Text.{words, codes, any_of}
use cpa_plugin_privacyfilter.Walker.{
  scope_tool_input, scope_tool_output, natural_text, json_value, tool_output, direct, plain,
}
use cpa_plugin_privacyfilter.Walker.Tree.{
  Node, string_node, number_node, boolean_node, Members, no_members, member, is_string, is_object,
  is_array, elements, members_of,
}
use cpa_plugin_privacyfilter.Walker.Steps.{Done, done, add, unsupported, each, ◌>>=◌, ◌>>◌}
use cpa_plugin_privacyfilter.Walker.Fields.{
  shape, missing, field, with_field, with_value, unique, unsupported_value, typed_field,
  mark_opaque_string_field, mark_opaque_string_fields, mark_opaque_string_array_field, string_field,
  required_object, required_array, each_object, for_some, add_required, mark_required, mark_type,
}
use cpa_plugin_privacyfilter.Walker.Responses.Config.{array_in, number_in}

-- The loop over queries, with the text of the issue.
unfoldable pub add_queries : List Node → Bytes → Done
unfolding each
add_queries queries detail = each queries (λ query.
    if is_string query
    then add query scope_tool_input natural_text direct
    else unsupported query (plain detail))

-- The loop over the attributes of `walkResponsesFileSearch`.
abbrev pub walk_attribute : Node → Done
walk_attribute (string_node path token) =
    add (string_node path token) scope_tool_output json_value direct
walk_attribute (number_node path) = done
walk_attribute (boolean_node path b) = done
walk_attribute n = unsupported n (plain (codes "file-search attribute has unsupported type"))

unfoldable pub walk_attributes : Members → Done
walk_attributes no_members = done
walk_attributes (member key n rest) = walk_attribute n >> walk_attributes rest

-- A turn of the loop over the results of `walkResponsesFileSearch`.
unfoldable pub walk_search_result : Node → Done
unfolding unique mark_opaque_string_fields with_field walk_attributes
walk_search_result result = do
  unique result (words "file_id filename score text attributes")
  mark_opaque_string_fields result (words "file_id filename")
  text ← string_field result (codes "text")
  for_some text (λ v. add v scope_tool_output tool_output direct)
  with_field result (codes "attributes") (λ attributes.
      if is_object attributes
      then walk_attributes (members_of attributes)
      else shape attributes (codes "object") (codes "file-search attributes"))

-- `walkResponsesFileSearch`
unfoldable pub walk_responses_file_search : Node → Done
unfolding unique mark_opaque_string_fields add_queries elements with_value each_object
    walk_search_result
walk_responses_file_search v = do
  unique v (words "type id queries status results")
  mark_opaque_string_fields v (words "id status")
  queries ← required_array v (codes "queries")
  add_queries (elements queries) (codes "file-search query is not a string")
  with_value v (codes "results") (λ results.
      if is_array results
      then each_object (elements results) (codes "file-search result is not an object")
          walk_search_result
      else shape results (codes "array") (codes "file-search results"))

-- `walkResponsesCoordinates`
unfoldable pub walk_responses_coordinates : Node → List Bytes → Done
unfolding each typed_field
walk_responses_coordinates action keys = each keys (λ key. number_in action key true false)

abbrev x_and_y : List Bytes
x_and_y = words "x y"

-- `walkResponsesDragPath`
unfoldable pub walk_responses_drag_path : Node → Done
unfolding typed_field each elements unique walk_responses_coordinates
walk_responses_drag_path action = array_in action (codes "path") true false λ path.
    each (elements path) (λ point.
      if is_object point
      then unique point x_and_y >> walk_responses_coordinates point x_and_y
      else shape point (codes "object") (codes "drag path element"))

-- An action with keys, required or not, and coordinates.
unfoldable pub walk_keyed_action : Node → List Bytes → Bool → List Bytes → Done
unfolding unique mark_opaque_string_array_field walk_responses_coordinates
walk_keyed_action action keys required coordinates = do
  unique action keys
  mark_opaque_string_array_field action (codes "keys") required (if required then false else true)
  walk_responses_coordinates action coordinates

-- The `switch` of `walkResponsesComputerAction`
unfoldable pub walk_action_of : Bytes → Node → Done
unfolding bytes_eq unique add_required mark_opaque_string_field mark_opaque_string_array_field
    walk_responses_coordinates walk_keyed_action walk_responses_drag_path any_of
walk_action_of action_type action =
    if bytes_eq action_type (codes "type")
    then (unique action (words "type text")
        >> add_required action (codes "text") scope_tool_input natural_text direct)
    else if bytes_eq action_type (codes "click")
    then (do
      unique action (words "type button keys x y")
      mark_opaque_string_field action (codes "button") true false
      mark_opaque_string_array_field action (codes "keys") false true
      walk_responses_coordinates action x_and_y)
    else if bytes_eq action_type (codes "double_click")
    then walk_keyed_action action (codes "type" ∷ codes "keys" ∷ x_and_y) true x_and_y
    else if bytes_eq action_type (codes "drag")
    then (do
      unique action (words "type path keys")
      mark_opaque_string_array_field action (codes "keys") false true
      walk_responses_drag_path action)
    else if bytes_eq action_type (codes "keypress")
    then walk_keyed_action action (words "type keys") true []
    else if bytes_eq action_type (codes "move")
    then walk_keyed_action action (codes "type" ∷ codes "keys" ∷ x_and_y) false x_and_y
    else if bytes_eq action_type (codes "scroll")
    then walk_keyed_action action
        (codes "type" ∷ codes "keys" ∷ codes "scroll_x" ∷ codes "scroll_y" ∷ x_and_y) false
        (codes "scroll_x" ∷ codes "scroll_y" ∷ x_and_y)
    else if any_of (bytes_eq action_type) (words "screenshot wait")
    then unique action (codes "type" ∷ [])
    else unsupported_value action (codes "unknown computer action type ") action_type

-- `walkResponsesComputerAction`
unfoldable pub walk_responses_computer_action : Node → Done
unfolding unique mark_type walk_action_of
walk_responses_computer_action action =
    if is_object action
    then (do
      unique action (words "type text button keys path x y scroll_x scroll_y")
      action_type ← mark_type action
      walk_action_of action_type action)
    else unsupported action (plain (codes "computer action is not an object"))

-- `walkResponsesSafetyChecks`
unfoldable pub walk_responses_safety_checks : Node → Bytes → Bool → Done
unfolding field each_object elements unique mark_opaque_string_fields
walk_responses_safety_checks v key required = do
  checks ← field v key
  elim checks [
    | none ↦ if required then missing v key (codes "array") else done
    | some n ↦
        if is_array n
        then each_object (elements n) (codes "safety check is not an object") (λ check.
          unique check (words "id code message")
          >> mark_opaque_string_fields check (words "id code message"))
        else shape n (codes "array") key
  ]

-- `walkResponsesComputerCall`
unfoldable pub walk_responses_computer_call : Node → Done
unfolding unique mark_opaque_string_fields walk_responses_safety_checks field
    walk_responses_computer_action each elements
walk_responses_computer_call v = do
  unique v (words "type id call_id pending_safety_checks status action actions")
  mark_opaque_string_fields v (words "id call_id status")
  walk_responses_safety_checks v (codes "pending_safety_checks") true
  action ← field v (codes "action")
  actions ← field v (codes "actions")
  for_some action walk_responses_computer_action
  for_some actions (λ n.
      if is_array n
      then each (elements n) walk_responses_computer_action
      else shape n (codes "array") (codes "computer actions"))

-- `walkResponsesComputerOutput`
unfoldable pub walk_responses_computer_output : Node → Done
unfolding unique mark_opaque_string_fields walk_responses_safety_checks mark_type bytes_eq
walk_responses_computer_output v = do
  unique v (words "type call_id output id acknowledged_safety_checks status")
  mark_opaque_string_fields v (words "call_id id status")
  walk_responses_safety_checks v (codes "acknowledged_safety_checks") false
  output ← required_object v (codes "output")
  unique output (words "type file_id image_url")
  output_type ← mark_type output
  if bytes_eq output_type (codes "computer_screenshot")
      then mark_opaque_string_fields output (words "file_id image_url")
      else unsupported_value output (codes "unknown computer output type ") output_type

-- `walkResponsesWebSearchSources`
unfoldable pub walk_responses_web_search_sources : Node → Done
unfolding with_value each_object elements unique mark_type bytes_eq mark_required
walk_responses_web_search_sources action = with_value action (codes "sources") λ sources.
    if is_array sources
    then each_object (elements sources) (codes "web-search source is not an object") (λ source. do
      unique source (words "type url")
      source_type ← mark_type source
      if bytes_eq source_type (codes "url")
          then mark_required source (codes "url")
          else unsupported_value source (codes "unknown web-search source type ") source_type)
    else shape sources (codes "array") (codes "web-search sources")

-- The `switch` of `walkResponsesWebSearch`
unfoldable pub walk_search_action : Bytes → Node → Done
unfolding bytes_eq with_field add_queries elements walk_responses_web_search_sources
    mark_opaque_string_field add_required
walk_search_action action_type action =
    if bytes_eq action_type (codes "search")
    then (do
      query ← string_field action (codes "query")
      for_some query (λ v. add v scope_tool_input natural_text direct)
      with_field action (codes "queries") (λ queries.
          if is_array queries
          then add_queries (elements queries) (codes "web-search query is not a string")
          else shape queries (codes "array") (codes "web-search queries"))
      walk_responses_web_search_sources action)
    else if bytes_eq action_type (codes "open_page")
    then mark_opaque_string_field action (codes "url") false true
    else if bytes_eq action_type (codes "find_in_page")
    then (mark_opaque_string_field action (codes "url") true false
        >> add_required action (codes "pattern") scope_tool_input natural_text direct)
    else unsupported_value action (codes "unknown web-search action type ") action_type

-- `walkResponsesWebSearch`
unfoldable pub walk_responses_web_search : Node → Done
unfolding unique mark_opaque_string_fields mark_type walk_search_action
walk_responses_web_search v = do
  unique v (words "type id action status")
  mark_opaque_string_fields v (words "id status")
  action ← required_object v (codes "action")
  unique action (words "type query queries sources url pattern")
  action_type ← mark_type action
  walk_search_action action_type action
