-- ===== src/Walker/Responses/Shells.antt =====
-- The code interpreter, the shells, the patches and the MCP items of walker/responses.go.
use cpa_plugin_privacyfilter.Base.{
  ◌++◌, true, false, none, some, List, if◌then◌else◌, Bytes, bytes_eq,
}
use cpa_plugin_privacyfilter.Base.Text.{words, codes, any_of}
use cpa_plugin_privacyfilter.Walker.{
  Scope, scope_system, scope_user, scope_tool_input, scope_tool_output, natural_text, encoded_json,
  json_value, tool_output, code_text, execution_output, direct, mutable_encoded_json, json_or_plain,
  plain,
}
use cpa_plugin_privacyfilter.Walker.Tree.{
  Node, Members, no_members, member, is_string, is_object, is_array, elements, members_of,
}
use cpa_plugin_privacyfilter.Walker.Steps.{Done, done, add, unsupported, each, ◌>>=◌, ◌>>◌}
use cpa_plugin_privacyfilter.Walker.Fields.{
  shape, missing, field, with_field, with_value, unique, unsupported_value,
  mark_opaque_string_field, mark_opaque_string_fields, add_string_field, walk_string_values,
  string_field, required_object, required_array, each_object, for_some, add_required, mark_type,
  string_or_null,
}
use cpa_plugin_privacyfilter.Walker.Responses.Calls.{
  walk_responses_caller_field, walk_responses_environment_field,
}

-- A turn of the loop over the outputs of `walkResponsesCodeInterpreter`.
unfoldable pub walk_interpreter_output : Node → Done
unfolding unique mark_type bytes_eq add_required mark_opaque_string_field
walk_interpreter_output output = do
  unique output (words "type logs url")
  output_type ← mark_type output
  if bytes_eq output_type (codes "logs")
      then add_required output (codes "logs") scope_tool_output execution_output direct
      else if bytes_eq output_type (codes "image")
      then mark_opaque_string_field output (codes "url") true false
      else unsupported_value output (codes "unknown code-interpreter output type ") output_type

-- `walkResponsesCodeInterpreter`
unfoldable pub walk_responses_code_interpreter : Node → Done
unfolding unique mark_opaque_string_fields string_or_null with_value each_object elements
    walk_interpreter_output
walk_responses_code_interpreter v = do
  unique v (words "type code outputs id container_id status")
  mark_opaque_string_fields v (words "id container_id status")
  string_or_null v (codes "code") (codes "code")
      (λ code. add code scope_tool_input code_text direct)
  with_value v (codes "outputs") (λ outputs.
      if is_array outputs
      then each_object (elements outputs) (codes "code-interpreter output is not an object")
          walk_interpreter_output
      else shape outputs (codes "array or null") (codes "code-interpreter outputs"))

-- The loop over commands, with the text of the issue.
unfoldable pub add_commands : List Node → Bytes → Done
unfolding each
add_commands commands detail = each commands (λ command.
    if is_string command
    then add command scope_tool_input code_text direct
    else unsupported command (plain detail))

-- The loop of `walkResponsesStringMap`
unfoldable pub add_entries : Members → Scope → Done
add_entries no_members scope = done
add_entries (member key n rest) scope =
    (if is_string n
      then add n scope json_value direct
      else unsupported n (plain (codes "string-map value is not a string")))
    >> add_entries rest scope

-- `walkResponsesStringMap`
unfoldable pub walk_responses_string_map : Node → Scope → Done
unfolding add_entries
walk_responses_string_map n scope =
    if is_object n
    then add_entries (members_of n) scope
    else shape n (codes "object") (codes "string map")

-- `walkResponsesLocalShell`, of an action that is run
unfoldable pub walk_local_action : Node → Done
unfolding mark_opaque_string_fields add_commands elements field walk_responses_string_map
walk_local_action action = do
  mark_opaque_string_fields action (words "user working_directory")
  commands ← required_array action (codes "command")
  add_commands (elements commands) (codes "local-shell command is not a string")
  env ← field action (codes "env")
  elim env [
    | none ↦ missing action (codes "env") (codes "object")
    | some n ↦ walk_responses_string_map n scope_tool_input
  ]

-- `walkResponsesLocalShell`
unfoldable pub walk_responses_local_shell : Node → Done
unfolding unique mark_opaque_string_fields mark_type bytes_eq walk_local_action
walk_responses_local_shell v = do
  unique v (words "type id action call_id status")
  mark_opaque_string_fields v (words "id call_id status")
  action ← required_object v (codes "action")
  unique action (words "type command env timeout_ms user working_directory")
  action_type ← mark_type action
  if bytes_eq action_type (codes "exec")
      then walk_local_action action
      else unsupported_value action (codes "unknown local-shell action type ") action_type

-- `walkResponsesLocalShellOutput`
unfoldable pub walk_responses_local_shell_output : Node → Done
unfolding unique mark_opaque_string_fields add_required
walk_responses_local_shell_output v = do
  unique v (words "type id output status")
  mark_opaque_string_fields v (words "id status")
  add_required v (codes "output") scope_tool_output tool_output json_or_plain

-- `walkResponsesShellCall`
unfoldable pub walk_responses_shell_call : Node → Done
unfolding unique mark_opaque_string_fields walk_responses_caller_field
    walk_responses_environment_field add_commands elements
walk_responses_shell_call v = do
  unique v (words "type action call_id id caller environment status")
  mark_opaque_string_fields v (words "call_id id status")
  walk_responses_caller_field v
  walk_responses_environment_field v
  action ← required_object v (codes "action")
  unique action (words "commands max_output_length timeout_ms")
  commands ← required_array action (codes "commands")
  add_commands (elements commands) (codes "shell command is not a string")

-- A turn of the loop of `walkResponsesShellOutput`.
unfoldable pub walk_shell_chunk : Node → Done
unfolding unique mark_type any_of bytes_eq add_required
walk_shell_chunk chunk = do
  unique chunk (words "outcome stderr stdout")
  outcome ← required_object chunk (codes "outcome")
  unique outcome (words "type exit_code")
  outcome_type ← mark_type outcome
  if any_of (bytes_eq outcome_type) (words "timeout exit")
      then done
      else unsupported_value outcome (codes "unknown shell outcome type ") outcome_type
  add_required chunk (codes "stdout") scope_tool_output execution_output direct
  add_required chunk (codes "stderr") scope_tool_output execution_output direct

-- `walkResponsesShellOutput`
unfoldable pub walk_responses_shell_output : Node → Done
unfolding unique mark_opaque_string_fields walk_responses_caller_field each_object elements
    walk_shell_chunk
walk_responses_shell_output v = do
  unique v (words "type call_id output id max_output_length caller status")
  mark_opaque_string_fields v (words "call_id id status")
  walk_responses_caller_field v
  output ← required_array v (codes "output")
  each_object (elements output) (codes "shell output chunk is not an object") walk_shell_chunk

-- `walkResponsesApplyPatch`
unfoldable pub walk_responses_apply_patch : Node → Done
unfolding unique mark_opaque_string_fields walk_responses_caller_field mark_type
    mark_opaque_string_field any_of bytes_eq add_required
walk_responses_apply_patch v = do
  unique v (words "type call_id operation status id caller")
  mark_opaque_string_fields v (words "call_id status id")
  walk_responses_caller_field v
  operation ← required_object v (codes "operation")
  unique operation (words "type diff path")
  operation_type ← mark_type operation
  mark_opaque_string_field operation (codes "path") true false
  if any_of (bytes_eq operation_type) (words "create_file update_file")
      then add_required operation (codes "diff") scope_tool_input code_text direct
      else if bytes_eq operation_type (codes "delete_file")
      then done
      else unsupported_value operation (codes "unknown apply-patch operation type ") operation_type

-- `walkResponsesApplyPatchOutput`
unfoldable pub walk_responses_apply_patch_output : Node → Done
unfolding unique mark_opaque_string_fields walk_responses_caller_field string_or_null
walk_responses_apply_patch_output v = do
  unique v (words "type call_id status id output caller")
  mark_opaque_string_fields v (words "call_id status id")
  walk_responses_caller_field v
  string_or_null v (codes "output") (codes "apply-patch output")
      (λ output. add output scope_tool_output execution_output direct)

-- A turn of the loop of `walkResponsesMCPListTools`.
unfoldable pub walk_listed_tool : Node → Done
unfolding unique mark_opaque_string_field add_string_field field walk_string_values with_field
walk_listed_tool tool = do
  unique tool (words "name description input_schema annotations")
  mark_opaque_string_field tool (codes "name") true false
  add_string_field tool (codes "description") false true scope_system natural_text
  input_schema ← field tool (codes "input_schema")
  elim input_schema [
    | none ↦ missing tool (codes "input_schema") (codes "JSON value")
    | some n ↦ walk_string_values n scope_system json_value
  ]
  with_field tool (codes "annotations") (λ n. walk_string_values n scope_system json_value)

-- `walkResponsesMCPListTools`
unfoldable pub walk_responses_mcp_list_tools : Node → Done
unfolding unique mark_opaque_string_fields string_or_null with_value each_object elements
    walk_listed_tool
walk_responses_mcp_list_tools v = do
  unique v (words "type id server_label tools error")
  mark_opaque_string_fields v (words "id server_label")
  string_or_null v (codes "error") (codes "MCP list-tools error")
      (λ text. add text scope_tool_output tool_output direct)
  with_value v (codes "tools") (λ tools.
      if is_array tools
      then each_object (elements tools) (codes "MCP listed tool is not an object") walk_listed_tool
      else shape tools (codes "array or null") (codes "MCP listed tools"))

-- `walkResponsesMCPApprovalRequest`
unfoldable pub walk_responses_mcp_approval_request : Node → Done
unfolding unique mark_opaque_string_fields add_required
walk_responses_mcp_approval_request v = do
  unique v (words "type arguments id name server_label")
  mark_opaque_string_fields v (words "id name server_label")
  add_required v (codes "arguments") scope_tool_input encoded_json mutable_encoded_json

-- `walkResponsesMCPApprovalResponse`
unfoldable pub walk_responses_mcp_approval_response : Node → Done
unfolding unique mark_opaque_string_fields string_or_null
walk_responses_mcp_approval_response v = do
  unique v (words "type approval_request_id approve id reason")
  mark_opaque_string_fields v (words "approval_request_id id")
  string_or_null v (codes "reason") (codes "MCP approval reason")
      (λ reason. add reason scope_user natural_text direct)

-- `walkResponsesMCPCall`
unfoldable pub walk_responses_mcp_call : Node → Done
unfolding unique mark_opaque_string_fields string_or_null
walk_responses_mcp_call v = do
  unique v (
      words "type arguments error output id approval_request_id name"
      ++ words "server_label status")
  mark_opaque_string_fields v (words "id approval_request_id name server_label status")
  arguments ← string_field v (codes "arguments")
  for_some arguments (λ n. add n scope_tool_input encoded_json mutable_encoded_json)
  string_or_null v (codes "error") (codes "MCP error")
      (λ text. add text scope_tool_output tool_output direct)
  string_or_null v (codes "output") (codes "MCP output")
      (λ text. add text scope_tool_output tool_output json_or_plain)
