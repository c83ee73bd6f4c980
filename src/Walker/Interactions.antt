-- ===== src/Walker/Interactions.antt =====
-- walker/interactions.go: what is read of an Interactions request.
pub mod Parts
use cpa_plugin_privacyfilter.Base.{
  ◌++◌, ℕ, zero, suc, ◌&&◌, ◌||◌, Bool, true, false, not, Option, none, some, List, [], ◌∷◌,
  if◌then◌else◌, Bytes, bytes_eq,
}
use cpa_plugin_privacyfilter.Base.Text.{words, codes, any_of}
use cpa_plugin_privacyfilter.Walker.{
  Scope, scope_system, scope_user, scope_assistant, scope_tool_input, natural_text, encoded_json,
  json_value, direct, mutable_encoded_json, plain, walk_internal, walk_ambiguous,
}
use cpa_plugin_privacyfilter.Walker.Tree.{
  Node, string_node, object_node, array_node, items_of, path_of, text_of, is_string, is_object,
  is_array, elements, depth_of,
}
use cpa_plugin_privacyfilter.Walker.Steps.{
  Walk, ret, refuse, Done, done, add, mark_opaque, unsupported, each, ◌>>=◌, ◌>>◌,
}
use cpa_plugin_privacyfilter.Walker.Fields.{
  shape, field, with_field, with_value, one_of, unique, unsupported_value, mark_fields,
  mark_opaque_string_field, mark_opaque_string_fields, add_string_field, walk_string_values,
  walk_string_object_field, string_field, required_string, scope_for_role, each_object, has,
  for_some,
}
use cpa_plugin_privacyfilter.Walker.Interactions.Parts.{
  walk_interactions_opaque_reasoning_fields, walk_interactions_natural_content,
  walk_interactions_parts, walk_interaction_tool_output,
}

-- `interactionsRootControlFields`
abbrev pub interactions_root_control_fields : List Bytes
interactions_root_control_fields =
    words "model agent agent_config background environment labels"
    ++ words "previous_interaction_id previous_response_id response_format"
    ++ words "response_mime_type response_modalities safety_settings"
    ++ words "service_tier store stream generation_config generationConfig"
    ++ words "webhook_config tool_choice ToolChoice parallel_tool_calls seed"
    ++ words "user metadata include truncation reasoning environment_id"

-- `interactionRoleScope`
unfoldable pub interaction_role_scope : Node → Scope → Walk (Scope × Bool)
unfolding scope_for_role
interaction_role_scope v inherited = do
  role ← string_field v (codes "role")
  elim role [
    | none ↦ ret (inherited, true)
    | some r ↦ mark_opaque r >> (elim (scope_for_role (text_of r)) [
      | none ↦
          unsupported_value r (codes "unknown step role ") (text_of r) >> ret (inherited, false)
      | some scope ↦ ret (scope, true)
    ])
  ]

-- A field of `walkInteractionNaturalFields`.
unfoldable pub natural_field : Node → Bytes → Bool → (Node → Done) → Walk Bool
unfolding field
natural_field v key role_ok f = do
  found ← field v key
  elim found [ none ↦ ret false | some n ↦ (if role_ok then f n else done) >> ret true ]

-- `walkInteractionNaturalFields`
unfoldable pub walk_interaction_natural_fields : Node → Scope → Bool → Walk Bool
unfolding natural_field walk_interactions_natural_content walk_interactions_parts depth_of
walk_interaction_natural_fields v scope role_ok = do
  content ←
      natural_field v (codes "content") role_ok
        (λ n. walk_interactions_natural_content (depth_of n) n scope)
  parts ←
      natural_field v (codes "parts") role_ok (λ n. walk_interactions_parts (depth_of n) n scope)
  text ← string_field v (codes "text")
  for_some text (λ n. if role_ok then add n scope natural_text direct else done)
  summary ←
      natural_field v (codes "summary") role_ok
        (λ n. walk_interactions_natural_content (depth_of n) n scope)
  ret (content || parts || has text || summary)

-- The natural fields, where it is not asked whether there are any.
abbrev walk_natural : Node → Scope → Done
unfolding walk_interaction_natural_fields
walk_natural v scope = walk_interaction_natural_fields v scope true >>= λ processed. done

-- The arguments of a call, and the output of a function.
unfoldable pub walk_call_arguments : Node → Done
unfolding with_value walk_string_values
walk_call_arguments v = with_value v (codes "arguments") λ arguments.
    if is_string arguments
    then add arguments scope_tool_input encoded_json mutable_encoded_json
    else walk_string_values arguments scope_tool_input json_value

-- The cases of the `switch` of `walkInteractionItem` that walk no steps.
unfoldable pub walk_leaf_item : Bytes → Node → Scope → Bool → Done
unfolding any_of bytes_eq walk_interactions_opaque_reasoning_fields walk_interaction_natural_fields
    walk_call_arguments with_value walk_interaction_tool_output
walk_leaf_item item_type v scope role_ok =
    if any_of (bytes_eq item_type) (words "thought reasoning")
    then (walk_interactions_opaque_reasoning_fields v >> walk_natural v scope_assistant)
    else if bytes_eq item_type (codes "function_call")
    then walk_call_arguments v
    else if bytes_eq item_type (codes "function_result")
    then with_value v (codes "result") walk_interaction_tool_output
    else if any_of (bytes_eq item_type) (words "function_call_output custom_tool_call_output")
    then with_value v (codes "output") walk_interaction_tool_output
    else if any_of (bytes_eq item_type) (words "text input_text output_text")
    then (if not role_ok then done else (do
      text ← required_string v (codes "text")
      add text (if bytes_eq item_type (codes "output_text") then scope_assistant else scope)
          natural_text direct))
    else if any_of (bytes_eq item_type) (
        words "image audio video document file computer_call web_search_call"
        ++ words "file_search_call image_generation_call")
    then unsupported v (plain (codes "typed interaction item is not safely mutable"))
    else unsupported_value v (codes "unknown step type ") item_type

-- `walkInteractionSteps`, of what is an array
abbrev walk_steps : (Node → Scope → Done) → Option Node → Scope → Done
unfolding each elements
walk_steps walk_item none scope = done
walk_steps walk_item (some steps) scope = each (elements steps) (λ nested. walk_item nested scope)

-- `walkInteractionItem` of an object with a type.
unfoldable pub walk_typed_item :
    (Node → Scope → Done) → Bytes → Option Node → Node → Scope → Bool → Done
unfolding bytes_eq each elements walk_interaction_natural_fields
    walk_interactions_opaque_reasoning_fields walk_leaf_item
walk_typed_item walk_item item_type steps v scope role_ok =
    if bytes_eq item_type (codes "user_input")
    then (if role_ok
        then walk_steps walk_item steps scope_user >> walk_natural v scope_user
        else done)
    else if bytes_eq item_type (codes "model_output")
    then (do
      walk_interactions_opaque_reasoning_fields v
      if role_ok
          then walk_steps walk_item steps scope_assistant >> walk_natural v scope_assistant
          else done)
    else walk_leaf_item item_type v scope role_ok

-- `walkInteractionItem` of an object with no type.
unfoldable pub walk_untyped_item : (Node → Scope → Done) → Option Node → Node → Scope → Bool → Done
unfolding each elements walk_interaction_natural_fields
walk_untyped_item walk_item steps v scope role_ok = do
  if role_ok then walk_steps walk_item steps scope else done
  processed ← walk_interaction_natural_fields v scope role_ok
  if not processed && not (has steps)
      then unsupported v (plain (codes "step has no recognized type or natural-text field"))
      else done

-- `walkInteractionItem` of an object
unfoldable pub walk_object_item : (Node → Scope → Done) → Node → Scope → Done
unfolding unique mark_opaque_string_fields interaction_role_scope field walk_untyped_item
    walk_typed_item
walk_object_item walk_item v inherited = do
  unique v (
      words "type role steps content parts text summary arguments result output"
      ++ words "thought thinking redacted_thinking signature thoughtSignature"
      ++ words "thought_signature id name call_id tool_use_id model")
  mark_opaque_string_fields v (
      words "signature thoughtSignature thought_signature id name call_id"
      ++ words "tool_use_id model")
  read ← interaction_role_scope v inherited
  steps ← field v (codes "steps")
  for_some steps (λ n. if is_array n then done else shape n (codes "array") (codes "nested steps"))
  type_node ← string_field v (codes "type")
  elim type_node [
    | none ↦ walk_untyped_item walk_item steps v read.0 read.1
    | some t ↦ mark_opaque t >> walk_typed_item walk_item (text_of t) steps v read.0 read.1
  ]

-- `walkInteractionItem`, on fuel: a nested step is deeper in the tree than the item.
unfoldable pub walk_interaction_item : ℕ → Node → Scope → Done
unfolding walk_object_item
walk_interaction_item zero v inherited = refuse walk_internal
walk_interaction_item (suc fuel) v inherited =
    if is_string v
    then add v inherited natural_text direct
    else if is_object v
    then walk_object_item (walk_interaction_item fuel) v inherited
    else unsupported v (plain (codes "step is neither a string nor object"))

abbrev walk_item_at : Node → Scope → Done
unfolding walk_interaction_item depth_of
walk_item_at v inherited = walk_interaction_item (depth_of v) v inherited

-- `walkInteractionsInput`
unfoldable pub walk_interactions_input : Node → Scope → Done
unfolding each items_of walk_interaction_item depth_of
walk_interactions_input (string_node path token) inherited =
    add (string_node path token) inherited natural_text direct
walk_interactions_input (array_node path items) inherited =
    each (items_of items) (λ v. walk_item_at v inherited)
walk_interactions_input (object_node path ms) inherited =
    walk_item_at (object_node path ms) inherited
walk_interactions_input n inherited = shape n (codes "string, object, or array") (codes "input")

-- The object of `walkInteractionsSystem`
unfoldable pub walk_system_object : Node → Done
unfolding unique mark_opaque_string_fields field walk_interactions_parts
    walk_interactions_natural_content depth_of
walk_system_object system = do
  unique system (words "text parts content role type id name signature")
  mark_opaque_string_fields system (words "role type id name signature")
  text ← string_field system (codes "text")
  parts ← field system (codes "parts")
  if has text && has parts
      then refuse (walk_ambiguous (path_of system) (words "text parts"))
      else elim text [
        | some v ↦ add v scope_system natural_text direct
        | none ↦ elim parts [
          | some v ↦ walk_interactions_parts (depth_of v) v scope_system
          | none ↦ (do
            content ← field system (codes "content")
            elim content [
              | some v ↦ walk_interactions_natural_content (depth_of v) v scope_system
              | none ↦ unsupported system (plain (codes "system instruction has no text or parts"))
            ])
        ]
      ]

-- `walkInteractionsSystem`
unfoldable pub walk_interactions_system : Node → Done
unfolding walk_system_object
walk_interactions_system (string_node path token) =
    add (string_node path token) scope_system natural_text direct
walk_interactions_system (object_node path ms) = walk_system_object (object_node path ms)
walk_interactions_system n = shape n (codes "string or object") (codes "system instruction")

-- A turn of the loop of `walkInteractionsToolDefinitions`.
unfoldable pub walk_interactions_tool : Node → Done
unfolding unique bytes_eq mark_opaque_string_field add_string_field walk_string_object_field
walk_interactions_tool tool = do
  unique tool (words "type name description parameters strict defer_loading")
  type_node ← required_string tool (codes "type")
  mark_opaque type_node
  if not (bytes_eq (text_of type_node) (codes "function"))
      then unsupported_value tool (codes "unknown tool definition type ") (text_of type_node)
      else (do
        mark_opaque_string_field tool (codes "name") true false
        add_string_field tool (codes "description") false true scope_system natural_text
        walk_string_object_field tool (codes "parameters") true false scope_system)

-- `walkInteractionsToolDefinitions`
unfoldable pub walk_interactions_tool_definitions : Node → Done
unfolding with_field each_object elements walk_interactions_tool
walk_interactions_tool_definitions root = with_field root (codes "tools") λ tools.
    if is_array tools
    then each_object (elements tools) (codes "tool definition is not an object")
        walk_interactions_tool
    else shape tools (codes "array") (codes "tools")

-- `walkInteractions`
unfoldable pub walk_interactions : Node → Done
unfolding unique mark_fields one_of walk_interactions_system with_field walk_interactions_input each
    elements walk_interaction_item depth_of walk_interactions_tool_definitions
walk_interactions root = do
  unique root (words "system_instruction systemInstruction input steps tools")
  mark_fields root interactions_root_control_fields
  system ← one_of root (words "system_instruction systemInstruction")
  for_some system walk_interactions_system
  with_field root (codes "input") (λ input. walk_interactions_input input scope_user)
  with_field root (codes "steps") (λ steps.
      if is_array steps
      then each (elements steps) (λ v. walk_item_at v scope_user)
      else shape steps (codes "array") (codes "steps"))
  walk_interactions_tool_definitions root
