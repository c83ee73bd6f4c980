-- ===== src/Walker/Registry/OpenAi.antt =====
-- What is said in a chat completions request, and what a tool is called with, is inspected.
use cpa_plugin_privacyfilter.Base.{
  ℕ, Bool, true, some, [], ◌∷◌, Any, ◌≡◌, ◌⊎◌, refl, sym, subst, inl, inr, Bytes, bytes_eq,
}
use cpa_plugin_privacyfilter.Base.Text.{codes, any_of}
use cpa_plugin_privacyfilter.Payload.Token.{JsonPath, Document}
use cpa_plugin_privacyfilter.Walker.{
  Scope, scope_system, scope_user, scope_assistant, scope_tool_input, scope_tool_output, TargetKind,
  natural_text, tool_output, Mutability, direct, json_or_plain,
}
use cpa_plugin_privacyfilter.Walker.Tree.{
  TreeString, Node, string_node, object_node, array_node, number_node, boolean_node, null_node,
  Members, Nodes, values_of, items_of,
}
use cpa_plugin_privacyfilter.Walker.Steps.{Action, adds}
use cpa_plugin_privacyfilter.Walker.Fields.{scope_for_role}
use cpa_plugin_privacyfilter.Walker.Collect.{Collector, going}
use cpa_plugin_privacyfilter.Walker.Common.{
  text_block_types, walk_text_block_of, walk_typed_text_block, walk_typed_text_content,
}
use cpa_plugin_privacyfilter.Walker.OpenAi.{
  walk_message_content, walk_message_as, walk_open_ai_message, walk_open_ai,
}
use cpa_plugin_privacyfilter.Walker.Reached.{
  Reached, after, before, from, Any-map, field-one, string_field-one, required_string-one, IsTarget,
  Has, reached_each, required_array-one,
}
use cpa_plugin_privacyfilter.Walker.Registry.{open_ai, walk_of, walk_root}
use cpa_plugin_privacyfilter.Walker.Registry.Reached.{walk_root-Has}

-- How the content of a message is inspected: a string as a whole, and in an array the text of each
-- block.
abbrev pub content_kind : Scope → Node → TargetKind
content_kind scope_tool_output (string_node path token) = tool_output
content_kind _ _ = natural_text

abbrev content_mutability : Scope → Node → Mutability
content_mutability scope_tool_output (string_node path token) = json_or_plain
content_mutability _ _ = direct

-- A block that is an object with the text at `text_path`: as its `text`, if its type is one of those for
-- text, or as its `refusal`, if its type is `refusal`.
pub record IsTextBlock (text_path : JsonPath) (text : TreeString) (n : Node) : Type 0 where
  pub place : JsonPath
  pub fields : Members
  pub type_path : JsonPath
  pub block_type : TreeString
  pub is_node : object_node place fields ≡ n
  pub has_type : values_of (codes "type") fields ≡ string_node type_path block_type ∷ []
  pub has_text :
      ((any_of (bytes_eq block_type.value) text_block_types ≡ true)
        × (values_of (codes "text") fields ≡ string_node text_path text ∷ []))
      ⊎ ((block_type.value ≡ codes "refusal")
          × (values_of (codes "refusal") fields ≡ string_node text_path text ∷ []))

module _ (text_path : JsonPath) (text : TreeString) where
  -- The content of a message that is the given text, or has a block with it.
  abbrev pub Says : Node → Type 0
  Says (string_node path token) = string_node path token ≡ string_node text_path text
  Says (array_node path blocks) = Any (IsTextBlock text_path text) (items_of blocks)
  Says n = ⊥

  abbrev added : Scope → Action
  added scope = adds (string_node text_path text) scope natural_text direct

  abbrev content_added : Scope → Node → Action
  content_added scope content =
      adds (string_node text_path text) scope (content_kind scope content)
        (content_mutability scope content)

  module _ (scope : Scope) (path : JsonPath) (ms : Members) where
    typed_text_reached :
        (block_type : Bytes)
        → any_of (bytes_eq block_type) text_block_types ≡ true
        → values_of (codes "text") ms ≡ string_node text_path text ∷ []
        → Reached (added scope) (walk_text_block_of block_type (object_node path ms) scope)
    unfolding walk_text_block_of
    typed_text_reached block_type allowed has_text = rw allowed (
        from _ _ (string_node text_path text)
          (required_string-one path ms (codes "text") text_path text has_text)
          (record { reaches = inl refl }))

    refusal_reached :
        values_of (codes "refusal") ms ≡ string_node text_path text ∷ []
        → Reached (added scope) (walk_text_block_of (codes "refusal") (object_node path ms) scope)
    unfolding walk_text_block_of any_of bytes_eq
    refusal_reached has_text =
        from _ _ (string_node text_path text)
          (required_string-one path ms (codes "refusal") text_path text has_text)
          (record { reaches = inl refl })

    block_of_reached :
        (block_type : TreeString)
        → ((any_of (bytes_eq block_type.value) text_block_types ≡ true)
            × (values_of (codes "text") ms ≡ string_node text_path text ∷ []))
          ⊎ ((block_type.value ≡ codes "refusal")
              × (values_of (codes "refusal") ms ≡ string_node text_path text ∷ []))
        → Reached (added scope) (walk_text_block_of block_type.value (object_node path ms) scope)
    block_of_reached block_type (inl (allowed, has_text)) =
        typed_text_reached block_type.value allowed has_text
    block_of_reached block_type (inr (is_refusal, has_text)) =
        subst (λ t. Reached (added scope) (walk_text_block_of t (object_node path ms) scope))
          (sym is_refusal) (refusal_reached has_text)

    object_block_reached :
        (type_path : JsonPath) (block_type : TreeString)
        → values_of (codes "type") ms ≡ string_node type_path block_type ∷ []
        → Reached (added scope) (walk_text_block_of block_type.value (object_node path ms) scope)
        → Reached (added scope) (walk_typed_text_block (object_node path ms) scope)
    unfolding walk_typed_text_block
    object_block_reached type_path block_type has_type h = after _ _ λ u. after _ _ λ u.
        after _ _ λ u. after _ _ λ u.
          from _ _ (some (string_node type_path block_type))
            (string_field-one path ms (codes "type") type_path block_type has_type)
            (after _ _ λ u. h)

  module _ (scope : Scope) where
    block_reached :
        (n : Node)
        → IsTextBlock text_path text n
        → Reached (added scope) (walk_typed_text_block n scope)
    block_reached n h =
        subst (λ n. Reached (added scope) (walk_typed_text_block n scope)) h.is_node
          (object_block_reached scope h.place h.fields h.type_path h.block_type h.has_type
            (block_of_reached scope h.place h.fields h.block_type h.has_text))

    array_reached :
        (path : JsonPath) (blocks : Nodes)
        → Any (IsTextBlock text_path text) (items_of blocks)
        → Reached (added scope) (walk_typed_text_content (array_node path blocks) scope)
    unfolding walk_typed_text_content
    array_reached path blocks h =
        reached_each (items_of blocks) (λ block. walk_typed_text_block block scope)
          (Any-map (IsTextBlock text_path text) _ block_reached (items_of blocks) h)

  content_reached :
      (content : Node) (scope : Scope)
      → Says content
      → Reached (content_added scope content) (walk_message_content content scope)
  unfolding walk_message_content walk_typed_text_content
  content_reached (string_node path token) scope_system h = rw h (record { reaches = inl refl })
  content_reached (string_node path token) scope_user h = rw h (record { reaches = inl refl })
  content_reached (string_node path token) scope_assistant h = rw h (record { reaches = inl refl })
  content_reached (string_node path token) scope_tool_input h = rw h (record { reaches = inl refl })
  content_reached (string_node path token) scope_tool_output h =
      rw h (record { reaches = inl refl })
  content_reached (array_node path blocks) scope_system h = array_reached scope_system path blocks h
  content_reached (array_node path blocks) scope_user h = array_reached scope_user path blocks h
  content_reached (array_node path blocks) scope_assistant h =
      array_reached scope_assistant path blocks h
  content_reached (array_node path blocks) scope_tool_input h =
      array_reached scope_tool_input path blocks h
  content_reached (array_node path blocks) scope_tool_output h =
      array_reached scope_tool_output path blocks h
  content_reached (object_node path ms) scope h = absurd h
  content_reached (number_node path) scope h = absurd h
  content_reached (boolean_node path b) scope h = absurd h
  content_reached (null_node path) scope h = absurd h

module _ (path : JsonPath) (ms : Members) (role_path text_path : JsonPath) (role text : TreeString)
    (content : Node) (scope : Scope)
    (has_role : values_of (codes "role") ms ≡ string_node role_path role ∷ [])
    (has_content : values_of (codes "content") ms ≡ content ∷ [])
    (says : Says text_path text content) (known : scope_for_role role.value ≡ some scope) where
  message_as_reached :
      Reached
        (content_added text_path text scope content)
        (walk_message_as (some scope) (string_node role_path role) (object_node path ms))
  unfolding walk_message_as
  message_as_reached = after _ _ λ u. before _ _ (
      from _ _ (some content) (field-one path ms (codes "content") content has_content)
        (content_reached text_path text content scope says))

  message_reached :
      Reached
        (content_added text_path text scope content)
        (walk_open_ai_message (object_node path ms))
  unfolding walk_open_ai_message
  message_reached = after _ _ λ u. after _ _ λ u. after _ _ λ u. after _ _ λ u.
      from _ _ (string_node role_path role)
        (required_string-one path ms (codes "role") role_path role has_role)
        (after _ _ λ u.
          subst
            (λ known.
              Reached (content_added text_path text scope content)
                (walk_message_as known (string_node role_path role) (object_node path ms)))
            (sym known) message_as_reached)

module _ (root_path messages_path : JsonPath) (root_ms : Members) (items : Nodes)
    (has_messages : values_of (codes "messages") root_ms ≡ array_node messages_path items ∷ [])
    (path : JsonPath) (ms : Members)
    (is_message : Any (λ n. object_node path ms ≡ n) (items_of items))
    (role_path text_path : JsonPath) (role text : TreeString) (content : Node) (scope : Scope)
    (has_role : values_of (codes "role") ms ≡ string_node role_path role ∷ [])
    (has_content : values_of (codes "content") ms ≡ content ∷ [])
    (says : Says text_path text content) (known : scope_for_role role.value ≡ some scope) where
  request_reached :
      Reached
        (content_added text_path text scope content)
        (walk_open_ai (object_node root_path root_ms))
  unfolding walk_open_ai
  request_reached = after _ _ λ u. after _ _ λ u.
      from _ _ (array_node messages_path items)
        (required_array-one root_path root_ms (codes "messages") messages_path items has_messages)
        (before _ _ (
          reached_each (items_of items) walk_open_ai_message (
            Any-map (λ n. object_node path ms ≡ n) _
              (λ n e.
                subst
                  (λ n.
                    Reached (content_added text_path text scope content) (walk_open_ai_message n))
                  e
                  (message_reached path ms role_path text_path role text content scope has_role
                    has_content says known))
              (items_of items) is_message)))

  -- If the walk of a chat completions request succeeds, what the content of a message with a known
  -- role says is a target, with its place, its value and the scope of the role: the content itself, if
  -- it is a string, as tool output where the role is that of a tool and as natural text elsewhere; and
  -- if it is an array, the text of each text block and of each refusal, as natural text.
  pub walk_root-IsTarget :
      (canceled : ℕ → Bool) (d : Document) (c c' : Collector)
      → walk_root canceled d open_ai (object_node root_path root_ms) c ≡ going c'
      → Any (IsTarget text scope (content_kind scope content)) c'.selection.found
  walk_root-IsTarget canceled d c c' h = subst (Has text scope (content_kind scope content)) h (
      walk_root-Has text scope (content_kind scope content) canceled d text_path
        (content_mutability scope content) open_ai (object_node root_path root_ms) c
        (unfold walk_of in request_reached.reaches))
