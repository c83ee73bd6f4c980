-- ===== src/Walker/Registry/Claude.antt =====
-- What a message of a messages request says is inspected.
use cpa_plugin_privacyfilter.Base.{ℕ, Bool, some, [], ◌∷◌, Any, ◌≡◌, refl, sym, subst, inl}
use cpa_plugin_privacyfilter.Base.Text.{codes}
use cpa_plugin_privacyfilter.Payload.Token.{JsonPath, Document}
use cpa_plugin_privacyfilter.Walker.{Scope, natural_text, direct}
use cpa_plugin_privacyfilter.Walker.Tree.{
  TreeString, Node, string_node, object_node, array_node, number_node, boolean_node, null_node,
  Members, Nodes, values_of, items_of,
}
use cpa_plugin_privacyfilter.Walker.Steps.{Action, adds}
use cpa_plugin_privacyfilter.Walker.Fields.{scope_for_role}
use cpa_plugin_privacyfilter.Walker.Collect.{Collector, going}
use cpa_plugin_privacyfilter.Walker.Claude.{
  walk_content_block_of, walk_claude_content_block, walk_claude_content, walk_claude_message,
  walk_claude,
}
use cpa_plugin_privacyfilter.Walker.Reached.{
  Reached, after, before, from, Any-map, field-one, string_field-one, required_string-one, IsTarget,
  Has, reached_each, required_array-one,
}
use cpa_plugin_privacyfilter.Walker.Registry.{claude, walk_of, walk_root}
use cpa_plugin_privacyfilter.Walker.Registry.Reached.{walk_root-Has}

abbrev said : JsonPath → TreeString → Scope → Action
said path text scope = adds (string_node path text) scope natural_text direct

-- A block that is an object with the type `text` and the given text.
pub record IsTextBlock (text_path : JsonPath) (text : TreeString) (n : Node) : Type 0 where
  pub place : JsonPath
  pub fields : Members
  pub type_path : JsonPath
  pub block_type : TreeString
  pub is_node : object_node place fields ≡ n
  pub has_type : values_of (codes "type") fields ≡ string_node type_path block_type ∷ []
  pub is_text : block_type.value ≡ codes "text"
  pub has_text : values_of (codes "text") fields ≡ string_node text_path text ∷ []

module _ (text_path : JsonPath) (text : TreeString) (scope : Scope) where
  text_block_reached :
      (path : JsonPath) (ms : Members)
      → values_of (codes "text") ms ≡ string_node text_path text ∷ []
      → Reached
          (said text_path text scope)
          (walk_content_block_of (codes "text") (object_node path ms) scope)
  unfolding walk_content_block_of
  text_block_reached path ms has_text = after _ _ λ u. after _ _ λ u. after _ _ λ u.
      from _ _ (string_node text_path text)
        (required_string-one path ms (codes "text") text_path text has_text)
        (record { reaches = inl refl })

  object_block_reached :
      (path : JsonPath) (ms : Members) (type_path : JsonPath) (block_type : TreeString)
      → values_of (codes "type") ms ≡ string_node type_path block_type ∷ []
      → block_type.value ≡ codes "text"
      → values_of (codes "text") ms ≡ string_node text_path text ∷ []
      → Reached (said text_path text scope) (walk_claude_content_block (object_node path ms) scope)
  unfolding walk_claude_content_block
  object_block_reached path ms type_path block_type has_type is_text has_text = after _ _ λ u.
      from _ _ (some (string_node type_path block_type))
        (string_field-one path ms (codes "type") type_path block_type has_type)
        (after _ _ λ u.
          subst
            (λ t.
              Reached (said text_path text scope)
                (walk_content_block_of t (object_node path ms) scope))
            (sym is_text) (text_block_reached path ms has_text))

  block_reached :
      (n : Node)
      → IsTextBlock text_path text n
      → Reached (said text_path text scope) (walk_claude_content_block n scope)
  block_reached n h =
      subst (λ n. Reached (said text_path text scope) (walk_claude_content_block n scope)) h.is_node
        (object_block_reached h.place h.fields h.type_path h.block_type h.has_type h.is_text
          h.has_text)

  -- The content of a message that is the given text, or has a block that is.
  abbrev pub Says : Node → Type 0
  Says (string_node path token) = string_node path token ≡ string_node text_path text
  Says (array_node path blocks) = Any (IsTextBlock text_path text) (items_of blocks)
  Says n = ⊥

  claude_content_reached :
      (content : Node)
      → Says content
      → Reached (said text_path text scope) (walk_claude_content content scope)
  unfolding walk_claude_content
  claude_content_reached (string_node path token) h = rw h (record { reaches = inl refl })
  claude_content_reached (array_node path blocks) h =
      reached_each (items_of blocks) (λ block. walk_claude_content_block block scope)
        (Any-map (IsTextBlock text_path text) _ block_reached (items_of blocks) h)
  claude_content_reached (object_node path ms) h = absurd h
  claude_content_reached (number_node path) h = absurd h
  claude_content_reached (boolean_node path b) h = absurd h
  claude_content_reached (null_node path) h = absurd h

module _ (path : JsonPath) (ms : Members) (role_path text_path : JsonPath) (role text : TreeString)
    (content : Node) (scope : Scope)
    (has_role : values_of (codes "role") ms ≡ string_node role_path role ∷ [])
    (known : scope_for_role role.value ≡ some scope)
    (has_content : values_of (codes "content") ms ≡ content ∷ [])
    (says : Says text_path text scope content) where
  claude_message_reached :
      Reached (said text_path text scope) (walk_claude_message (object_node path ms))
  unfolding walk_claude_message
  claude_message_reached = after _ _ λ u. after _ _ λ u.
      from _ _ (string_node role_path role)
        (required_string-one path ms (codes "role") role_path role has_role)
        (after _ _ λ u. rw known (
          from _ _ (some content) (field-one path ms (codes "content") content has_content)
            (claude_content_reached text_path text scope content says)))

module _ (root_path messages_path : JsonPath) (root_ms : Members) (items : Nodes)
    (has_messages : values_of (codes "messages") root_ms ≡ array_node messages_path items ∷ [])
    (path : JsonPath) (ms : Members)
    (is_message : Any (λ n. object_node path ms ≡ n) (items_of items))
    (role_path text_path : JsonPath) (role text : TreeString) (content : Node) (scope : Scope)
    (has_role : values_of (codes "role") ms ≡ string_node role_path role ∷ [])
    (known : scope_for_role role.value ≡ some scope)
    (has_content : values_of (codes "content") ms ≡ content ∷ [])
    (says : Says text_path text scope content) where
  claude_reached : Reached (said text_path text scope) (walk_claude (object_node root_path root_ms))
  unfolding walk_claude
  claude_reached = after _ _ λ u. after _ _ λ u. after _ _ λ u.
      from _ _ (array_node messages_path items)
        (required_array-one root_path root_ms (codes "messages") messages_path items has_messages)
        (before _ _ (
          reached_each (items_of items) walk_claude_message (
            Any-map (λ n. object_node path ms ≡ n) _
              (λ n e.
                subst (λ n. Reached (said text_path text scope) (walk_claude_message n)) e
                  (claude_message_reached path ms role_path text_path role text content scope
                    has_role known has_content says))
              (items_of items) is_message)))

  -- If the walk of a messages request succeeds, what a message with a known role says is a target,
  -- as natural text with the scope of the role: its content, if that is a string, and the text of
  -- each text block of it, if it is an array.
  pub walk_root-Says :
      (canceled : ℕ → Bool) (d : Document) (c c' : Collector)
      → walk_root canceled d claude (object_node root_path root_ms) c ≡ going c'
      → Any (IsTarget text scope natural_text) c'.selection.found
  walk_root-Says canceled d c c' h = subst (Has text scope natural_text) h (
      walk_root-Has text scope natural_text canceled d text_path direct claude
        (object_node root_path root_ms) c (unfold walk_of in claude_reached.reaches))
