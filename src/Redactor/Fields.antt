-- ===== src/Redactor/Fields.antt =====
-- `mergeStringKeyContexts` and `engineFieldContext` of redactor.go.
pub mod Kept
pub mod Appended
use cpa_plugin_privacyfilter.Base.{
  ℕ, ◌-◌, min, Bool, true, false, not, ◌&&◌, ◌||◌, Option, none, some, List, [], ◌∷◌, ◌++◌, leb,
  ◌==◌, if◌then◌else◌, Bytes, length, take,
}
use cpa_plugin_privacyfilter.Base.Text.{any_of}
use cpa_plugin_privacyfilter.Payload.Context.{StringKeyContext}
use cpa_plugin_privacyfilter.Walker.{Scope, scope_tool_input, scope_tool_output, TargetContext}
use cpa_plugin_privacyfilter.Secrets.Keys.{
  FieldContext, ToolScope, no_scope, tool_scope_input, tool_scope_output,
  max_field_context_ancestors, is_credential_ancestor_field_key,
}

-- `merged` while it is filled: the ancestors are the first elements of the array.
pub record Merged : Type 0 where
  pub immediate : Bytes
  pub filled : List Bytes

-- The closure `hasCredentialAncestorKey`
unfoldable pub has_credential_ancestor_key : Merged → Bool
unfolding is_credential_ancestor_field_key any_of
has_credential_ancestor_key m =
    is_credential_ancestor_field_key m.immediate || any_of is_credential_ancestor_field_key m.filled

-- The closure `appendAncestor`
unfoldable pub append_ancestor : Bytes → Merged → Merged
unfolding has_credential_ancestor_key
append_ancestor key m =
    if length key == 0
    then m
    else if leb max_field_context_ancestors (length m.filled)
    then (if is_credential_ancestor_field_key key && not (has_credential_ancestor_key m)
        then record {
          immediate = m.immediate;
          filled = take (max_field_context_ancestors - 1) m.filled ++ key ∷ [];
        }
        else m)
    else record { immediate = m.immediate; filled = m.filled ++ key ∷ [] }

unfoldable pub append_ancestors : List Bytes → Merged → Merged
unfolding append_ancestor
append_ancestors [] m = m
append_ancestors (key ∷ keys) m = append_ancestors keys (append_ancestor key m)

-- The elements of the array that count.
abbrev pub counted : StringKeyContext → List Bytes
counted c = take (min c.ancestor_count max_field_context_ancestors) c.ancestors

unfoldable pub merge_keys : StringKeyContext → StringKeyContext → Merged
unfolding append_ancestors
merge_keys inner outer = append_ancestors (counted outer) (
    append_ancestor outer.immediate_key
      (append_ancestors (counted inner) (record { immediate = inner.immediate_key; filled = [] })))

-- `mergeStringKeyContexts`
unfoldable pub merge_string_key_contexts : StringKeyContext → StringKeyContext → StringKeyContext
unfolding merge_keys
merge_string_key_contexts inner outer =
    let m = merge_keys inner outer in
    record { immediate_key = m.immediate; ancestors = m.filled; ancestor_count = length m.filled }

abbrev pub engine_scope : Option Scope → ToolScope
engine_scope (some scope_tool_input) = tool_scope_input
engine_scope (some scope_tool_output) = tool_scope_output
engine_scope _ = no_scope

-- `engineFieldContext`
abbrev pub engine_field_context : TargetContext → FieldContext
engine_field_context c = record {
  immediate_key = c.fields.immediate_key;
  ancestors = c.fields.ancestors;
  ancestor_count = c.fields.ancestor_count;
  tool_scope = engine_scope c.tool_scope;
  structured = c.structured;
  encoded = c.encoded;
}
