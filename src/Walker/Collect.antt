-- ===== src/Walker/Collect.antt =====
-- The collector of walker/common.go, which runs a walk, with the structural budget of walker/tree.go.
-- Every path of a tree has the arena and the budget of its document. A map whose values are empty is
-- the list of its keys.
pub mod Moves
pub mod Runs
pub mod Apart
pub mod Disposed
pub mod Charged
use cpa_plugin_privacyfilter.Base.{
  ℕ, suc, ◌+◌, ◌-◌, ◌*◌, ◌/◌, Bool, true, false, not, ◌&&◌, ◌||◌, Option, none, some, List, [], ◌∷◌,
  ◌++◌, ltb, ◌==◌, if◌then◌else◌, Bytes, bytes_eq, length,
}
use cpa_plugin_privacyfilter.Base.Text.{codes, any_of}
use cpa_plugin_privacyfilter.Payload.{structural_limit, Span}
use cpa_plugin_privacyfilter.Payload.Token.{
  JsonPath, StringToken, Document, string_token_at, span_eq,
}
use cpa_plugin_privacyfilter.Payload.Context.{
  StringKeyContext, string_key_context_at, max_context_ancestors, max_context_key_bytes,
}
use cpa_plugin_privacyfilter.Payload.Scanner.{double_until}
use cpa_plugin_privacyfilter.Walker.{
  Scope, scope_tool_input, scope_tool_output, TargetKind, json_value, Mutability, direct,
  mutable_encoded_json, json_or_plain, Target, Detail, plain, quoted, UnsupportedShape, WalkError,
  walk_payload, walk_canceled, walk_internal, walk_shape,
}
use cpa_plugin_privacyfilter.Walker.Tree.{
  TreeString, Node, string_node, object_node, array_node, Members, no_members, member, Nodes,
  no_nodes, item, kind_of, path_of,
}
use cpa_plugin_privacyfilter.Walker.Steps.{
  Action, adds, marks, rejects, charges, reads_context, Walk, ret, refuse, act,
}
use cpa_plugin_privacyfilter.Walker.Fields.{max_int, retained_tree_index_entry_bytes}

-- What the collector has selected: the starts of the strings that are targets, opaque and rejected,
-- `result.Targets` and `result.Unsupported`.
pub record Selection : Type 0 where
  pub targets : List ℕ
  pub opaque : List ℕ
  pub rejected : List ℕ
  pub found : List Target
  pub issues : List UnsupportedShape

-- `target_cap` and `issue_cap` are the capacities of the two slices; `reads` counts the reads of the
-- context.
pub record Collector : Type 0 where
  pub selection : Selection
  pub target_cap : ℕ
  pub issue_cap : ℕ
  pub used : ℕ
  pub limit : ℕ
  pub reads : ℕ

-- `newCollector`, of a tree that has used some of its budget
abbrev pub new_collector : ℕ → ℕ → Collector
new_collector used limit = record {
  selection = record { targets = []; opaque = []; rejected = []; found = []; issues = [] };
  target_cap = 0;
  issue_cap = 0;
  used = used;
  limit = limit;
  reads = 0;
}

pub data Outcome : Type 0 where
  stopped : WalkError → Outcome
  going : Collector → Outcome

infixl 5 ◌>=>◌
abbrev pub ◌>=>◌ : Outcome → (Collector → Outcome) → Outcome
stopped e >=> f = stopped e
going c >=> f = f c

abbrev pub retained_tree_target_bytes : ℕ
retained_tree_target_bytes = 384

abbrev retained_tree_unsupported_bytes : ℕ
retained_tree_unsupported_bytes = 256

abbrev retained_path_segment_bytes : ℕ
retained_path_segment_bytes = 48

abbrev pub retained_field_context_bytes : ℕ
retained_field_context_bytes = (max_context_ancestors + 1) * max_context_key_bytes

-- `nextTreeCapacity`; it doubles no more often than the capacity that is required.
abbrev pub next_tree_capacity : ℕ → ℕ → ℕ
unfolding double_until
next_tree_capacity current required =
    double_until required (if current == 0 then 16 else current) required

-- `treeStructuralBudget.retain`; no charge is negative.
unfoldable pub retain : ℕ → Collector → Outcome
retain bytes c =
    if ltb c.limit (c.used + bytes)
    then stopped (walk_payload structural_limit)
    else going (record c { used = c.used + bytes })

unfoldable pub has_start : ℕ → List ℕ → Bool
unfolding any_of
has_start s starts = any_of (λ t. t == s) starts

unfoldable pub is_disposed : ℕ → Selection → Bool
unfolding has_start
is_disposed s x = has_start s x.targets || has_start s x.opaque || has_start s x.rejected

-- `countUndisposedStrings`
unfoldable mutual
  unfolding is_disposed

  pub count_undisposed : Selection → Node → ℕ
  count_undisposed x (string_node path token) = if is_disposed token.span.start x then 0 else 1
  count_undisposed x (object_node path ms) = count_undisposed_members x ms
  count_undisposed x (array_node path items) = count_undisposed_items x items
  count_undisposed x _ = 0

  pub count_undisposed_members : Selection → Members → ℕ
  count_undisposed_members x no_members = 0
  count_undisposed_members x (member key n rest) =
      count_undisposed x n + count_undisposed_members x rest

  pub count_undisposed_items : Selection → Nodes → ℕ
  count_undisposed_items x no_nodes = 0
  count_undisposed_items x (item n rest) = count_undisposed x n + count_undisposed_items x rest

abbrev pub reject_start : ℕ → Selection → Selection
unfolding is_disposed
reject_start s x = if is_disposed s x then x else record x { rejected = s ∷ x.rejected }

-- `markUnsupportedStrings`
unfoldable mutual
  unfolding is_disposed

  pub mark_unsupported : Node → Selection → Selection
  mark_unsupported (string_node path token) x = reject_start token.span.start x
  mark_unsupported (object_node path ms) x = mark_unsupported_members ms x
  mark_unsupported (array_node path items) x = mark_unsupported_items items x
  mark_unsupported _ x = x

  pub mark_unsupported_members : Members → Selection → Selection
  mark_unsupported_members no_members x = x
  mark_unsupported_members (member key n rest) x =
      mark_unsupported_members rest (mark_unsupported n x)

  pub mark_unsupported_items : Nodes → Selection → Selection
  mark_unsupported_items no_nodes x = x
  mark_unsupported_items (item n rest) x = mark_unsupported_items rest (mark_unsupported n x)

-- The room for one more issue, and what it costs.
abbrev issue_room : Collector → ℕ
unfolding double_until
issue_room c =
    if length c.selection.issues == c.issue_cap
    then next_tree_capacity c.issue_cap (length c.selection.issues + 1)
    else c.issue_cap

-- `reserveUnsupported`
unfoldable pub reserve_unsupported : Node → ℕ → Collector → Outcome
unfolding double_until retain count_undisposed
reserve_unsupported n detail_bytes c =
    retain
      (detail_bytes
        + length (path_of n) * retained_path_segment_bytes
        + count_undisposed c.selection n * retained_tree_index_entry_bytes
        + (issue_room c - c.issue_cap) * retained_tree_unsupported_bytes)
      (record c { issue_cap = issue_room c })

abbrev pub append_unsupported : Node → Detail → Selection → Selection
append_unsupported n detail x = record x {
  issues = x.issues ++ record { path = path_of n; detail = detail } ∷ [];
}

abbrev pub detail_bytes : Detail → ℕ
detail_bytes (plain text) = length text
detail_bytes (quoted prefix untrusted) = length prefix + 2 + 4 * length untrusted

-- The guard of `unsupportedValue` against overflow.
abbrev pub too_long : Detail → Bool
too_long (plain text) = false
too_long (quoted prefix untrusted) =
    ltb (max_int - 2) (length prefix) || ltb ((max_int - length prefix - 2) / 4) (length untrusted)

-- `unsupported` and `unsupportedValue`
unfoldable pub reject : Node → Detail → Collector → Outcome
unfolding reserve_unsupported mark_unsupported
reject n detail c =
    if too_long detail
    then stopped (walk_payload structural_limit)
    else (reserve_unsupported n (detail_bytes detail) c >=> λ c.
        going
          (record c { selection = append_unsupported n detail (mark_unsupported n c.selection) }))

-- `reserveTargetCapacity`
unfoldable pub reserve_target_capacity : Collector → Outcome
unfolding double_until retain
reserve_target_capacity c =
    if ltb (length c.selection.found) c.target_cap
    then going c
    else (let cap = next_tree_capacity c.target_cap (length c.selection.found + 1) in
        retain ((cap - c.target_cap) * retained_tree_target_bytes) c >=> λ c.
        going (record c { target_cap = cap }))

abbrev pub in_tool_scope : Scope → Bool
in_tool_scope scope_tool_input = true
in_tool_scope scope_tool_output = true
in_tool_scope _ = false

abbrev pub widen : Bool → Mutability → Mutability
widen true direct = json_or_plain
widen _ m = m

abbrev pub is_encoded : Mutability → Bool
is_encoded direct = false
is_encoded mutable_encoded_json = true
is_encoded json_or_plain = true

abbrev pub is_json_value : TargetKind → Bool
is_json_value json_value = true
is_json_value _ = false

-- The target that `add` appends.
abbrev pub target_of : StringToken → StringKeyContext → Scope → TargetKind → Mutability → Target
target_of token fields scope kind mutable = record {
  token = token;
  path = token.path;
  scope = scope;
  kind = kind;
  mutable = widen (in_tool_scope scope) mutable;
  context = record {
    fields = fields;
    tool_scope = if in_tool_scope scope then some scope else none;
    structured = is_json_value kind;
    encoded = is_encoded mutable;
  };
}

abbrev pub select : ℕ → Target → Selection → Selection
select s t x = record x { targets = s ∷ x.targets; found = x.found ++ t ∷ [] }

-- The context is done at the reads for which `canceled` says so.
module _ (canceled : ℕ → Bool) (d : Document) where
  -- `ctx.Err()`
  unfoldable pub read_context : Collector → Outcome
  read_context c =
      if canceled c.reads then stopped walk_canceled else going (record c { reads = suc c.reads })

  -- The end of `add`: the string's place among those of the document, and its field context.
  unfoldable pub add_token : TreeString → Scope → TargetKind → Mutability → Collector → Outcome
  unfolding string_token_at string_key_context_at retain bytes_eq
  add_token s scope kind mutable c = elim (string_token_at d s.ordinal) [
    | none ↦ stopped walk_internal
    | some token ↦
        if bytes_eq token.value s.value && span_eq token.span s.span
        then (retain retained_field_context_bytes c >=> λ c.
            (elim (string_key_context_at d s.ordinal) [
              | none ↦ stopped walk_internal
              | some fields ↦ going (record c {
                selection =
                    select s.span.start (target_of token fields scope kind mutable) c.selection;
              })
            ]))
        else stopped walk_internal
  ]

  -- `add`, of a string, from the test of the three maps on
  unfoldable pub add_string :
      JsonPath → TreeString → Scope → TargetKind → Mutability → Collector → Outcome
  unfolding is_disposed retain reserve_target_capacity add_token
  add_string path s scope kind mutable c =
      if is_disposed s.span.start c.selection
      then stopped walk_internal
      else (retain retained_tree_index_entry_bytes c
          >=> reserve_target_capacity
          >=> retain (length path * retained_path_segment_bytes)
          >=> retain (length path * retained_path_segment_bytes)
          >=> add_token s scope kind mutable)

  -- `add`
  unfoldable pub add_target : Node → Scope → TargetKind → Mutability → Collector → Outcome
  unfolding read_context add_string
  add_target (string_node path s) scope kind mutable c =
      read_context c >=> add_string path s scope kind mutable
  add_target n scope kind mutable c = read_context c >=> λ c.
      stopped (walk_shape (path_of n) (codes "string") (kind_of n) (codes "target"))

  -- `markOpaque`, of a string
  unfoldable pub mark_start : ℕ → Collector → Outcome
  unfolding has_start retain
  mark_start s c =
      if has_start s c.selection.targets || has_start s c.selection.rejected
      then stopped walk_internal
      else if has_start s c.selection.opaque
      then going c
      else (retain retained_tree_index_entry_bytes c >=> λ c.
          going (record c { selection = record (c.selection) { opaque = s ∷ c.selection.opaque } }))

  -- `markOpaque`
  unfoldable mutual
    unfolding read_context mark_start

    pub mark_node : Node → Collector → Outcome
    mark_node (string_node path s) c = read_context c >=> mark_start s.span.start
    mark_node (object_node path ms) c = read_context c >=> mark_members ms
    mark_node (array_node path items) c = read_context c >=> mark_items items
    mark_node n c = read_context c

    pub mark_members : Members → Collector → Outcome
    mark_members no_members c = going c
    mark_members (member key n rest) c = mark_node n c >=> mark_members rest

    pub mark_items : Nodes → Collector → Outcome
    mark_items no_nodes c = going c
    mark_items (item n rest) c = mark_node n c >=> mark_items rest

  unfoldable pub perform_action : Action → Collector → Outcome
  unfolding add_target mark_node reject retain read_context
  perform_action (adds n scope kind mutable) c = add_target n scope kind mutable c
  perform_action (marks n) c = mark_node n c
  perform_action (rejects n detail) c = reject n detail c
  perform_action (charges bytes) c = retain bytes c
  perform_action reads_context c = read_context c

  unfoldable pub run : Walk (Unit {0}) → Collector → Outcome
  unfolding perform_action
  run (ret u) c = going c
  run (refuse e) c = stopped e
  run (act a w) c = perform_action a c >=> run w

  -- `ensureStringDisposition`
  unfoldable mutual
    unfolding read_context count_undisposed reject

    pub ensure : Node → Collector → Outcome
    ensure (string_node path s) c = read_context c >=> λ c.
        (if count_undisposed c.selection (string_node path s) == 0
          then going c
          else reject (string_node path s)
              (plain (codes "string has no explicit protocol disposition")) c)
    ensure (object_node path ms) c = read_context c >=> ensure_members ms
    ensure (array_node path items) c = read_context c >=> ensure_items items
    ensure n c = read_context c

    pub ensure_members : Members → Collector → Outcome
    ensure_members no_members c = going c
    ensure_members (member key n rest) c = ensure n c >=> ensure_members rest

    pub ensure_items : Nodes → Collector → Outcome
    ensure_items no_nodes c = going c
    ensure_items (item n rest) c = ensure n c >=> ensure_items rest

-- The order of `finish`: stable, by the starts of the spans.
unfoldable pub insert_target : Target → List Target → List Target
insert_target t [] = t ∷ []
insert_target t (u ∷ us) =
    let rest = insert_target t us in
    if ltb u.token.span.start t.token.span.start then u ∷ rest else t ∷ u ∷ us

unfoldable pub sort_targets : List Target → List Target
unfolding insert_target
sort_targets [] = []
sort_targets (t ∷ ts) = insert_target t (sort_targets ts)
