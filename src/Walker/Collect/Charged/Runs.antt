-- ===== src/Walker/Collect/Charged/Runs.antt =====
-- The bytes that a run of a walk charges.
use cpa_plugin_privacyfilter.Base.{
  ℕ, ◌+◌, Bool, ◌&&◌, Option, none, some, [], ◌∷◌, if◌then◌else◌, bytes_eq, length-append, refl,
  arith,
}
use cpa_plugin_privacyfilter.Payload.Token.{
  JsonPath, StringToken, Document, string_token_at, span_eq,
}
use cpa_plugin_privacyfilter.Payload.Context.{StringKeyContext, string_key_context_at}
use cpa_plugin_privacyfilter.Walker.{Scope, TargetKind, Mutability, Target, walk_internal}
use cpa_plugin_privacyfilter.Walker.Tree.{
  TreeString, Node, string_node, object_node, array_node, number_node, boolean_node, null_node,
  Members, no_members, member, Nodes, no_nodes, item,
}
use cpa_plugin_privacyfilter.Walker.Steps.{
  Action, adds, marks, rejects, charges, reads_context, Walk, ret, refuse, act,
}
use cpa_plugin_privacyfilter.Walker.Fields.{retained_tree_index_entry_bytes}
use cpa_plugin_privacyfilter.Walker.Collect.{
  Collector, Outcome, stopped, going, ◌>=>◌, retain, retained_field_context_bytes,
  reserve_target_capacity, target_of, select, read_context, add_token, add_string, add_target,
  mark_start, mark_node, mark_members, mark_items, perform_action, run, is_disposed, has_start,
}
use cpa_plugin_privacyfilter.Walker.Collect.Charged.{
  Charged-then, if-Charged, retain-Charged, reserve_target_capacity-Charged, same, reject-Charged,
  IsCharged, Charged,
}

module _ (start limit : ℕ) (canceled : ℕ → Bool) (d : Document) where
  pub read_context-Charged :
      (k r : ℕ) (c : Collector)
      → IsCharged start limit k r c
      → Charged start limit k r (read_context canceled d c)
  unfolding read_context
  read_context-Charged k r c h =
      if-Charged start limit k r (canceled c.reads) (stopped _) (going _) tt
        (same start limit k r c _ h refl refl refl refl refl)

  pub after_read-Charged :
      (c : Collector) (f : Collector → Outcome)
      → IsCharged start limit 0 0 c
      → ((c : Collector) → IsCharged start limit 0 0 c → Charged start limit 0 0 (f c))
      → Charged start limit 0 0 (read_context canceled d c >=> f)
  after_read-Charged c f h g =
      Charged-then start limit 0 0 0 0 (read_context canceled d c) f (read_context-Charged 0 0 c h)
        g

  with_target :
      (s : ℕ) (t : Target) (c : Collector)
      → IsCharged start limit (retained_tree_index_entry_bytes + retained_field_context_bytes) 1 c
      → IsCharged start limit 0 0 (record c { selection = select s t c.selection })
  with_target s t c h = record {
    limit_is = h.limit_is;
    within = h.within;
    room = omega (arith, h.room, length-append c.selection.found (t ∷ []));
    covered = omega (arith, h.covered, length-append c.selection.found (t ∷ []));
  }

  add_token_cases :
      (token : Option StringToken) (found : Option StringKeyContext) (s : TreeString)
      (scope : Scope) (kind : TargetKind) (mutable : Mutability) (c : Collector)
      → IsCharged start limit retained_tree_index_entry_bytes 1 c
      → Charged start limit 0 0 (elim token [
        | none ↦ stopped walk_internal
        | some t ↦
            if bytes_eq t.value s.value && span_eq t.span s.span
            then (retain retained_field_context_bytes c >=> λ c. (elim found [
              | none ↦ stopped walk_internal
              | some fields ↦ going (record c {
                selection = select s.span.start (target_of t fields scope kind mutable) c.selection;
              })
            ]))
            else stopped walk_internal
      ])
  add_token_cases none found s scope kind mutable c h = tt
  add_token_cases (some t) none s scope kind mutable c h =
      if-Charged start limit 0 0 _ _ (stopped _)
        (Charged-then start limit 0 1 0 0 (retain _ c) _
          (retain-Charged start limit _ 1 _ 0 c h (omega arith)) λ c h. tt)
        tt
  add_token_cases (some t) (some fields) s scope kind mutable c h =
      if-Charged start limit 0 0 (bytes_eq t.value s.value && span_eq t.span s.span) _ (stopped _)
        (Charged-then start limit (retained_tree_index_entry_bytes + retained_field_context_bytes) 1
          0 0 (retain retained_field_context_bytes c) _
          (retain-Charged start limit retained_tree_index_entry_bytes 1 _ _ c h (omega arith))
          (with_target s.span.start (target_of t fields scope kind mutable)))
        tt

  add_string-Charged :
      (path : JsonPath) (s : TreeString) (scope : Scope) (kind : TargetKind) (mutable : Mutability)
      (c : Collector)
      → IsCharged start limit 0 0 c
      → Charged start limit 0 0 (add_string canceled d path s scope kind mutable c)
  unfolding add_string add_token
  add_string-Charged path s scope kind mutable c h =
      if-Charged start limit 0 0 (is_disposed s.span.start c.selection) (stopped _) _ tt (
        Charged-then start limit _ 1 0 0
          (retain _ c >=> reserve_target_capacity >=> retain _ >=> retain _) _
          (Charged-then start limit _ 1 _ 1 (retain _ c >=> reserve_target_capacity >=> retain _) _
            (Charged-then start limit _ 1 _ 1 (retain _ c >=> reserve_target_capacity) _
              (Charged-then start limit _ 0 _ 1 (retain _ c) _
                (retain-Charged start limit 0 0 _ retained_tree_index_entry_bytes c h (omega arith))
                (reserve_target_capacity-Charged start limit retained_tree_index_entry_bytes))
              (λ c h.
                retain-Charged start limit retained_tree_index_entry_bytes 1 _
                  retained_tree_index_entry_bytes c h (omega arith)))
            (λ c h.
              retain-Charged start limit retained_tree_index_entry_bytes 1 _
                retained_tree_index_entry_bytes c h (omega arith)))
          (add_token_cases (string_token_at d s.ordinal) (string_key_context_at d s.ordinal) s scope
            kind mutable))

  add_target-Charged :
      (n : Node) (scope : Scope) (kind : TargetKind) (mutable : Mutability) (c : Collector)
      → IsCharged start limit 0 0 c
      → Charged start limit 0 0 (add_target canceled d n scope kind mutable c)
  unfolding add_target
  add_target-Charged (string_node path s) scope kind mutable c h =
      after_read-Charged c _ h (add_string-Charged path s scope kind mutable)
  add_target-Charged (object_node path ms) scope kind mutable c h =
      after_read-Charged c _ h (λ c h. tt)
  add_target-Charged (array_node path items) scope kind mutable c h =
      after_read-Charged c _ h (λ c h. tt)
  add_target-Charged (number_node path) scope kind mutable c h =
      after_read-Charged c _ h (λ c h. tt)
  add_target-Charged (boolean_node path b) scope kind mutable c h =
      after_read-Charged c _ h (λ c h. tt)
  add_target-Charged (null_node path) scope kind mutable c h = after_read-Charged c _ h (λ c h. tt)

  with_opaque :
      (s : ℕ) (c : Collector)
      → IsCharged start limit retained_tree_index_entry_bytes 0 c
      → IsCharged start limit 0 0
          (record c { selection = record (c.selection) { opaque = s ∷ c.selection.opaque } })
  with_opaque s c h = record {
    limit_is = h.limit_is;
    within = h.within;
    room = h.room;
    covered = omega (arith, h.covered);
  }

  mark_start-Charged :
      (s : ℕ) (c : Collector)
      → IsCharged start limit 0 0 c
      → Charged start limit 0 0 (mark_start canceled d s c)
  unfolding mark_start
  mark_start-Charged s c h = if-Charged start limit 0 0 _ (stopped _) _ tt (
      if-Charged start limit 0 0 (has_start s c.selection.opaque) (going c) _ h (
        Charged-then start limit retained_tree_index_entry_bytes 0 0 0 (retain _ c) _
          (retain-Charged start limit 0 0 _ _ c h (omega arith)) (with_opaque s)))

  mutual
    unfolding mark_node

    mark_node-Charged :
        (n : Node) (c : Collector)
        → IsCharged start limit 0 0 c
        → Charged start limit 0 0 (mark_node canceled d n c)
    mark_node-Charged (string_node path s) c h =
        after_read-Charged c _ h (mark_start-Charged s.span.start)
    mark_node-Charged (object_node path ms) c h = after_read-Charged c _ h (mark_members-Charged ms)
    mark_node-Charged (array_node path items) c h =
        after_read-Charged c _ h (mark_items-Charged items)
    mark_node-Charged (number_node path) c h = read_context-Charged 0 0 c h
    mark_node-Charged (boolean_node path b) c h = read_context-Charged 0 0 c h
    mark_node-Charged (null_node path) c h = read_context-Charged 0 0 c h

    mark_members-Charged :
        (ms : Members) (c : Collector)
        → IsCharged start limit 0 0 c
        → Charged start limit 0 0 (mark_members canceled d ms c)
    mark_members-Charged no_members c h = h
    mark_members-Charged (member key n rest) c h =
        Charged-then start limit 0 0 0 0 (mark_node canceled d n c) _ (mark_node-Charged n c h)
          (mark_members-Charged rest)

    mark_items-Charged :
        (items : Nodes) (c : Collector)
        → IsCharged start limit 0 0 c
        → Charged start limit 0 0 (mark_items canceled d items c)
    mark_items-Charged no_nodes c h = h
    mark_items-Charged (item n rest) c h =
        Charged-then start limit 0 0 0 0 (mark_node canceled d n c) _ (mark_node-Charged n c h)
          (mark_items-Charged rest)

  perform_action-Charged :
      (a : Action) (c : Collector)
      → IsCharged start limit 0 0 c
      → Charged start limit 0 0 (perform_action canceled d a c)
  unfolding perform_action
  perform_action-Charged (adds n scope kind mutable) c h =
      add_target-Charged n scope kind mutable c h
  perform_action-Charged (marks n) c h = mark_node-Charged n c h
  perform_action-Charged (rejects n detail) c h = reject-Charged start limit n detail c h
  perform_action-Charged (charges bytes) c h =
      retain-Charged start limit 0 0 bytes 0 c h (omega arith)
  perform_action-Charged reads_context c h = read_context-Charged 0 0 c h

  pub run-Charged :
      (w : Walk (Unit {0})) (c : Collector)
      → IsCharged start limit 0 0 c
      → Charged start limit 0 0 (run canceled d w c)
  unfolding run
  run-Charged (ret u) c h = h
  run-Charged (refuse e) c h = tt
  run-Charged (act a w) c h =
      Charged-then start limit 0 0 0 0 (perform_action canceled d a c) _
        (perform_action-Charged a c h) (run-Charged w)
