-- ===== src/Walker/Collect/Runs.antt =====
-- Every run of a walk is a sequence of moves of the selection.
use cpa_plugin_privacyfilter.Base.{
  ℕ, Bool, true, false, ◌&&◌, ◌||◌, Option, none, some, if◌then◌else◌, bytes_eq, ◌≡◌, refl, sym,
  inl, inr, Bool-cases, false≢true, true≢false, subst, arith,
}
use cpa_plugin_privacyfilter.Payload.{Span}
use cpa_plugin_privacyfilter.Payload.Token.{
  JsonPath, StringToken, Document, string_token_at, span_eq,
}
use cpa_plugin_privacyfilter.Payload.Context.{StringKeyContext, string_key_context_at}
use cpa_plugin_privacyfilter.Walker.{Scope, TargetKind, Mutability, walk_internal}
use cpa_plugin_privacyfilter.Walker.Tree.{
  TreeString, Node, string_node, object_node, array_node, number_node, boolean_node, null_node,
  Members, no_members, member, Nodes, no_nodes, item,
}
use cpa_plugin_privacyfilter.Walker.Steps.{
  Action, adds, marks, rejects, charges, reads_context, Walk, ret, refuse, act,
}
use cpa_plugin_privacyfilter.Walker.Fields.{retained_tree_index_entry_bytes}
use cpa_plugin_privacyfilter.Walker.Collect.{
  Selection, Collector, Outcome, stopped, going, ◌>=>◌, retain, has_start, is_disposed,
  retained_field_context_bytes, reserve_target_capacity, target_of, select, read_context, add_token,
  add_string, add_target, mark_start, mark_node, mark_members, mark_items, perform_action, run,
}
use cpa_plugin_privacyfilter.Walker.Collect.Moves.{
  protect, selects, protects, Moves, stays, moves, Follows, Follows-then, if-Follows, Keeps,
  Keeps-then, Keeps-follow, if-Keeps, kept_follow, retain-Keeps, reserve_target_capacity-Keeps,
  reject-Follows,
}

pub span_start : (a b : Span) → span_eq a b ≡ true → a.start ≡ b.start
span_start a b h = ground arith

pub and_left : (a b : Bool) → (a && b) ≡ true → a ≡ true
and_left true b h = refl
and_left false b h = absurd (false≢true h)

pub and_right : (a b : Bool) → (a && b) ≡ true → b ≡ true
and_right true b h = h
and_right false b h = absurd (false≢true h)

undisposed : (t o r : Bool) → (t || r) ≡ false → o ≡ false → (t || o || r) ≡ false
undisposed true o r h k = h
undisposed false true r h k = absurd (true≢false k)
undisposed false false r h k = h

-- `markOpaque`, from its tests on.
marked_start :
    (taken present : Bool) (s : ℕ) (c : Collector)
    → (taken ≡ false → present ≡ false → is_disposed s c.selection ≡ false)
    → Follows c.selection (
        if taken
        then stopped walk_internal
        else if present
        then going c
        else (retain retained_tree_index_entry_bytes c >=> λ c.
            going (record c { selection = protect s c.selection })))
marked_start true present s c h = tt
marked_start false true s c h = stays
marked_start false false s c h =
    Keeps-follow c.selection (retain _ c) _ (retain-Keeps c.selection _ c refl) λ c' e.
      subst (λ x. Moves x (protect s c'.selection)) e
        (moves
          (protects s c'.selection (subst (λ x. is_disposed s x ≡ false) (sym e) (h refl refl)))
          stays)

module _ (canceled : ℕ → Bool) (d : Document) where
  read_context-Keeps :
      (x : Selection) (c : Collector) → c.selection ≡ x → Keeps x (read_context canceled d c)
  unfolding read_context
  read_context-Keeps x c e = if-Keeps x _ (stopped _) (going _) tt e

  -- The end of `add`, of a string that is not disposed.
  selected_token :
      (token : Option StringToken) (found : Option StringKeyContext) (s : TreeString)
      (scope : Scope) (kind : TargetKind) (mutable : Mutability) (x : Selection) (c : Collector)
      → c.selection ≡ x
      → is_disposed s.span.start x ≡ false
      → Follows x (elim token [
        | none ↦ stopped walk_internal
        | some t ↦
            if bytes_eq t.value s.value && span_eq t.span s.span
            then (retain retained_field_context_bytes c >=> λ c. (elim found [
              | none ↦ stopped walk_internal
              | some fields ↦ going (record c {
                selection = select s.span.start (target_of t fields scope kind mutable) c.selection;
              })
            ]))
            else stopped walk_internal
      ])
  selected_token none found s scope kind mutable x c e n = tt
  selected_token (some t) none s scope kind mutable x c e n =
      if-Follows x _ _ (stopped _) (Keeps-follow x (retain _ c) _ (retain-Keeps x _ c e) λ c e. tt)
        tt
  selected_token (some t) (some fields) s scope kind mutable x c e n =
      elim (Bool-cases (bytes_eq t.value s.value && span_eq t.span s.span)) [
        | inr differs ↦ rw differs tt
        | inl y ↦ rw y (
            Keeps-follow x (retain _ c) _ (retain-Keeps x _ c e) λ c' e'.
              subst (λ z. Moves x (select s.span.start (target_of t fields scope kind mutable) z))
                (sym e')
                (moves
                  (selects s.span.start (target_of t fields scope kind mutable) x
                    (span_start t.span s.span (and_right _ _ y)) n)
                  stays))
      ]

  add_string-Follows :
      (path : JsonPath) (s : TreeString) (scope : Scope) (kind : TargetKind) (mutable : Mutability)
      (c : Collector)
      → Follows c.selection (add_string canceled d path s scope kind mutable c)
  unfolding add_string add_token
  add_string-Follows path s scope kind mutable c =
      elim (Bool-cases (is_disposed s.span.start c.selection)) [
        | inl y ↦ rw y tt
        | inr n ↦ rw n (
            Keeps-follow c.selection
              (retain _ c >=> reserve_target_capacity >=> retain _ >=> retain _) _
              (Keeps-then c.selection (retain _ c >=> reserve_target_capacity >=> retain _) _
                (Keeps-then c.selection (retain _ c >=> reserve_target_capacity) _
                  (Keeps-then c.selection (retain _ c) _ (retain-Keeps c.selection _ c refl)
                    (reserve_target_capacity-Keeps c.selection))
                  (retain-Keeps c.selection _))
                (retain-Keeps c.selection _))
              λ c' e.
                selected_token (string_token_at d s.ordinal) (string_key_context_at d s.ordinal) s
                  scope kind mutable c.selection c' e n)
      ]

  pub after_read :
      (c : Collector) (f : Collector → Outcome)
      → ((c : Collector) → Follows c.selection (f c))
      → Follows c.selection (read_context canceled d c >=> f)
  after_read c f h =
      Follows-then c.selection (read_context canceled d c) f
        (kept_follow c.selection (read_context canceled d c)
          (read_context-Keeps c.selection c refl))
        h

  add_target-Follows :
      (n : Node) (scope : Scope) (kind : TargetKind) (mutable : Mutability) (c : Collector)
      → Follows c.selection (add_target canceled d n scope kind mutable c)
  unfolding add_target
  add_target-Follows (string_node path s) scope kind mutable c =
      after_read c _ (add_string-Follows path s scope kind mutable)
  add_target-Follows _ scope kind mutable c = after_read c _ λ c. tt

  mark_start-Follows : (s : ℕ) (c : Collector) → Follows c.selection (mark_start canceled d s c)
  unfolding mark_start is_disposed
  mark_start-Follows s c =
      marked_start _ (has_start s c.selection.opaque) s c (λ t o. undisposed _ _ _ t o)

  mutual
    unfolding mark_node

    mark_node-Follows : (n : Node) (c : Collector) → Follows c.selection (mark_node canceled d n c)
    mark_node-Follows (string_node path s) c = after_read c _ (mark_start-Follows s.span.start)
    mark_node-Follows (object_node path ms) c = after_read c _ (mark_members-Follows ms)
    mark_node-Follows (array_node path items) c = after_read c _ (mark_items-Follows items)
    mark_node-Follows (number_node path) c = kept_follow _ _ (read_context-Keeps _ c refl)
    mark_node-Follows (boolean_node path b) c = kept_follow _ _ (read_context-Keeps _ c refl)
    mark_node-Follows (null_node path) c = kept_follow _ _ (read_context-Keeps _ c refl)

    mark_members-Follows :
        (ms : Members) (c : Collector) → Follows c.selection (mark_members canceled d ms c)
    mark_members-Follows no_members c = stays
    mark_members-Follows (member key n rest) c =
        Follows-then c.selection (mark_node canceled d n c) _ (mark_node-Follows n c)
          (mark_members-Follows rest)

    mark_items-Follows :
        (items : Nodes) (c : Collector) → Follows c.selection (mark_items canceled d items c)
    mark_items-Follows no_nodes c = stays
    mark_items-Follows (item n rest) c =
        Follows-then c.selection (mark_node canceled d n c) _ (mark_node-Follows n c)
          (mark_items-Follows rest)

  perform_action-Follows :
      (a : Action) (c : Collector) → Follows c.selection (perform_action canceled d a c)
  unfolding perform_action
  perform_action-Follows (adds n scope kind mutable) c = add_target-Follows n scope kind mutable c
  perform_action-Follows (marks n) c = mark_node-Follows n c
  perform_action-Follows (rejects n detail) c = reject-Follows n detail c
  perform_action-Follows (charges bytes) c = kept_follow _ _ (retain-Keeps _ bytes c refl)
  perform_action-Follows reads_context c = kept_follow _ _ (read_context-Keeps _ c refl)

  pub read_context-Follows : (c : Collector) → Follows c.selection (read_context canceled d c)
  read_context-Follows c = kept_follow c.selection _ (read_context-Keeps c.selection c refl)

  -- Whatever a walk does, what it leaves is reached by moves.
  pub run-Follows : (w : Walk (Unit {0})) (c : Collector) → Follows c.selection (run canceled d w c)
  unfolding run
  run-Follows (ret u) c = stays
  run-Follows (refuse e) c = tt
  run-Follows (act a w) c =
      Follows-then c.selection (perform_action canceled d a c) _ (perform_action-Follows a c)
        (run-Follows w)
