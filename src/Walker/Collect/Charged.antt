-- ===== src/Walker/Collect/Charged.antt =====
-- What the collector retains is covered by the bytes that it charges to the structural budget.
pub mod Runs
pub mod Ensured
use cpa_plugin_privacyfilter.Base.{
  ℕ, suc, ◌+◌, ◌-◌, ◌*◌, ◌≤◌, ◌==◌, Bool, true, false, ◌&&◌, ◌||◌, Option, none, some, List, [],
  ◌∷◌, if◌then◌else◌, bytes_eq, ltb, length, length-append, ◌≡◌, refl, sym, subst, inl, inr,
  Bool-cases, arith,
}
use cpa_plugin_privacyfilter.Payload.Scanner.Bounds.{le-double_until}
use cpa_plugin_privacyfilter.Payload.Token.{
  JsonPath, StringToken, Document, string_token_at, span_eq,
}
use cpa_plugin_privacyfilter.Payload.Context.{StringKeyContext, string_key_context_at}
use cpa_plugin_privacyfilter.Walker.{
  Scope, TargetKind, Mutability, Target, walk_internal, Detail, plain,
}
use cpa_plugin_privacyfilter.Walker.Tree.{
  TreeString, Node, string_node, object_node, array_node, number_node, boolean_node, null_node,
  Members, no_members, member, Nodes, no_nodes, item,
}
use cpa_plugin_privacyfilter.Walker.Steps.{
  Action, adds, marks, rejects, charges, reads_context, Walk, ret, refuse, act,
}
use cpa_plugin_privacyfilter.Walker.Fields.{retained_tree_index_entry_bytes}
use cpa_plugin_privacyfilter.Walker.Collect.{
  Selection, Collector, Outcome, stopped, going, ◌>=>◌, retain, retained_field_context_bytes,
  retained_tree_target_bytes, next_tree_capacity, reserve_target_capacity, reserve_unsupported,
  reject, mark_unsupported, target_of, select, read_context, add_token, add_string, add_target,
  mark_start, mark_node, mark_members, mark_items, perform_action, run, is_disposed, has_start,
}
use cpa_plugin_privacyfilter.Walker.Collect.Apart.{mark_unsupported_keeps}

-- What the targets and the opaque strings of a collector take.
abbrev pub retained_bytes : Collector → ℕ
retained_bytes c =
    length c.selection.found * (retained_tree_index_entry_bytes + retained_field_context_bytes)
    + length c.selection.opaque * retained_tree_index_entry_bytes
    + c.target_cap * retained_tree_target_bytes

next_tree_capacity-le :
    (current required : ℕ) → 1 ≤ required → required ≤ next_tree_capacity current required
unfolding next_tree_capacity
next_tree_capacity-le current required h = elim (Bool-cases (current == 0)) [
  | inl y ↦ rw y (le-double_until required 16 required (omega arith) (omega arith))
  | inr n ↦ rw n (le-double_until required current required (ground arith) (omega arith))
]

module _ (start limit : ℕ) where
  -- Of a collector whose budget was at `start`, with `spare` bytes charged beyond what it retains and
  -- room for `more` targets.
  pub record IsCharged (spare more : ℕ) (c : Collector) : Type 0 where
    pub limit_is : c.limit ≡ limit
    pub within : c.used ≤ limit
    pub room : length c.selection.found + more ≤ c.target_cap
    pub covered : start + retained_bytes c + spare ≤ c.used

  abbrev pub Charged : ℕ → ℕ → Outcome → Type 0
  Charged spare more (stopped e) = Unit {0}
  Charged spare more (going c) = IsCharged spare more c

  pub Charged-then :
      (k r k' r' : ℕ) (o : Outcome) (f : Collector → Outcome)
      → Charged k r o
      → ((c : Collector) → IsCharged k r c → Charged k' r' (f c))
      → Charged k' r' (o >=> f)
  Charged-then k r k' r' (stopped e) f h g = tt
  Charged-then k r k' r' (going c) f h g = g c h

  pub if-Charged :
      (k r : ℕ) (b : Bool) (o p : Outcome)
      → Charged k r o
      → Charged k r p
      → Charged k r (if b then o else p)
  if-Charged k r true o p h g = h
  if-Charged k r false o p h g = g

  granted : (l n : ℕ) → l ≡ limit → ltb l n ≡ false → n ≤ limit
  granted l n e h = ground arith

  pub retain-Charged :
      (k r bytes k' : ℕ) (c : Collector)
      → IsCharged k r c
      → k' ≤ k + bytes
      → Charged k' r (retain bytes c)
  unfolding retain
  retain-Charged k r bytes k' c h g = elim (Bool-cases (ltb c.limit (c.used + bytes))) [
    | inl y ↦ rw y tt
    | inr n ↦ rw n (record {
      limit_is = h.limit_is;
      within = granted c.limit _ h.limit_is n;
      room = h.room;
      covered = omega (arith, h.covered);
    })
  ]

  with_cap :
      (k cap : ℕ) (c : Collector)
      → IsCharged k 0 c
      → length c.selection.found + 1 ≤ cap
      → Charged k 1 (
          retain ((cap - c.target_cap) * retained_tree_target_bytes) c >=> λ c.
          going (record c { target_cap = cap }))
  unfolding retain
  with_cap k cap c h g =
      elim (Bool-cases (ltb c.limit (c.used + (cap - c.target_cap) * retained_tree_target_bytes))) [
        | inl y ↦ rw y tt
        | inr n ↦ rw n (record {
          limit_is = h.limit_is;
          within = granted c.limit _ h.limit_is n;
          room = g;
          covered = omega (arith, h.covered);
        })
      ]

  pub reserve_target_capacity-Charged :
      (k : ℕ) (c : Collector) → IsCharged k 0 c → Charged k 1 (reserve_target_capacity c)
  unfolding reserve_target_capacity
  reserve_target_capacity-Charged k c h =
      elim (Bool-cases (ltb (length c.selection.found) c.target_cap)) [
        | inl y ↦ rw y (record {
          limit_is = h.limit_is;
          within = h.within;
          room = ground arith;
          covered = h.covered;
        })
        | inr n ↦ rw n (
            with_cap k (next_tree_capacity c.target_cap (length c.selection.found + 1)) c h
              (next_tree_capacity-le c.target_cap (length c.selection.found + 1) (omega arith)))
      ]

  -- A collector that differs in what is neither charged nor retained.
  pub same :
      (k r : ℕ) (c c' : Collector)
      → IsCharged k r c
      → c'.limit ≡ c.limit
      → c'.used ≡ c.used
      → length c'.selection.found ≡ length c.selection.found
      → length c'.selection.opaque ≡ length c.selection.opaque
      → c'.target_cap ≡ c.target_cap
      → IsCharged k r c'
  same k r c c' h l u f o t = record {
    limit_is = omega (arith, h.limit_is, l);
    within = omega (arith, h.within, u);
    room = omega (arith, h.room, f, t);
    covered = omega (arith, h.covered, u, f, o, t);
  }

  reject_start-charged :
      (n : ℕ × ℕ) (b : Bool) (s : ℕ) (x : Selection)
      → (length x.found ≡ n.0) × (length x.opaque ≡ n.1)
      → (length (if b then x else record x { rejected = s ∷ x.rejected }).found ≡ n.0)
        × (length (if b then x else record x { rejected = s ∷ x.rejected }).opaque ≡ n.1)
  reject_start-charged n true s x h = h
  reject_start-charged n false s x h = h

  pub reject-Charged :
      (n : Node) (detail : Detail) (c : Collector)
      → IsCharged 0 0 c
      → Charged 0 0 (reject n detail c)
  unfolding reject reserve_unsupported
  reject-Charged n detail c h = if-Charged 0 0 _ (stopped _) _ tt (
      Charged-then 0 0 0 0 (retain _ _) _
        (retain-Charged 0 0 _ 0 _ (same 0 0 c _ h refl refl refl refl refl) (omega arith))
        λ c' h'.
          let (f, o) : (length (mark_unsupported n c'.selection).found ≡ length c'.selection.found)
              × (length (mark_unsupported n c'.selection).opaque ≡ length c'.selection.opaque) =
            unfold is_disposed in
            mark_unsupported_keeps
              (λ x.
                (length x.found ≡ length c'.selection.found)
                × (length x.opaque ≡ length c'.selection.opaque))
              (λ s x.
                reject_start-charged (length c'.selection.found, length c'.selection.opaque)
                  (is_disposed s x) s x)
              n c'.selection (refl, refl) in
          same 0 0 c' _ h' refl refl f o refl)
