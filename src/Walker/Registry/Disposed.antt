-- ===== src/Walker/Registry/Disposed.antt =====
-- No string of a request that has been walked is left out.
use cpa_plugin_privacyfilter.Base.{
  ℕ, Bool, true, false, ◌||◌, List, [], ◌<◌, length, map, All, All-map, subst, ◌≡◌, refl, ◌⊎◌, inl,
}
use cpa_plugin_privacyfilter.Base.Text.{any_of}
use cpa_plugin_privacyfilter.Payload.Token.{Document}
use cpa_plugin_privacyfilter.Walker.Tree.{Node, starts_of}
use cpa_plugin_privacyfilter.Walker.Common.{validate_root_controls}
use cpa_plugin_privacyfilter.Walker.Collect.{
  Selection, Collector, new_collector, Outcome, going, ◌>=>◌, has_start, is_disposed, read_context,
  run, ensure,
}
use cpa_plugin_privacyfilter.Walker.Collect.Moves.{Follows-then}
use cpa_plugin_privacyfilter.Walker.Collect.Runs.{run-Follows, read_context-Follows}
use cpa_plugin_privacyfilter.Walker.Collect.Apart.{
  at_most_one, exactly_one, is_apart, Moves-apart, target_start, IsListed, Moves-IsListed,
  Moves-Reported,
}
use cpa_plugin_privacyfilter.Walker.Collect.Disposed.{
  Covers, Covers-then, Covers-kept, Covers-none, ensure-Covers,
}
use cpa_plugin_privacyfilter.Walker.Registry.{Protocol, walk_of, walk_root}

exactly_one_of :
    (t o r : Bool) → (t || o || r) ≡ true → at_most_one t o r ≡ true → exactly_one t o r ≡ true
exactly_one_of true true r h k = k
exactly_one_of true false true h k = k
exactly_one_of true false false h k = refl
exactly_one_of false true true h k = k
exactly_one_of false true false h k = refl
exactly_one_of false false true h k = refl
exactly_one_of false false false h k = h

once :
    (s : ℕ) (x : Selection)
    → is_disposed s x ≡ true
    → is_apart s x ≡ true
    → exactly_one (has_start s x.targets) (has_start s x.opaque) (has_start s x.rejected) ≡ true
unfolding is_disposed is_apart
once s x h k =
    exactly_one_of (has_start s x.targets) (has_start s x.opaque) (has_start s x.rejected) h k

new-apart : (s used limit : ℕ) → is_apart s (new_collector used limit).selection ≡ true
unfolding is_apart has_start any_of
new-apart s used limit = refl

new-IsListed : (s used limit : ℕ) → IsListed s (new_collector used limit).selection
unfolding has_start any_of
new-IsListed s used limit = refl

reached :
    (x : Selection) (ss : List ℕ) (o : Outcome) (c : Collector)
    → o ≡ going c
    → Covers x ss o
    → Covers x ss (going c)
reached x ss o c e h = subst (Covers x ss) e h

module _ (canceled : ℕ → Bool) (d : Document) where
  walk_root-Covers :
      (protocol : Protocol) (root : Node) (c : Collector)
      → Covers c.selection (starts_of root) (walk_root canceled d protocol root c)
  unfolding walk_root
  walk_root-Covers protocol root c =
      Covers-kept c.selection (starts_of root)
        (run canceled d (validate_root_controls root) c
          >=> run canceled d (walk_of protocol root)
          >=> ensure canceled d root)
        (read_context canceled d)
        (Covers-then c.selection [] (starts_of root)
          (run canceled d (validate_root_controls root) c
            >=> run canceled d (walk_of protocol root))
          (ensure canceled d root)
          (Covers-none c.selection _ (
            Follows-then c.selection (run canceled d (validate_root_controls root) c)
              (run canceled d (walk_of protocol root))
              (run-Follows canceled d (validate_root_controls root) c)
              (run-Follows canceled d (walk_of protocol root))))
          (ensure-Covers canceled d root))
        (read_context-Follows canceled d)

  -- A walk that succeeds, whatever the protocol and the request, has disposed of every string of the
  -- request in exactly one way: it is a target, it is opaque, or it is rejected. The starts that are
  -- selected are those of the targets, and if there is no issue then no string is rejected.
  pub walk_root-Disposes :
      (protocol : Protocol) (root : Node) (used limit : ℕ) (c : Collector)
      → walk_root canceled d protocol root (new_collector used limit) ≡ going c
      → All
          (λ s.
            exactly_one
              (has_start s c.selection.targets)
              (has_start s c.selection.opaque)
              (has_start s c.selection.rejected)
            ≡ true)
          (starts_of root)
        × ((s : ℕ)
            → has_start s c.selection.targets ≡ has_start s (map target_start c.selection.found))
        × ((c.selection.rejected ≡ []) ⊎ (0 < length c.selection.issues))
  walk_root-Disposes protocol root used limit c h =
      let x = (new_collector used limit).selection in
      let (m, all) : Covers x (starts_of root) (going c) =
        reached x (starts_of root) _ c h
          (walk_root-Covers protocol root (new_collector used limit)) in
      (
        All-map (λ s k. once s c.selection k (Moves-apart s m (new-apart s used limit)))
            (starts_of root) all,
        λ s. Moves-IsListed s m (new-IsListed s used limit),
        Moves-Reported m (inl refl),
      )
