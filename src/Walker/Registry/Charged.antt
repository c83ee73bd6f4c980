-- ===== src/Walker/Registry/Charged.antt =====
-- A walk stays within the structural limit of its request.
use cpa_plugin_privacyfilter.Base.{ℕ, ◌≤◌, Bool, ◌≡◌, refl, subst, arith}
use cpa_plugin_privacyfilter.Payload.Token.{Document}
use cpa_plugin_privacyfilter.Walker.Tree.{Node}
use cpa_plugin_privacyfilter.Walker.Common.{validate_root_controls}
use cpa_plugin_privacyfilter.Walker.Collect.{Collector, new_collector, going, ◌>=>◌, run, ensure}
use cpa_plugin_privacyfilter.Walker.Collect.Charged.{IsCharged, Charged, Charged-then}
use cpa_plugin_privacyfilter.Walker.Collect.Charged.Runs.{read_context-Charged, run-Charged}
use cpa_plugin_privacyfilter.Walker.Collect.Charged.Ensured.{ensure-Charged}
use cpa_plugin_privacyfilter.Walker.Registry.{Protocol, walk_of, walk_root}

new-IsCharged :
    (used limit : ℕ) → used ≤ limit → IsCharged used limit 0 0 (new_collector used limit)
new-IsCharged used limit h = record {
  limit_is = refl;
  within = h;
  room = omega arith;
  covered = omega arith;
}

module _ (canceled : ℕ → Bool) (d : Document) (used limit : ℕ) where
  walk_root-Charged :
      (protocol : Protocol) (root : Node) (c : Collector)
      → IsCharged used limit 0 0 c
      → Charged used limit 0 0 (walk_root canceled d protocol root c)
  unfolding walk_root
  walk_root-Charged protocol root c h =
      Charged-then used limit 0 0 0 0
        (run canceled d (validate_root_controls root) c
          >=> run canceled d (walk_of protocol root)
          >=> ensure canceled d root)
        _
        (Charged-then used limit 0 0 0 0
          (run canceled d (validate_root_controls root) c
            >=> run canceled d (walk_of protocol root))
          _
          (Charged-then used limit 0 0 0 0 (run canceled d (validate_root_controls root) c) _
            (run-Charged used limit canceled d (validate_root_controls root) c h)
            (run-Charged used limit canceled d (walk_of protocol root)))
          (ensure-Charged used limit canceled d root))
        (read_context-Charged used limit canceled d 0 0)

  -- A walk that succeeds, of a tree whose own charges were within the limit, keeps the limit, has
  -- charged no more than it, and has charged, beyond what the tree had used, the index entry and the
  -- field context of every target, the index entry of every opaque string and the whole capacity of
  -- the slice of targets, which has room for all of them.
  pub walk_root-IsCharged :
      (protocol : Protocol) (root : Node) (c : Collector)
      → used ≤ limit
      → walk_root canceled d protocol root (new_collector used limit) ≡ going c
      → IsCharged used limit 0 0 c
  walk_root-IsCharged protocol root c h e =
      subst (Charged used limit 0 0) e
        (walk_root-Charged protocol root (new_collector used limit) (new-IsCharged used limit h))
