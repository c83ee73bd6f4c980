-- ===== src/Walker/Registry/Reached.antt =====
-- What a protocol reaches is a target of a request that has been walked.
use cpa_plugin_privacyfilter.Base.{ℕ, Bool}
use cpa_plugin_privacyfilter.Payload.Token.{JsonPath, Document}
use cpa_plugin_privacyfilter.Walker.{Scope, TargetKind, Mutability}
use cpa_plugin_privacyfilter.Walker.Tree.{TreeString, Node, string_node}
use cpa_plugin_privacyfilter.Walker.Steps.{adds}
use cpa_plugin_privacyfilter.Walker.Common.{validate_root_controls}
use cpa_plugin_privacyfilter.Walker.Collect.{Collector, read_context, run, ensure}
use cpa_plugin_privacyfilter.Walker.Collect.Runs.{read_context-Follows}
use cpa_plugin_privacyfilter.Walker.Collect.Disposed.{ensure-Follows}
use cpa_plugin_privacyfilter.Walker.Reached.{Reaches, Has, Has-then, Has-kept, run-Has}
use cpa_plugin_privacyfilter.Walker.Registry.{Protocol, walk_of, walk_root}

module _ (s : TreeString) (scope : Scope) (kind : TargetKind) where
  pub walk_root-Has :
      (canceled : ℕ → Bool) (d : Document) (path : JsonPath) (mutable : Mutability)
      (protocol : Protocol) (root : Node) (c : Collector)
      → Reaches (adds (string_node path s) scope kind mutable) (walk_of protocol root)
      → Has s scope kind (walk_root canceled d protocol root c)
  unfolding walk_root
  walk_root-Has canceled d path mutable protocol root c h =
      Has-kept s scope kind _ (read_context canceled d)
        (Has-kept s scope kind _ (ensure canceled d root)
          (Has-then s scope kind (run canceled d (validate_root_controls root) c)
            (run canceled d (walk_of protocol root))
            (run-Has s scope kind canceled d path mutable (walk_of protocol root) h))
          (ensure-Follows canceled d root))
        (read_context-Follows canceled d)
