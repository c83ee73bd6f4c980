-- ===== src/Walker/Collect/Charged/Ensured.antt =====
-- What the rejection of the strings that nothing has disposed of charges.
use cpa_plugin_privacyfilter.Base.{ℕ, ◌==◌, Bool}
use cpa_plugin_privacyfilter.Base.Text.{codes}
use cpa_plugin_privacyfilter.Payload.Token.{Document}
use cpa_plugin_privacyfilter.Walker.{plain}
use cpa_plugin_privacyfilter.Walker.Tree.{
  Node, string_node, object_node, array_node, number_node, boolean_node, null_node, Members,
  no_members, member, Nodes, no_nodes, item,
}
use cpa_plugin_privacyfilter.Walker.Collect.{
  Collector, going, ensure, ensure_members, ensure_items, count_undisposed,
}
use cpa_plugin_privacyfilter.Walker.Collect.Charged.{
  Charged-then, if-Charged, reject-Charged, IsCharged, Charged,
}
use cpa_plugin_privacyfilter.Walker.Collect.Charged.Runs.{read_context-Charged, after_read-Charged}

module _ (start limit : ℕ) (canceled : ℕ → Bool) (d : Document) where
  mutual
    unfolding ensure

    pub ensure-Charged :
        (n : Node) (c : Collector)
        → IsCharged start limit 0 0 c
        → Charged start limit 0 0 (ensure canceled d n c)
    ensure-Charged (string_node path s) c h = after_read-Charged start limit canceled d c _ h λ c h.
        if-Charged start limit 0 0 (count_undisposed c.selection (string_node path s) == 0)
          (going c) _ h
          (reject-Charged start limit (string_node path s)
            (plain (codes "string has no explicit protocol disposition")) c h)
    ensure-Charged (object_node path ms) c h =
        after_read-Charged start limit canceled d c _ h (ensure_members-Charged ms)
    ensure-Charged (array_node path items) c h =
        after_read-Charged start limit canceled d c _ h (ensure_items-Charged items)
    ensure-Charged (number_node path) c h = read_context-Charged start limit canceled d 0 0 c h
    ensure-Charged (boolean_node path b) c h = read_context-Charged start limit canceled d 0 0 c h
    ensure-Charged (null_node path) c h = read_context-Charged start limit canceled d 0 0 c h

    ensure_members-Charged :
        (ms : Members) (c : Collector)
        → IsCharged start limit 0 0 c
        → Charged start limit 0 0 (ensure_members canceled d ms c)
    ensure_members-Charged no_members c h = h
    ensure_members-Charged (member key n rest) c h =
        Charged-then start limit 0 0 0 0 (ensure canceled d n c) _ (ensure-Charged n c h)
          (ensure_members-Charged rest)

    ensure_items-Charged :
        (items : Nodes) (c : Collector)
        → IsCharged start limit 0 0 c
        → Charged start limit 0 0 (ensure_items canceled d items c)
    ensure_items-Charged no_nodes c h = h
    ensure_items-Charged (item n rest) c h =
        Charged-then start limit 0 0 0 0 (ensure canceled d n c) _ (ensure-Charged n c h)
          (ensure_items-Charged rest)
