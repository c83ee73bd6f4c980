-- ===== src/Budget/Laws.antt =====
-- Laws of one operation of the request budget (internal/privacyengine/budget.go).
use cpa_plugin_privacyfilter.Base.{true, none, some, ◌≡◌, ◌⊎◌, ◌↔◌, arith, ◌≢◌}
use cpa_plugin_privacyfilter.Base.Int.{ℤ, pos, ◌≤ℤ◌, ◌<ℤ◌, ◌+ℤ◌}
use cpa_plugin_privacyfilter.Budget.{
  Limits, Budget, normalize_limits, default_max_bytes, default_max_findings, default_max_nodes,
  take_node, take_findings, initialize_locked, new_budget, zero_budget,
}

-- Limits are refused exactly when one of them is negative.
pub normalize_limits-eq-none_iff :
    (l : Limits)
    → (normalize_limits l ≡ none)
      ↔ ((l.max_bytes <ℤ pos 0) ⊎ (l.max_findings <ℤ pos 0) ⊎ (l.max_nodes <ℤ pos 0))
unfolding normalize_limits
normalize_limits-eq-none_iff l = ground arith

-- What a field of the limits becomes: the default in place of 0, and otherwise itself.
abbrev pub Normalized : ℤ → ℤ → ℤ → Type 0
Normalized default given l =
    (pos 0 <ℤ l) × (((given ≡ pos 0) × (l ≡ default)) ⊎ ((given ≢ pos 0) × (l ≡ given)))

-- Normalized limits are positive, so no resource is unlimited or disabled; a zero field has
-- become its default and every other field is unchanged.
pub normalize_limits-Normalized :
    (l : Limits) {n : Limits}
    → normalize_limits l ≡ some n
    → Normalized default_max_bytes l.max_bytes n.max_bytes
      × Normalized default_max_findings l.max_findings n.max_findings
      × Normalized default_max_nodes l.max_nodes n.max_nodes
unfolding normalize_limits
normalize_limits-Normalized l h = ground arith

-- The usage stays between zero and the limits.
pub record IsWithin (b : Budget) : Type 0 where
  pub bytes_nonneg : pos 0 ≤ℤ b.usage.bytes
  pub bytes_le : b.usage.bytes ≤ℤ b.limits.max_bytes
  pub findings_nonneg : pos 0 ≤ℤ b.usage.findings
  pub findings_le : b.usage.findings ≤ℤ b.limits.max_findings
  pub nodes_nonneg : pos 0 ≤ℤ b.usage.nodes
  pub nodes_le : b.usage.nodes ≤ℤ b.limits.max_nodes

pub new_budget-IsWithin :
    (l : Limits) {b : Budget} → new_budget l ≡ some b → IsWithin b × (b.initialized ≡ true)
unfolding new_budget
new_budget-IsWithin l h = ground arith

pub initialize_locked-IsWithin : IsWithin (initialize_locked zero_budget)
unfolding initialize_locked
initialize_locked-IsWithin = omega arith

module _ (b : Budget) (n : ℤ) (ready : b.initialized ≡ true) where
  pub take_node-IsWithin : IsWithin b → IsWithin (take_node b n).0
  unfolding take_node
  take_node-IsWithin w = ground arith

  pub take_findings-IsWithin : IsWithin b → IsWithin (take_findings b n).0
  unfolding take_findings
  take_findings-IsWithin w = ground arith

  -- On an initialized budget a node is granted exactly when one is left and its bytes are a
  -- number from 0 to what remains; a refusal leaves the budget as it was.
  pub take_node-eq-none_iff :
      (((take_node b n).1 ≡ none) ↔ (
        (b.usage.nodes <ℤ b.limits.max_nodes)
        × (pos 0 ≤ℤ n)
        × (b.usage.bytes +ℤ n ≤ℤ b.limits.max_bytes)))
      × (((take_node b n).1 ≡ none) ⊎ ((take_node b n).0 ≡ b))
  unfolding take_node
  take_node-eq-none_iff = ground arith

  pub take_findings-eq-none_iff :
      (((take_findings b n).1 ≡ none)
        ↔ ((pos 0 ≤ℤ n) × (b.usage.findings +ℤ n ≤ℤ b.limits.max_findings)))
      × (((take_findings b n).1 ≡ none) ⊎ ((take_findings b n).0 ≡ b))
  unfolding take_findings
  take_findings-eq-none_iff = ground arith
