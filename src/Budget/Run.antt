-- ===== src/Budget/Run.antt =====
-- Any sequence of the budget's operations, in the order in which their critical sections run.
use cpa_plugin_privacyfilter.Base.{
  true, Option, none, some, ◌≡◌, refl, arith, List, [], ◌∷◌, ◌∙◌, ap,
}
use cpa_plugin_privacyfilter.Base.Int.{ℤ, pos, ◌+ℤ◌}
use cpa_plugin_privacyfilter.Budget.{
  Limits, Usage, Budget, LimitError, take_node, take_findings, remaining_findings, new_budget,
  normalize_limits, no_usage,
}
use cpa_plugin_privacyfilter.Budget.Laws.{
  IsWithin, take_node-IsWithin, take_findings-IsWithin, new_budget-IsWithin,
}

pub data Op : Type 0 where
  node : ℤ → Op
  finding : ℤ → Op
  remaining : Op

-- One operation, with the refusal that it reports.
unfoldable pub apply : Op → Budget → Budget × Option LimitError
apply (node n) b = take_node b n
apply (finding n) b = take_findings b n
apply remaining b = ((remaining_findings b).0, none)

abbrev pub Log : Type 0
Log = List (Op × Option LimitError)

unfoldable pub run : List Op → Budget → Budget × Log
unfolding apply
run [] b = (b, [])
run (o ∷ os) b =
    let (b', refused) = apply o b in let (b'', log) = run os b' in (b'', (o, refused) ∷ log)

-- What the operations that were not refused asked for.
abbrev pub granted : Op → Usage
granted (node n) = record { bytes = n; findings = pos 0; nodes = pos 1 }
granted (finding n) = record { bytes = pos 0; findings = n; nodes = pos 0 }
granted remaining = record { bytes = pos 0; findings = pos 0; nodes = pos 0 }

abbrev pub charge : Op → Option LimitError → Usage
charge o none = granted o
charge o (some _) = granted remaining

infixl 65 ◌⊕◌
unfoldable pub ◌⊕◌ : Usage → Usage → Usage
u ⊕ v = record {
  bytes = u.bytes +ℤ v.bytes;
  findings = u.findings +ℤ v.findings;
  nodes = u.nodes +ℤ v.nodes;
}

abbrev pub total : Usage → Log → Usage
total u [] = u
total u ((o, refused) ∷ log) = total (u ⊕ charge o refused) log

pub apply-IsWithin :
    (o : Op) (b : Budget)
    → b.initialized ≡ true
    → IsWithin b
    → IsWithin (apply o b).0
      × ((apply o b).0.initialized ≡ true)
      × ((apply o b).0.limits ≡ b.limits)
      × ((apply o b).0.usage ≡ b.usage ⊕ charge o (apply o b).1)
unfolding apply take_node take_findings remaining_findings ◌⊕◌ ◌+ℤ◌
apply-IsWithin (node n) b r w =
    (take_node-IsWithin b n r w, ground arith, ground arith, ground arith)
apply-IsWithin (finding n) b r w =
    (take_findings-IsWithin b n r w, ground arith, ground arith, ground arith)
apply-IsWithin remaining b r w = (ground arith, ground arith, ground arith, ground arith)

pub run-total :
    (ops : List Op) (b : Budget)
    → b.initialized ≡ true
    → IsWithin b
    → IsWithin (run ops b).0
      × ((run ops b).0.limits ≡ b.limits)
      × ((run ops b).0.usage ≡ total b.usage (run ops b).1)
unfolding run
run-total [] b r w = (w, refl, refl)
run-total (o ∷ os) b r w =
    let (w', r', l, u) = apply-IsWithin o b r w in
    let (w'', l', u') = run-total os (apply o b).0 r' w' in
    (w'', l' ∙ l, u' ∙ ap (λ v. total v (run os (apply o b).0).1) u)

new_budget_start :
    (l : Limits) {n : Limits} {b : Budget}
    → normalize_limits l ≡ some n
    → new_budget l ≡ some b
    → (b.usage ≡ no_usage) × (b.limits ≡ n)
unfolding new_budget
new_budget_start l norm made = ground arith

-- Whatever the operations and the order in which they are served, a budget keeps the normalized
-- limits that it was made with, its usage stays between 0 and those limits, and the usage is what
-- the granted operations asked for: a refused one is charged nothing.
pub run-new_budget :
    (l : Limits) (ops : List Op) {n : Limits} {b : Budget}
    → normalize_limits l ≡ some n
    → new_budget l ≡ some b
    → IsWithin (run ops b).0
      × ((run ops b).0.limits ≡ n)
      × ((run ops b).0.usage ≡ total no_usage (run ops b).1)
run-new_budget l ops {n} {b} norm made =
    let (w, r) = new_budget-IsWithin l made in
    let (u, k) = new_budget_start l norm made in
    let (w', l', t) = run-total ops b r w in (w', l' ∙ k, t ∙ ap (λ v. total v (run ops b).1) u)
