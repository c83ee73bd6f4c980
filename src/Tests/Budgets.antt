-- ===== src/Tests/Budgets.antt =====
-- The request budget and the span collector on concrete inputs.
use cpa_plugin_privacyfilter.Base.{
  ℕ, true, none, List, [], ◌∷◌, Bytes, bytes_eq, implies, ◌≤◌, ◌≡◌, ◌↔◌, ◌⊎◌, refl, length, arith,
}
use cpa_plugin_privacyfilter.Base.Int.{ℤ, pos, negsuc, ◌<ℤ◌, ◌≤ℤ◌, ◌+ℤ◌}
use cpa_plugin_privacyfilter.Budget.{
  Limits, Budget, normalize_limits, new_budget, new_budget_unchecked, take_node, take_findings,
  remaining_findings, no_usage, default_max_bytes, default_max_findings, default_max_nodes,
}
use cpa_plugin_privacyfilter.Budget.Laws.{
  Normalized, IsWithin, normalize_limits-Normalized, take_node-eq-none_iff,
}
use cpa_plugin_privacyfilter.Budget.Run.{Op, run, total, run-new_budget}
use cpa_plugin_privacyfilter.Spans.{Kind, Span, Candidate, Collector, new_collector, add}
use cpa_plugin_privacyfilter.Spans.Search.{IsDisjoint}
use cpa_plugin_privacyfilter.Spans.Union.{covered}
use cpa_plugin_privacyfilter.Spans.Preferred.{flagged}
use cpa_plugin_privacyfilter.Spans.Collect.{
  add_all, any, reports, flags, IsCollected, add_all-union, add_all-eq-none,
}

abbrev small : Limits
small = record { max_bytes = pos 10; max_findings = pos 2; max_nodes = pos 0 }

abbrev small_normal : Limits
small_normal = record { max_bytes = pos 10; max_findings = pos 2; max_nodes = pos 1024 }

abbrev small_budget : Budget
small_budget = new_budget_unchecked small_normal

normalize_limits-Normalized_example :
    Normalized default_max_bytes (pos 10) (pos 10)
    × Normalized default_max_findings (pos 2) (pos 2)
    × Normalized default_max_nodes (pos 0) (pos 1024)
unfolding normalize_limits
normalize_limits-Normalized_example = normalize_limits-Normalized small {n = small_normal} refl

take_node-eq-none_iff_example :
    (((take_node small_budget (pos 11)).1 ≡ none)
      ↔ ((pos 0 <ℤ pos 1024) × (pos 0 ≤ℤ pos 11) × (pos 0 +ℤ pos 11 ≤ℤ pos 10)))
    × (((take_node small_budget (pos 11)).1 ≡ none)
        ⊎ ((take_node small_budget (pos 11)).0 ≡ small_budget))
take_node-eq-none_iff_example = take_node-eq-none_iff small_budget (pos 11) refl

abbrev ops : List Op
ops =
    Op.node (pos 7) ∷ Op.finding (pos 2) ∷ Op.node (pos 4) ∷ Op.remaining ∷ Op.node (negsuc 0) ∷ []

run-new_budget_example :
    IsWithin (run ops small_budget).0
    × ((run ops small_budget).0.limits ≡ small_normal)
    × ((run ops small_budget).0.usage ≡ total no_usage (run ops small_budget).1)
unfolding normalize_limits new_budget
run-new_budget_example = run-new_budget small ops {n = small_normal} {b = small_budget} refl refl

-- The second node is refused, and so is a negative count.
run_charges :
    (run ops small_budget).0.usage ≡ record { bytes = pos 7; findings = pos 2; nodes = pos 1 }
unfolding run take_node take_findings remaining_findings
run_charges = refl

abbrev rule : ℕ → Bytes
rule n = n ∷ []

abbrev found_at : ℤ → ℤ → ℕ → Candidate
found_at from to n = record { start = from; stop = to; kind = Kind.secret; rule_id = rule n }

abbrev candidates : List Candidate
candidates =
    found_at (pos 2) (pos 5) 1
    ∷ found_at (pos 8) (pos 9) 2
    ∷ found_at (pos 4) (pos 7) 3
    ∷ found_at (negsuc 0) (pos 3) 4
    ∷ found_at (pos 6) (pos 30) 5
    ∷ []

abbrev empty_collector : Collector
empty_collector = new_collector 12 (pos 3) (rule 3 ∷ [])

abbrev span_at : ℕ → ℕ → ℕ → Span
span_at from to n = record { start = from; stop = to; kind = Kind.secret; rule_id = rule n }

-- The overlapping candidates are one span under the preferred rule.
add_all_run :
    add_all candidates empty_collector
    ≡ (record empty_collector { spans = span_at 2 7 3 ∷ span_at 8 9 2 ∷ [] }, none)
unfolding add_all add bytes_eq
add_all_run = refl

empty-IsCollected : IsCollected empty_collector
empty-IsCollected = record { disjoint = omega arith; bounded = omega arith }

add_all-eq-none_example : (add_all (found_at (pos 2) (pos 5) 1 ∷ []) empty_collector).1 ≡ none
add_all-eq-none_example =
    add_all-eq-none (found_at (pos 2) (pos 5) 1 ∷ []) empty_collector empty-IsCollected
      (omega arith)

add_all-union_example :
    (let d = (add_all candidates empty_collector).0 in
      IsDisjoint 0 12 d.spans
      × (length d.spans ≤ 3)
      × ((p : ℕ) → covered p d.spans ≡ any (reports 12 p) candidates)
      × ((p : ℕ)
          → implies (any (flags (rule 3 ∷ []) 12 p) candidates) (flagged (rule 3 ∷ []) p d.spans)
            ≡ true))
unfolding add_all add
add_all-union_example = add_all-union candidates 12 (pos 3) (rule 3 ∷ []) refl
