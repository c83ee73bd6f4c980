-- ===== src/Tests/Engines.antt =====
-- `Detect` and `Redact` on concrete inputs.
use cpa_plugin_privacyfilter.Base.{
  ℕ, Bool, true, false, implies, none, some, List, [], ◌∷◌, map, Bytes, bytes_eq, ◌≡◌, ◌≢◌, ◌⊎◌,
  refl, arith,
}
use cpa_plugin_privacyfilter.Base.Int.{pos}
use cpa_plugin_privacyfilter.Budget.{
  Budget, new_budget_unchecked, default_limits, take_node, take_findings, remaining_findings,
}
use cpa_plugin_privacyfilter.Budget.Laws.{IsWithin}
use cpa_plugin_privacyfilter.Budget.Run.{◌⊕◌}
use cpa_plugin_privacyfilter.Spans.{Kind, Candidate, add}
use cpa_plugin_privacyfilter.Spans.Search.{IsDisjoint}
use cpa_plugin_privacyfilter.Spans.Union.{covered}
use cpa_plugin_privacyfilter.Spans.Preferred.{flagged}
use cpa_plugin_privacyfilter.Spans.Collect.{add_all, any, reports, flags}
use cpa_plugin_privacyfilter.Engine.{
  EngineError, Finding, Renderer, Request, found, run_layers, detect, render_all, rebuild, redact,
}
use cpa_plugin_privacyfilter.Engine.Rebuild.{masked}
use cpa_plugin_privacyfilter.Engine.Redact.{redact-masked}
use cpa_plugin_privacyfilter.Engine.Detect.{cost, candidates, detect-found}

abbrev text : Bytes
text = 10 ∷ 11 ∷ 12 ∷ 13 ∷ 14 ∷ 15 ∷ []

abbrev found_at : ℕ → ℕ → Candidate
found_at from to = record { start = pos from; stop = pos to; kind = Kind.secret; rule_id = 1 ∷ [] }

abbrev span_at : ℕ → ℕ → Finding
span_at from to = record { start = from; stop = to; kind = Kind.secret; rule_id = 1 ∷ [] }

abbrev request : Request
request = record {
  canceled = false;
  preserve_placeholder = false;
  preferred = (1 ∷ []) ∷ [];
  credential = λ t. [];
  pii = λ t. (found_at 1 3 ∷ [], none);
  secrets = λ t. (found_at 2 4 ∷ found_at 5 6 ∷ [], none);
}

abbrev budget : Budget
budget = new_budget_unchecked default_limits

abbrev results : List Finding
results = span_at 1 4 ∷ span_at 5 6 ∷ []

detect_run : (detect request text budget).1 ≡ found results
unfolding detect take_node take_findings remaining_findings run_layers add_all add bytes_eq
detect_run = refl

budget-IsWithin : IsWithin budget
budget-IsWithin = omega arith

detect-found_example :
    IsDisjoint 0 6 results
    × ((p : ℕ) → covered p results ≡ any (reports 6 p) (candidates request text))
    × ((p : ℕ)
        → implies
            (any (flags ((1 ∷ []) ∷ []) 6 p) (candidates request text))
            (flagged ((1 ∷ []) ∷ []) p results)
          ≡ true)
    × IsWithin (detect request text budget).0
    × ((detect request text budget).0.usage ≡ budget.usage ⊕ cost text results)
detect-found_example = detect-found request text budget refl budget-IsWithin detect_run

-- Every finding is rendered as one byte.
abbrev render : Renderer ℕ
render f plain n = (n, some (100 ∷ []))

abbrev never : ℕ → Bool
never i = false

redact_run : (redact render never text (found results) 0).1.redacted ≡ 10 ∷ 100 ∷ 14 ∷ 100 ∷ []
unfolding redact render_all rebuild
redact_run = refl

redact-masked_example :
    (let r = redact render never text (found results) 0 in
      let pairs = (render_all render never text 0 results 0).2 in
      ((r.2 ≡ none)
        × (map (λ x. x.0) pairs ≡ results)
        × (r.1.redacted ≡ masked 0 text pairs)
        × (r.1.findings ≡ results))
      ⊎ ((r.2 ≢ none) × (r.2 ≢ some EngineError.internal_failure) × (r.1.redacted ≡ text)))
redact-masked_example = redact-masked render never text results 0 (omega arith)
