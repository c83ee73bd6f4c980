-- ===== src/Engine.antt =====
-- `Detect` and `Redact` of internal/privacyengine/engine.go. The regular expressions stand behind
-- the two detector layers, which are arguments: a layer is the candidates that it hands to the
-- collector for a text, in order, and the error with which it ends if the collector takes them all.
pub mod Rebuild
pub mod Redact
pub mod Detect
use cpa_plugin_privacyfilter.Base.{
  ℕ, suc, ◌+◌, Bool, true, false, not, ◌&&◌, ◌||◌, Option, none, some, List, [], ◌∷◌, ◌++◌, ltb,
  leb, if◌then◌else◌, Bytes, length, slice, drop,
}
use cpa_plugin_privacyfilter.Base.Int.{ℤ, pos}
use cpa_plugin_privacyfilter.Budget.{
  Limits, LimitError, Budget, new_budget_unchecked, take_node, remaining_findings, take_findings,
}
use cpa_plugin_privacyfilter.Spans.{Kind, Span, Candidate, Collector, new_collector, add}
use cpa_plugin_privacyfilter.Spans.Collect.{add_all}

pub data EngineError : Type 0 where
  canceled internal_failure renderer_failed : EngineError
  limit : LimitError → EngineError

-- `Finding` has the fields of a span, and `findings()` copies them.
abbrev pub Finding : Type 0
Finding = Span

abbrev pub findings_of : Collector → List Finding
findings_of c = c.spans

abbrev pub Layer : Type 0
Layer = Bytes → List Candidate × Option EngineError

-- The calls of `collector.add` that a layer makes.
unfoldable pub run_layer :
    List Candidate × Option EngineError → Collector → Collector × Option EngineError
run_layer (ks, ending) c =
    let (c', e) = add_all ks c in (c', elim e [ none ↦ ending | some x ↦ some (limit x) ])

-- One layer after the other, up to the first error.
unfoldable pub run_layers :
    List (List Candidate × Option EngineError) → Collector → Collector × Option EngineError
unfolding run_layer
run_layers [] c = (c, none)
run_layers (l ∷ ls) c =
    let rest = run_layers ls (run_layer l c).0 in
    elim (run_layer l c).1 [ none ↦ rest | some e ↦ ((run_layer l c).0, some e) ]

-- What one call of `Detect` is given besides the text.
pub record Request : Type 0 where
  -- `ctx.Err() != nil` on entry
  pub canceled : Bool
  pub preserve_placeholder : Bool
  pub preferred : List Bytes
  -- the candidates of `detectCredentialField`, then `detectPII` and `detectSecrets`
  pub credential : Bytes → List Candidate
  pub pii : Layer
  pub secrets : Layer

pub data Detected : Type 0 where
  found : List Finding → Detected
  failed : EngineError → Detected

-- The end of `detect`: the findings are charged to the budget.
charge_findings : Budget → Collector → Budget × Detected
charge_findings b c =
    let (b', e) = take_findings b (pos (length (findings_of c))) in
    (b', elim e [ none ↦ found (findings_of c) | some x ↦ failed (limit x) ])

-- `detect` once the node is charged
detect_layers : Request → Bytes → Budget → Budget × Detected
detect_layers q text b =
    let (b', room) = remaining_findings b in
    let layers = (q.credential text, none) ∷ q.pii text ∷ q.secrets text ∷ [] in
    let (c, e) = run_layers layers (new_collector (length text) room q.preferred) in
    elim e [ none ↦ charge_findings b' c | some x ↦ (b', failed x) ]

-- `detect`, on the budget of the request. A call without a budget runs on a fresh one.
unfoldable pub detect : Request → Bytes → Budget → Budget × Detected
unfolding charge_findings detect_layers
detect q text b =
    if q.canceled
    then (b, failed canceled)
    else let (b', e) = take_node b (pos (length text)) in
      elim e [
        | some x ↦ (b', failed (limit x))
        | none ↦ if q.preserve_placeholder then (b', found []) else detect_layers q text b'
      ]

pub record Redaction : Type 0 where
  pub redacted : Bytes
  pub findings : List Finding

-- `Renderer`: a function of the finding and its text, with a state of its own.
abbrev pub Renderer {ℓ} : Type ℓ → Type ℓ
Renderer S = Finding → Bytes → S → S × Option Bytes

-- The loop over the builder: `out` is what is written, `previous` where the text goes on.
unfoldable pub rebuild : Bytes → Bytes → ℕ → List (Finding × Bytes) → Bytes
rebuild text out previous [] = out ++ drop previous text
rebuild text out previous ((f, replacement) ∷ rest) =
    rebuild text (out ++ slice text previous f.start ++ replacement) f.stop rest

-- The findings that a failed rendering still reports: none after an internal failure.
abbrev pub kept_findings : EngineError → List Finding → List Finding
kept_findings internal_failure fs = []
kept_findings canceled fs = fs
kept_findings renderer_failed fs = fs
kept_findings (limit x) fs = fs

module _ {ℓ} {S : Type ℓ} where
  -- The loop that renders. `canceled_at i` is `ctx.Err() != nil` before the i-th finding.
  unfoldable pub render_all :
      Renderer S
      → (ℕ → Bool)
      → Bytes
      → ℕ
      → List Finding
      → S
      → S × Option EngineError × List (Finding × Bytes)
  render_all render canceled_at text i [] s = (s, none, [])
  render_all render canceled_at text i (f ∷ fs) s =
      let (s', r) = render f (slice text f.start f.stop) s in
      let (s'', e, rest) = render_all render canceled_at text (suc i) fs s' in
      if canceled_at i
      then (s, some canceled, [])
      else if leb f.stop f.start || ltb (length text) f.stop
      then (s, some internal_failure, [])
      else elim r [ none ↦ (s', some renderer_failed, []) | some x ↦ (s'', e, (f, x) ∷ rest) ]

  redact_findings :
      Renderer S → (ℕ → Bool) → Bytes → List Finding → S → S × Redaction × Option EngineError
  redact_findings render canceled_at text fs s =
      let (s', e, pairs) = render_all render canceled_at text 0 fs s in
      elim e [
        | some x ↦ (s', record { redacted = text; findings = kept_findings x fs }, some x)
        | none ↦ (s', record { redacted = rebuild text [] 0 pairs; findings = fs }, none)
      ]

  -- `Redact`, from the outcome of `detect`
  unfoldable pub redact :
      Renderer S → (ℕ → Bool) → Bytes → Detected → S → S × Redaction × Option EngineError
  unfolding redact_findings
  redact render canceled_at text (failed e) s =
      (s, record { redacted = text; findings = [] }, some e)
  redact render canceled_at text (found []) s = (s, record { redacted = text; findings = [] }, none)
  redact render canceled_at text (found (f ∷ fs)) s =
      redact_findings render canceled_at text (f ∷ fs) s
