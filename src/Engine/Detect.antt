-- ===== src/Engine/Detect.antt =====
-- What `Detect` promises (internal/privacyengine/engine.go).
use cpa_plugin_privacyfilter.Base.{
  ℕ, Bool, ◌⊎◌, subst, inl, inr, if◌then◌else◌, true, false, implies, Option, none, List, [], ◌∷◌,
  ◌++◌, ◌≡◌, refl, ◌∙◌, ap, arith, Bytes, length,
}
use cpa_plugin_privacyfilter.Base.Int.{pos, ◌+ℤ◌, int_laws}
use cpa_plugin_privacyfilter.Budget.{Budget, Usage, take_node, remaining_findings, take_findings}
use cpa_plugin_privacyfilter.Budget.Laws.{IsWithin}
use cpa_plugin_privacyfilter.Budget.Run.{
  node, finding, remaining, apply, apply-IsWithin, granted, ◌⊕◌,
}
use cpa_plugin_privacyfilter.Spans.{Candidate, Collector, new_collector}
use cpa_plugin_privacyfilter.Spans.Search.{IsDisjoint}
use cpa_plugin_privacyfilter.Spans.Union.{covered}
use cpa_plugin_privacyfilter.Spans.Preferred.{flagged}
use cpa_plugin_privacyfilter.Spans.Collect.{
  add_all, any, reports, flags, add_all-append, add_all-union,
}
use cpa_plugin_privacyfilter.Engine.{
  EngineError, Finding, run_layer, run_layers, Request, found, detect, charge_findings,
  detect_layers,
}

abbrev all_of : List (List Candidate × Option EngineError) → List Candidate
all_of [] = []
all_of (l ∷ ls) = l.0 ++ all_of ls

run_layer-eq-none :
    (ks : List Candidate) (ending : Option EngineError) (c : Collector)
    → (run_layer (ks, ending) c).1 ≡ none
    → ((add_all ks c).1 ≡ none) × ((run_layer (ks, ending) c).0 ≡ (add_all ks c).0)
unfolding run_layer
run_layer-eq-none ks ending c h = ground arith

-- Layers that end without an error have given the collector all their candidates, in order.
run_layers-eq-none :
    (ls : List (List Candidate × Option EngineError)) (c : Collector)
    → (run_layers ls c).1 ≡ none
    → ((add_all (all_of ls) c).1 ≡ none) × ((run_layers ls c).0 ≡ (add_all (all_of ls) c).0)
unfolding run_layers
run_layers-eq-none [] c h = unfold add_all in (refl, refl)
run_layers-eq-none ((ks, ending) ∷ ls) c h = ground (
  arith,
  run_layer-eq-none ks ending c,
  run_layers-eq-none ls (run_layer (ks, ending) c).0,
  add_all-append ks (all_of ls) c,
)

-- Every candidate of the three layers, in the order of the source.
abbrev pub layer_candidates : Request → Bytes → List Candidate
layer_candidates q text = q.credential text ++ ((q.pii text).0 ++ ((q.secrets text).0 ++ []))

-- The candidates that a request asks for: none where it preserves a placeholder.
abbrev pub candidates : Request → Bytes → List Candidate
candidates q text = if q.preserve_placeholder then [] else layer_candidates q text

-- The budget after the node is charged, and the collector that `detect` makes on it.
abbrev charged : Budget → Bytes → Budget
charged b text = (take_node b (pos (length text))).0

abbrev fresh : Request → Bytes → Budget → Collector
fresh q text b = new_collector (length text) (remaining_findings (charged b text)).1 q.preferred

abbrev collected : Request → Bytes → Budget → Collector × Option EngineError
collected q text b =
    run_layers ((q.credential text, none) ∷ q.pii text ∷ q.secrets text ∷ []) (fresh q text b)

charge_findings-found :
    (b : Budget) (c : Collector) {fs : List Finding}
    → (charge_findings b c).1 ≡ found fs
    → (fs ≡ c.spans)
      × ((take_findings b (pos (length fs))).1 ≡ none)
      × ((charge_findings b c).0 ≡ (take_findings b (pos (length fs))).0)
unfolding charge_findings
charge_findings-found b c h = ground arith

detect_layers-found :
    (q : Request) (text : Bytes) (b : Budget) {fs : List Finding}
    → (detect_layers q text (charged b text)).1 ≡ found fs
    → ((collected q text b).1 ≡ none)
      × (detect_layers q text (charged b text)
          ≡ charge_findings (remaining_findings (charged b text)).0 (collected q text b).0)
unfolding detect_layers
detect_layers-found q text b h = ground arith

detect_found_layers :
    (q : Request) (text : Bytes) (b : Budget) {fs : List Finding}
    → q.preserve_placeholder ≡ false
    → (detect q text b).1 ≡ found fs
    → ((take_node b (pos (length text))).1 ≡ none)
      × (detect q text b ≡ detect_layers q text (charged b text))
unfolding detect
detect_found_layers q text b p h = ground arith

-- What one successful inspection costs.
abbrev pub cost : Bytes → List Finding → Usage
cost text fs = record { bytes = pos (length text); findings = pos (length fs); nodes = pos 1 }

sum_of_charges :
    (u : Usage) (n m : ℕ)
    → u ⊕ granted (node (pos n)) ⊕ granted remaining ⊕ granted (finding (pos m))
      ≡ u ⊕ record { bytes = pos n; findings = pos m; nodes = pos 1 }
unfolding ◌⊕◌
sum_of_charges u n m =
    let b : u.bytes +ℤ pos n +ℤ pos 0 +ℤ pos 0 ≡ u.bytes +ℤ pos n = omega int_laws in
    let f : u.findings +ℤ pos 0 +ℤ pos 0 +ℤ pos m ≡ u.findings +ℤ pos m = omega int_laws in
    let k : u.nodes +ℤ pos 1 +ℤ pos 0 +ℤ pos 0 ≡ u.nodes +ℤ pos 1 = omega int_laws in
    λ i. record { bytes = b i; findings = f i; nodes = k i }

detect_charges :
    (text : Bytes) (b : Budget) (fs : List Finding)
    → b.initialized ≡ true
    → IsWithin b
    → (take_node b (pos (length text))).1 ≡ none
    → (take_findings (remaining_findings (charged b text)).0 (pos (length fs))).1 ≡ none
    → (let last = (take_findings (remaining_findings (charged b text)).0 (pos (length fs))).0 in
        IsWithin last × (last.usage ≡ b.usage ⊕ cost text fs))
unfolding apply
detect_charges text b fs ready w g1 g2 =
    let b1 = charged b text in
    let b2 = (remaining_findings b1).0 in
    let (w1, r1, _, u1) = apply-IsWithin (node (pos (length text))) b ready w in
    let (w2, r2, _, u2) = apply-IsWithin remaining b1 r1 w1 in
    let (w3, _, _, u3) = apply-IsWithin (finding (pos (length fs))) b2 r2 w2 in
    (
      w3,
      rw g2 at u3
          ∙ ap (λ u. u ⊕ granted (finding (pos (length fs))))
              (u2 ∙ ap (λ u. u ⊕ granted remaining) (rw g1 at u1))
          ∙ sum_of_charges b.usage (length text) (length fs),
    )

-- The outcome that is promised, from the candidates.
abbrev Outcome : Request → Bytes → Budget → List Finding → List Candidate → Type 0
Outcome q text b fs ks =
    IsDisjoint 0 (length text) fs
    × ((p : ℕ) → covered p fs ≡ any (reports (length text) p) ks)
    × ((p : ℕ)
        → implies (any (flags q.preferred (length text) p) ks) (flagged q.preferred p fs) ≡ true)
    × IsWithin (detect q text b).0
    × ((detect q text b).0.usage ≡ b.usage ⊕ cost text fs)

detect_preserved :
    (q : Request) (text : Bytes) (b : Budget) {fs : List Finding}
    → q.preserve_placeholder ≡ true
    → (detect q text b).1 ≡ found fs
    → ((take_node b (pos (length text))).1 ≡ none)
      × (fs ≡ [])
      × ((detect q text b).0 ≡ charged b text)
unfolding detect
detect_preserved q text b p h = ground arith

preserved-Outcome :
    (q : Request) (text : Bytes) (b : Budget) {fs : List Finding}
    → b.initialized ≡ true
    → IsWithin b
    → q.preserve_placeholder ≡ true
    → (detect q text b).1 ≡ found fs
    → Outcome q text b fs []
unfolding apply covered flagged
preserved-Outcome q text b {fs} ready w p h =
    let (granted1, e, same) = detect_preserved q text b p h in
    let (w1, _, _, u1) = apply-IsWithin (node (pos (length text))) b ready w in
    (rw e (omega arith), λ p. rw e refl, λ p. refl, rw same w1, rw (same, e) (rw granted1 at u1))

searched-Outcome :
    (q : Request) (text : Bytes) (b : Budget) {fs : List Finding}
    → b.initialized ≡ true
    → IsWithin b
    → q.preserve_placeholder ≡ false
    → (detect q text b).1 ≡ found fs
    → Outcome q text b fs (layer_candidates q text)
searched-Outcome q text b {fs} ready w keep h =
    let (granted1, e1) = detect_found_layers q text b keep h in
    let (ended, e2) = detect_layers-found q text b (rw e1 at h) in
    let b2 = (remaining_findings (charged b text)).0 in
    let (same, granted2, e3) = charge_findings-found b2 (collected q text b).0 (rw (e1, e2) at h) in
    let (none_refused, added) = run_layers-eq-none _ _ ended in
    let room = (remaining_findings (charged b text)).1 in
    let (d, bounded, u, f) =
      add_all-union (layer_candidates q text) (length text) room q.preferred none_refused in
    let all = same ∙ ap (λ c. c.spans) added in
    let (w3, spent) = detect_charges text b fs ready w granted1 granted2 in
    let e = e1 ∙ e2 in
    (
      rw all d,
      λ p. ap (covered p) all ∙ u p,
      λ p.
          ap (implies (any (flags q.preferred (length text) p) (layer_candidates q text)))
            (ap (flagged q.preferred p) all)
          ∙ f p,
      rw (e, e3) w3,
      ap (λ r. r.0.usage) e ∙ ap (λ r. r.usage) e3 ∙ spent,
    )

candidates-if :
    (b : Bool) (ks : List Candidate)
    → ((b ≡ true) × ([] ≡ (if b then [] else ks))) ⊎ ((b ≡ false) × (ks ≡ (if b then [] else ks)))
candidates-if true ks = inl (refl, refl)
candidates-if false ks = inr (refl, refl)

-- A successful `Detect` on a well-formed budget reports findings that are not empty, ascend, do not
-- overlap and lie in the text, and that cover exactly the positions that a valid candidate of
-- some layer covers; a position under a valid candidate of a preferred rule is in a finding of a
-- preferred rule. A request that preserves a placeholder asks no layer, and so has no candidates
-- and no findings. The budget is charged one node, the bytes of the text and the number of
-- findings, and stays within its limits.
pub detect-found :
    (q : Request) (text : Bytes) (b : Budget) {fs : List Finding}
    → b.initialized ≡ true
    → IsWithin b
    → (detect q text b).1 ≡ found fs
    → IsDisjoint 0 (length text) fs
      × ((p : ℕ) → covered p fs ≡ any (reports (length text) p) (candidates q text))
      × ((p : ℕ)
          → implies
              (any (flags q.preferred (length text) p) (candidates q text))
              (flagged q.preferred p fs)
            ≡ true)
      × IsWithin (detect q text b).0
      × ((detect q text b).0.usage ≡ b.usage ⊕ cost text fs)
detect-found q text b {fs} ready w h =
    elim (candidates-if q.preserve_placeholder (layer_candidates q text)) [
      | inl (y, e) ↦ subst (Outcome q text b fs) e (preserved-Outcome q text b ready w y h)
      | inr (n, e) ↦ subst (Outcome q text b fs) e (searched-Outcome q text b ready w n h)
    ]
