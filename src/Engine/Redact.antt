-- ===== src/Engine/Redact.antt =====
-- What `Redact` promises (internal/privacyengine/engine.go).
use cpa_plugin_privacyfilter.Base.{
  ℕ, suc, Bool, true, false, inl, inr, Option-cases, none, some, List, [], ◌∷◌, map, ◌≡◌, ◌≢◌, ◌⊎◌,
  refl, ◌∙◌, sym, arith, Bytes, length, slice,
}
use cpa_plugin_privacyfilter.Spans.Search.{IsDisjoint, IsDisjoint-le}
use cpa_plugin_privacyfilter.Engine.{
  EngineError, internal_failure, Finding, found, Renderer, render_all, rebuild, redact,
  kept_findings,
}
use cpa_plugin_privacyfilter.Engine.Rebuild.{masked, masked-nil, rebuild-masked}

abbrev is_nil : List Finding → Bool
is_nil [] = true
is_nil (f ∷ fs) = false

module _ {ℓ} {S : Type ℓ} (render : Renderer S) (canceled_at : ℕ → Bool) (text : Bytes) where
  render_all-findings :
      (i : ℕ) (fs : List Finding) (s : S)
      → (render_all render canceled_at text i fs s).1 ≡ none
      → map (λ x. x.0) (render_all render canceled_at text i fs s).2 ≡ fs
  unfolding render_all
  render_all-findings i [] s h = refl
  render_all-findings i (f ∷ fs) s h =
      ground (arith, render_all-findings (suc i) fs (render f (slice text f.start f.stop) s).0)

  render_all-ne-internal :
      (i lo : ℕ) (fs : List Finding) (s : S)
      → IsDisjoint lo (length text) fs
      → (render_all render canceled_at text i fs s).1 ≢ some internal_failure
  unfolding render_all
  render_all-ne-internal i lo [] s d = λ h. cc
  render_all-ne-internal i lo (f ∷ fs) s d = ground (
    arith,
    IsDisjoint-le f.stop (length text) fs d.2,
    render_all-ne-internal (suc i) f.stop fs (render f (slice text f.start f.stop) s).0 d.2,
  )

  some-ne-none : {x : EngineError} → ¬ (some x ≡ none)
  some-ne-none h = cc

  redact_rendered :
      (fs : List Finding) (s : S)
      → is_nil fs ≡ false
      → (render_all render canceled_at text 0 fs s).1 ≡ none
      → redact render canceled_at text (found fs) s ≡ (
        (render_all render canceled_at text 0 fs s).0,
        record {
          redacted = rebuild text [] 0 (render_all render canceled_at text 0 fs s).2;
          findings = fs;
        },
        none,
      )
  unfolding redact
  redact_rendered [] s n e = cc
  redact_rendered (f ∷ fs) s n e = ground arith

  redact_failed :
      (fs : List Finding) (s : S) (x : EngineError)
      → is_nil fs ≡ false
      → (render_all render canceled_at text 0 fs s).1 ≡ some x
      → redact render canceled_at text (found fs) s ≡ (
        (render_all render canceled_at text 0 fs s).0,
        record { redacted = text; findings = kept_findings x fs },
        some x,
      )
  unfolding redact
  redact_failed [] s x n e = cc
  redact_failed (f ∷ fs) s x n e = ground arith

  -- For findings that ascend, do not overlap and lie in the text, `Redact` either renders them all,
  -- and the result is the text with exactly their bytes replaced, or it fails and returns the text
  -- as it was, and then not for a finding out of the text.
  pub redact-masked :
      (fs : List Finding) (s : S)
      → IsDisjoint 0 (length text) fs
      → (let r = redact render canceled_at text (found fs) s in
          let pairs = (render_all render canceled_at text 0 fs s).2 in
          ((r.2 ≡ none)
            × (map (λ x. x.0) pairs ≡ fs)
            × (r.1.redacted ≡ masked 0 text pairs)
            × (r.1.findings ≡ fs))
          ⊎ ((r.2 ≢ none) × (r.2 ≢ some internal_failure) × (r.1.redacted ≡ text)))
  redact-masked [] s d = unfold redact render_all in inl (refl, refl, sym (masked-nil 0 text), refl)
  redact-masked (f ∷ fs) s d =
      elim (Option-cases (render_all render canceled_at text 0 (f ∷ fs) s).1) [
        | inl e ↦
            let fits = render_all-findings 0 (f ∷ fs) s e in
            rw (redact_rendered (f ∷ fs) s refl e)
              (inl (refl, fits, rebuild-masked text _ (rw fits d), refl))
        | inr (x, e) ↦
            let ne = render_all-ne-internal 0 0 (f ∷ fs) s d in
            rw (redact_failed (f ∷ fs) s x refl e) (inr (some-ne-none, λ h. ne (e ∙ h), refl))
      ]
