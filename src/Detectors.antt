-- ===== src/Detectors.antt =====
-- The call of the three detectors in `detect` of internal/privacyengine/engine.go, with the models of
-- pii.go and secrets.go in the places of the layers.
use cpa_plugin_privacyfilter.Base.{
  ℕ, not, Bool, true, false, ◌||◌, List, [], ◌∷◌, ◌++◌, ◌≡◌, refl, ap₂, ◌∙◌, Bool-cases, inl, inr,
  Bytes, length, All, All-append, All-map, arith,
}
use cpa_plugin_privacyfilter.Base.Int.{pos}
use cpa_plugin_privacyfilter.Base.Text.{codes}
use cpa_plugin_privacyfilter.Budget.{Budget}
use cpa_plugin_privacyfilter.Budget.Laws.{IsWithin}
use cpa_plugin_privacyfilter.Spans.{secret, Candidate, accept, is_valid}
use cpa_plugin_privacyfilter.Spans.Union.{covered, inside}
use cpa_plugin_privacyfilter.Spans.Collect.{any, reports}
use cpa_plugin_privacyfilter.Engine.{Finding, Request, found, detect}
use cpa_plugin_privacyfilter.Engine.Detect.{candidates, detect-found}
use cpa_plugin_privacyfilter.Pii.{Patterns, detect_pii}
use cpa_plugin_privacyfilter.Pii.Valid.{AllFind, detect_pii-Sound}
use cpa_plugin_privacyfilter.Secrets.Keys.{
  FieldContext, credential_field_applies, detect_credential_field,
}
use cpa_plugin_privacyfilter.Secrets.Noise.{Toolbox, is_credential_placeholder}
use cpa_plugin_privacyfilter.Secrets.Rules.{Allowlist, SecretRule, detect_secrets}
use cpa_plugin_privacyfilter.Secrets.Rules.Valid.{InText, detect_secrets-InText}

-- `Engine`, as far as `detect` reads it, with the expressions.
pub record Detectors {ℓ} (F : Type ℓ) : Type ℓ where
  pub toolbox : Toolbox F
  pub patterns : Patterns
  pub rules : List (SecretRule F)
  pub global_allowlists : List Allowlist

module _ {ℓ} {F : Type ℓ} (e : Detectors F) (done : ℕ → Bool) where
  -- `done n` is whether the context is done when it is read for the n-th time, after the first check.
  unfoldable pub request_of : Bool → List Bytes → FieldContext → Request
  unfolding detect_credential_field is_credential_placeholder detect_pii detect_secrets
  request_of preserve preferred field = record {
    canceled = false;
    preserve_placeholder = preserve;
    preferred = preferred;
    credential = λ text. detect_credential_field (is_credential_placeholder e.toolbox) field text;
    pii = λ text.
        let (ks, ending, t) = detect_pii done e.toolbox.to_lower e.patterns text 0 in (ks, ending);
    secrets = λ text.
        let (ks, ending, t) =
          detect_secrets e.toolbox done e.global_allowlists e.rules text
            (detect_pii done e.toolbox.to_lower e.patterns text 0).2 in
        (ks, ending);
  }

-- The guard of `add` takes no position from the candidate.
abbrev Counts : ℕ → Candidate → Type 0
Counts n k = (p : ℕ) → reports n p k ≡ inside p (accept k)

InText-Counts : (text : Bytes) (k : Candidate) → InText text k → Counts (length text) k
InText-Counts text k h p = rw h refl

whole-Counts :
    (n p : ℕ) (rule : Bytes)
    → (let k : Candidate = record { start = pos 0; stop = pos n; kind = secret; rule_id = rule } in
        reports n p k ≡ inside p (accept k))
unfolding is_valid
whole-Counts n p rule = ground arith

credential-Counts :
    (is_placeholder : Bytes → Bool) (f : FieldContext) (text : Bytes)
    → All (Counts (length text)) (detect_credential_field is_placeholder f text)
unfolding detect_credential_field
credential-Counts is_placeholder f text =
    elim (Bool-cases (not (credential_field_applies f) || is_placeholder text)) [
      | inl y ↦ rw y tt
      | inr n ↦ rw n (λ p. whole-Counts (length text) p (codes "builtin.credential-field"), tt)
    ]

any-reports :
    (n p : ℕ) (ks : List Candidate)
    → All (Counts n) ks
    → any (reports n p) ks ≡ any (λ k. inside p (accept k)) ks
any-reports n p [] h = refl
any-reports n p (k ∷ ks) h = ap₂ ◌||◌ (h.0 p) (any-reports n p ks h.1)

module _ {ℓ} {F : Type ℓ} (e : Detectors F) (done : ℕ → Bool) (preferred : List Bytes)
    (field : FieldContext) (text : Bytes) where
  candidates-Count :
      AllFind e.patterns
      → (preserve : Bool)
      → All (Counts (length text)) (candidates (request_of e done preserve preferred field) text)
  unfolding request_of
  candidates-Count f true = tt
  candidates-Count f false =
      let q = request_of e done false preferred field in
      All-append (Counts (length text)) (q.credential text)
        ((q.pii text).0 ++ ((q.secrets text).0 ++ []))
        (credential-Counts (is_credential_placeholder e.toolbox) field text)
        (All-append (Counts (length text)) (q.pii text).0 ((q.secrets text).0 ++ [])
          (All-map (λ k s. InText-Counts text k s.0) (q.pii text).0
            ((detect_pii-Sound done e.toolbox.to_lower e.patterns text f).all 0))
          (All-append (Counts (length text)) (q.secrets text).0 []
            (All-map (InText-Counts text) (q.secrets text).0
              ((detect_secrets-InText e.toolbox done e.global_allowlists e.rules text).0.all _))
            tt))

  -- With the detectors of the engine, a successful `Detect` on a well-formed budget covers exactly the
  -- positions that some candidate covers: none of their candidates is dropped for its bounds. A
  -- request that preserves a placeholder has no candidates. The expressions of pii.go are to give the
  -- bounds of a nonempty match in the text.
  pub detect-request_of :
      (preserve : Bool) (b : Budget) {fs : List Finding}
      → AllFind e.patterns
      → b.initialized ≡ true
      → IsWithin b
      → (detect (request_of e done preserve preferred field) text b).1 ≡ found fs
      → (p : ℕ)
      → covered p fs
        ≡ any
            (λ k. inside p (accept k))
            (candidates (request_of e done preserve preferred field) text)
  detect-request_of preserve b f ready w h p =
      let q = request_of e done preserve preferred field in
      let (_, union, _, _, _) = detect-found q text b ready w h in
      union p ∙ any-reports (length text) p (candidates q text) (candidates-Count f preserve)
