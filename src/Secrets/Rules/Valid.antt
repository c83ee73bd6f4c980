-- ===== src/Secrets/Rules/Valid.antt =====
-- The candidates of `detectSecrets`, and how it ends.
use cpa_plugin_privacyfilter.Base.{
  ℕ, suc, ◌+◌, ◌-◌, ◌%◌, ◌≤◌, Bool, true, false, ◌||◌, Option, none, some, List, [], ◌∷◌, ◌≡◌, ◌≢◌,
  refl, ltb, leb, ◌==◌, if◌then◌else◌, Bool-cases, Option-cases, inl, inr, Bytes, length, slice,
  arith, none-ne-some, true≢false,
}
use cpa_plugin_privacyfilter.Base.Text.{codes}
use cpa_plugin_privacyfilter.Base.Int.{ℤ, pos, ltb_ℤ, leb_ℤ}
use cpa_plugin_privacyfilter.Spans.{Candidate, secret, is_valid}
use cpa_plugin_privacyfilter.Engine.{EngineError, internal_failure}
use cpa_plugin_privacyfilter.Pii.{candidate_of, sub_text}
use cpa_plugin_privacyfilter.Matching.{
  Scan, finish, emit, ◌▷◌, absolute, index_at, check, for_each_submatch,
}
use cpa_plugin_privacyfilter.Matching.Induction.{Composes, if-R, for_each_submatch-R}
use cpa_plugin_privacyfilter.Matching.Bounds.{Emits, Fits, if-Fits, emit-Emits, Emits-Composes}
use cpa_plugin_privacyfilter.Matching.Ends.{Ends, Allowed, emit-Ends, Ends-Composes}
use cpa_plugin_privacyfilter.Secrets.Noise.{Toolbox, is_filesystem_path, is_context_secret_noise}
use cpa_plugin_privacyfilter.Secrets.Context.{and_then, is_no_span, has_strong_secret_context}
use cpa_plugin_privacyfilter.Secrets.Context.Slices.{Returns, returned, if-Returns, context-Returns}
use cpa_plugin_privacyfilter.Secrets.Tokens.{
  is_entropy_token_byte, close_token, token_start, check_often, token_loop, for_each_entropy_token,
}
use cpa_plugin_privacyfilter.Secrets.Rules.{
  Allowlist, SecretRule, rule_applies, select_bounds, select_candidate, is_turned_down, weigh_token,
  rule_visit, is_benign, is_no_match, has_ascii_upper, context_visit, judge_token, token_visit,
  emit_checked, each_rule, detect_secrets,
}

-- A candidate that the collector accepts.
abbrev pub InText : Bytes → Candidate → Type 0
InText text k = is_valid (length text) k ≡ true

-- Where a loop over the tokens is, as it concerns the bounds.
abbrev Started : Option ℕ → ℕ → Type 0
Started none i = Unit {0}
Started (some start) i = start ≤ i

token_start-Started : (s : Option ℕ) (i : ℕ) → Started s i → Started (token_start s i) (suc i)
token_start-Started none i h = omega arith
token_start-Started (some start) i h = omega arith

module _ (done : ℕ → Bool) (R : Scan → Type 0) (k : Composes done R) (visit : ℕ → ℕ → Scan) (n : ℕ)
    (h : (start stop : ℕ) → start + 20 ≤ stop → stop ≤ n → R (visit start stop)) where
  check_often-R : (i : ℕ) → R (check_often done visit i)
  unfolding check_often
  check_often-R i = if-R R (i % 4096 == 0) (check done) finish k.checked k.finished

  close_token-R : (s : Option ℕ) (i : ℕ) → Started s i → i ≤ n → R (close_token visit s i)
  close_token-R none i g le = k.finished
  close_token-R (some start) i g le = elim (Bool-cases (leb 20 (i - start))) [
    | inl y ↦ rw y (h start i (ground arith) le)
    | inr m ↦ rw m k.finished
  ]

  token_loop-R :
      (cs : Bytes) (s : Option ℕ) (i : ℕ)
      → Started s i
      → i + length cs ≤ n
      → R (token_loop done visit s i cs)
  unfolding token_loop
  token_loop-R [] s i g le =
      k.chained (check_often done visit i) (close_token visit s i) (check_often-R i)
        (close_token-R s i g (omega arith))
  token_loop-R (c ∷ cs) s i g le =
      let inside = token_loop done visit (token_start s i) (suc i) cs in
      let outside = close_token visit s i ▷ token_loop done visit none (suc i) cs in
      k.chained (check_often done visit i) (if is_entropy_token_byte c then inside else outside)
        (check_often-R i)
        (if-R R (is_entropy_token_byte c) inside outside
          (token_loop-R cs (token_start s i) (suc i) (token_start-Started s i g) (omega arith))
          (k.chained (close_token visit s i) (token_loop done visit none (suc i) cs)
            (close_token-R s i g (omega arith)) (token_loop-R cs none (suc i) tt (omega arith))))

secret-InText :
    (text : Bytes) (rule : Bytes) (start stop : ℤ)
    → is_no_span text start stop ≡ false
    → Fits (InText text) (candidate_of secret rule start stop)
unfolding is_valid
secret-InText text rule start stop h = rw h refl

-- A visit that does not panic, with a candidate in the text or none.
data Judged (text : Bytes) (o : Option (Option Candidate)) : Type 0 where
  judged : (k : Option Candidate) → o ≡ some k → Fits (InText text) k → Judged text o

if-Judged :
    (text : Bytes) (b : Bool) (x y : Option (Option Candidate))
    → Judged text x
    → Judged text y
    → Judged text (if b then x else y)
if-Judged text true x y h g = h
if-Judged text false x y h g = g

and_then-Judged :
    (text : Bytes) (o : Option Bool) (f : Bool → Option (Option Candidate))
    → Returns o
    → ((b : Bool) → Judged text (f b))
    → Judged text (and_then o f)
and_then-Judged text o f (returned b e) h = rw e (h b)

no_candidate : (text : Bytes) → Judged text (some none)
no_candidate text = judged none refl tt

outside_guard :
    (a : Bool) (n : ℕ) (text : Bytes) (start stop : ℤ)
    → (a || ltb_ℤ start (pos 0) || leb_ℤ stop start || ltb_ℤ (pos n) stop) ≡ false
    → (ltb_ℤ start (pos 0) || leb_ℤ stop start || ltb_ℤ (pos n) stop) ≡ false
outside_guard true n text start stop h = absurd (true≢false h)
outside_guard false n text start stop h = h

module _ {ℓ} {F : Type ℓ} (t : Toolbox F) (text : Bytes) where
  select_candidate-InText :
      (gs : List Allowlist) (rule : SecretRule F) (is : List ℤ) (bounds : ℤ × ℤ)
      → Fits (InText text) (select_candidate t gs rule text is bounds)
  unfolding select_candidate
  select_candidate-InText gs rule is (start, stop) =
      let P : Candidate → Type 0 = InText text in
      if-Fits P (is_no_span text start stop) none _ (λ h. tt)
        (λ h.
          if-Fits P (is_turned_down t gs rule _) none (candidate_of secret rule.id start stop)
            (λ g. tt) (λ g. secret-InText text rule.id start stop h))

  rule_visit-InText :
      (gs : List Allowlist) (rule : SecretRule F) (is : List ℤ)
      → Fits (InText text) (rule_visit t gs rule text is)
  unfolding rule_visit
  rule_visit-InText gs rule is =
      if-Fits (InText text) (is_no_match text is) none _ (λ h. tt)
        (λ h. elim (Option-cases (select_bounds rule.automatic_capture rule.secret_group is)) [
          | inl n ↦ rw n tt
          | inr (bounds, e) ↦ rw e (select_candidate-InText gs rule is bounds)
        ])

  context_visit-InText :
      (is_noise : Bytes → Bool) (is : List ℤ) → Fits (InText text) (context_visit is_noise text is)
  unfolding context_visit
  context_visit-InText is_noise is =
      if-Fits (InText text)
        (ltb (length is) 4
          || ltb_ℤ (index_at is 2) (pos 0)
          || leb_ℤ (index_at is 3) (index_at is 2)
          || ltb_ℤ (pos (length text)) (index_at is 3))
        none _ (λ h. tt)
        (λ h.
          if-Fits (InText text) (is_noise (sub_text text (index_at is 2) (index_at is 3))) none _
            (λ g. tt)
            (λ g.
              secret-InText text (codes "builtin.context-secret") (index_at is 2) (index_at is 3) (
                outside_guard (ltb (length is) 4) (length text) text (index_at is 2) (index_at is 3)
                  h)))

  weigh_token-InText :
      (start stop : ℕ) (near : Bool)
      → start + 20 ≤ stop
      → stop ≤ length text
      → Fits (InText text) (weigh_token t text start stop near)
  unfolding weigh_token
  weigh_token-InText start stop near h g =
      if-Fits (InText text) (t.below _ _) none
        (candidate_of secret (codes "builtin.high-entropy") (pos start) (pos stop)) (λ k. tt)
        (λ k.
          secret-InText text (codes "builtin.high-entropy") (pos start) (pos stop) (ground arith))

  judge_token-Judged :
      (start stop : ℕ) (strong : Bool) (b c : Option Bool)
      → start + 20 ≤ stop
      → stop ≤ length text
      → Returns b
      → Returns c
      → Judged text (judge_token t text start stop strong b c)
  unfolding judge_token
  judge_token-Judged start stop strong b c h g rb rc =
      if-Judged text (is_filesystem_path (slice text start stop)) (some none) _ (no_candidate text)
        (and_then-Judged text (if strong then some false else b) _
          (if-Returns strong (some false) b (λ e. returned false refl) (λ e. rb))
          (λ excluded.
            if-Judged text (excluded || is_benign t (slice text start stop)) (some none) _
              (no_candidate text)
              (and_then-Judged text c _ rc
                (λ near. judged _ refl (weigh_token-InText start stop near h g)))))

  token_visit-Judged :
      (start stop : ℕ)
      → start + 20 ≤ stop
      → stop ≤ length text
      → Judged text (token_visit t text start stop)
  unfolding token_visit
  token_visit-Judged start stop h g =
      let (near, strong, boundary) = context-Returns t text (pos start) (pos stop) in
      and_then-Judged text (has_strong_secret_context t text (pos start) (pos stop)) _ strong
        (λ b. judge_token-Judged start stop b _ _ h g boundary near)

-- What holds of a visit with a candidate in the text, or none, and goes over to what is built of
-- visits, holds of the whole detector.
module _ {ℓ} {F : Type ℓ} (t : Toolbox F) (done : ℕ → Bool) (text : Bytes) (R : Scan → Type 0)
    (k : Composes done R) (h : (o : Option Candidate) → Fits (InText text) o → R (emit o)) where
  emit_checked-R : (o : Option (Option Candidate)) → Judged text o → R (emit_checked o)
  emit_checked-R o (judged c e f) = rw e (h c f)

  each_rule-R :
      (gs : List Allowlist) (lower : Bytes) (rules : List (SecretRule F))
      → R (each_rule t done gs text lower rules)
  unfolding each_rule
  each_rule-R gs lower [] = k.finished
  each_rule-R gs lower (rule ∷ rules) =
      let rest = each_rule t done gs text lower rules in
      let one = for_each_submatch done rule.re text (rule_visit t gs rule text) in
      k.chained (check done) (if rule_applies lower rule.keywords then one ▷ rest else rest)
        k.checked
        (if-R R (rule_applies lower rule.keywords) (one ▷ rest) rest
          (k.chained one rest
            (for_each_submatch-R done R k rule.re text (rule_visit t gs rule text)
              (λ offset is o e. h _ (rule_visit-InText t text gs rule (absolute offset is))))
            (each_rule-R gs lower rules))
          (each_rule-R gs lower rules))

  detect_secrets-R :
      (gs : List Allowlist) (rules : List (SecretRule F)) → R (detect_secrets t done gs rules text)
  unfolding detect_secrets for_each_entropy_token
  detect_secrets-R gs rules =
      let lower = if has_ascii_upper text then t.to_lower text else text in
      let named =
        for_each_submatch done t.context_secret text
          (context_visit (is_context_secret_noise t) text) in
      let visit : ℕ → ℕ → Scan = λ start stop. emit_checked (token_visit t text start stop) in
      k.chained (each_rule t done gs text lower rules ▷ named) (token_loop done visit none 0 text)
        (k.chained (each_rule t done gs text lower rules) named (each_rule-R gs lower rules) (
          for_each_submatch-R done R k t.context_secret text
            (context_visit (is_context_secret_noise t) text)
            (λ offset is o e.
              h _ (context_visit-InText t text (is_context_secret_noise t) (absolute offset is)))))
        (token_loop-R done R k visit (length text)
          (λ start stop long le. emit_checked-R _ (token_visit-Judged t text start stop long le))
          text none 0 tt (omega arith))

abbrev pub NoPanic : Option EngineError → Type 0
NoPanic e = e ≢ some internal_failure

NoPanic-Allowed : Allowed NoPanic
NoPanic-Allowed = record { finished = λ e. none-ne-some e; stopped = λ e. cc }

-- Whatever the expressions, the allowlists and the rules are and whatever the context does, every
-- candidate of `detectSecrets` is one that the collector accepts, with bounds in the text, and no
-- test of the context of a token makes the detector panic.
pub detect_secrets-InText {ℓ} :
    {F : Type ℓ} (t : Toolbox F) (done : ℕ → Bool) (gs : List Allowlist)
    (rules : List (SecretRule F)) (text : Bytes)
    → Emits (InText text) (detect_secrets t done gs rules text)
      × Ends NoPanic (detect_secrets t done gs rules text)
detect_secrets-InText t done gs rules text = (
  detect_secrets-R t done text (Emits (InText text)) (Emits-Composes (InText text) done)
      (emit-Emits (InText text)) gs rules,
  detect_secrets-R t done text (Ends NoPanic) (Ends-Composes NoPanic NoPanic-Allowed done)
      (λ o f. emit-Ends NoPanic NoPanic-Allowed o) gs rules,
)
