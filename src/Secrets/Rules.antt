-- ===== src/Secrets/Rules.antt =====
-- The rules, their allowlists and `detectSecrets` (internal/privacyengine/secrets.go; the types of
-- rules.go).
pub mod Valid
use cpa_plugin_privacyfilter.Base.{
  ℕ, zero, suc, ◌+◌, ◌-◌, ◌*◌, Bool, true, false, not, ◌&&◌, ◌||◌, Option, none, some, List, [],
  ◌∷◌, ltb, leb, ◌==◌, if◌then◌else◌, Bytes, length, take, drop, slice, get_elem?,
}
use cpa_plugin_privacyfilter.Base.Int.{ℤ, pos, negsuc, pos_part, ltb_ℤ, leb_ℤ}
use cpa_plugin_privacyfilter.Base.Text.{
  codes, is_upper, contains, index_byte, last_index_byte, any_of,
}
use cpa_plugin_privacyfilter.Spans.{Kind, secret, Candidate}
use cpa_plugin_privacyfilter.Engine.{EngineError, internal_failure}
use cpa_plugin_privacyfilter.Matching.{
  Regex, Scan, finish, emit, ◌▷◌, index_at, check, for_each_submatch,
}
use cpa_plugin_privacyfilter.Pii.{candidate_of, sub_text, line_start, out_of_range}
use cpa_plugin_privacyfilter.Secrets.Noise.{
  Toolbox, Finder, is_uuid, is_hex_hash, has_json_noise, is_filesystem_path, is_likely_placeholder,
  is_context_secret_noise, looks_like_url_match, is_business_id_assignment,
}
use cpa_plugin_privacyfilter.Secrets.Context.{
  and_then, is_no_span, is_on_path_or_url_boundary, has_secret_context, has_strong_secret_context,
}
use cpa_plugin_privacyfilter.Secrets.Tokens.{for_each_entropy_token}

pub data AllowlistTarget : Type 0 where
  allowlist_secret allowlist_match allowlist_line : AllowlistTarget

-- `compiledAllowlist`; `condition` is `allowlistAND`.
pub record Allowlist : Type 0 where
  pub condition_and : Bool
  pub target : AllowlistTarget
  pub regexes : List Finder
  pub stopwords : List Bytes

-- `secretRule`; the entropy is a value of `F`.
pub record SecretRule {ℓ} (F : Type ℓ) : Type ℓ where
  pub id : Bytes
  pub re : Regex
  pub keywords : List Bytes
  pub entropy : F
  pub secret_group : ℕ
  pub automatic_capture : Bool
  pub allowlists : List Allowlist

pub record AllowlistCandidate : Type 0 where
  pub secret : Bytes
  pub match : Bytes
  pub line : Bytes

abbrev pub target_of : AllowlistTarget → AllowlistCandidate → Bytes
target_of allowlist_secret c = c.secret
target_of allowlist_match c = c.match
target_of allowlist_line c = c.line

-- `re.FindString(target) != ""`
abbrev pub finds_text : Bytes → Finder → Bool
finds_text target re = elim (re target) [
  | none ↦ false
  | some (a, b) ↦ not (length (slice target a b) == 0)
]

-- `compiledAllowlist.matches`
unfoldable pub matches : (Bytes → Bytes) → AllowlistCandidate → Allowlist → Bool
unfolding any_of contains
matches to_lower c a =
    let regex_matched = any_of (finds_text (target_of a.target c)) a.regexes in
    let stopword_matched = any_of (contains (to_lower c.secret)) a.stopwords in
    if a.condition_and
    then (length a.regexes == 0 || regex_matched) && (length a.stopwords == 0 || stopword_matched)
    else regex_matched || stopword_matched

-- `lineContaining`
unfoldable pub line_containing : Bytes → ℤ → ℤ → Bytes
unfolding index_byte last_index_byte
line_containing text start stop =
    if out_of_range text start stop then [] else elim (index_byte 10 (drop (pos_part stop) text)) [
      | none ↦ slice text (line_start text (pos_part start)) (length text)
      | some relative ↦ slice text (line_start text (pos_part start)) (pos_part stop + relative)
    ]

-- `ruleApplies`
unfoldable pub rule_applies : Bytes → List Bytes → Bool
unfolding any_of contains
rule_applies lower_text [] = true
rule_applies lower_text (k ∷ ks) = any_of (contains lower_text) (k ∷ ks)

-- `hasASCIIUpper`
unfoldable pub has_ascii_upper : Bytes → Bool
has_ascii_upper [] = false
has_ascii_upper (c ∷ cs) = is_upper c || has_ascii_upper cs

-- The loop over the captures, from the pairs of the groups on.
unfoldable pub first_capture : ℤ → ℤ → List ℤ → ℤ × ℤ
first_capture start stop (a ∷ b ∷ groups) =
    let later = first_capture start stop groups in
    if leb_ℤ (pos 0) a && ltb_ℤ a b then (a, b) else later
first_capture start stop _ = (start, stop)

-- The bounds that a rule selects; `none` where its group is not among the indices.
unfoldable pub select_bounds : Bool → ℕ → List ℤ → Option (ℤ × ℤ)
unfolding first_capture
select_bounds automatic_capture secret_group indices =
    let start = index_at indices 0 in
    let stop = index_at indices 1 in
    if automatic_capture
    then some (first_capture start stop (drop 2 indices))
    else if ltb 0 secret_group
    then (if leb (length indices) (2 * secret_group + 1)
        then none
        else some (index_at indices (2 * secret_group), index_at indices (2 * secret_group + 1)))
    else some (start, stop)

-- `len(indices) < 2 || indices[0] < 0 || indices[1] < indices[0] || indices[1] > len(text)`
abbrev pub is_no_match : Bytes → List ℤ → Bool
is_no_match text indices =
    ltb (length indices) 2
    || ltb_ℤ (index_at indices 0) (pos 0)
    || ltb_ℤ (index_at indices 1) (index_at indices 0)
    || ltb_ℤ (pos (length text)) (index_at indices 1)

-- A visit that may panic: `detect` then ends with an internal failure.
abbrev pub emit_checked : Option (Option Candidate) → Scan
emit_checked none t = ([], some internal_failure, t)
emit_checked (some k) t = emit k t

-- The visit of a match of the expression of the context secrets.
unfoldable pub context_visit : (Bytes → Bool) → Bytes → List ℤ → Option Candidate
context_visit is_noise text indices =
    let start = index_at indices 2 in
    let stop = index_at indices 3 in
    if ltb (length indices) 4
      || ltb_ℤ start (pos 0)
      || leb_ℤ stop start
      || ltb_ℤ (pos (length text)) stop
    then none
    else if is_noise (sub_text text start stop)
    then none
    else candidate_of secret (codes "builtin.context-secret") start stop

module _ {ℓ} {F : Type ℓ} (t : Toolbox F) where
  -- Texts that are no secret, whatever the rule.
  unfoldable pub is_benign : Bytes → Bool
  unfolding is_hex_hash is_uuid is_business_id_assignment
  is_benign candidate =
      t.template_var candidate
      || is_hex_hash candidate
      || is_uuid candidate
      || is_business_id_assignment t candidate

  -- What the visit of a match turns down: too little entropy, an allowlist, a text that is benign.
  unfoldable pub is_turned_down : List Allowlist → SecretRule F → AllowlistCandidate → Bool
  unfolding matches is_benign looks_like_url_match is_likely_placeholder has_json_noise any_of
  is_turned_down global_allowlists rule c =
      (t.below t.zero_point rule.entropy && not (t.below rule.entropy (t.shannon_entropy c.secret)))
      || any_of (matches t.to_lower c) global_allowlists
      || any_of (matches t.to_lower c) rule.allowlists
      || looks_like_url_match t c.secret
      || is_benign c.secret
      || is_likely_placeholder t c.secret
      || has_json_noise c.secret

  -- The visit of a match of a rule, once its bounds are selected.
  unfoldable pub select_candidate :
      List Allowlist → SecretRule F → Bytes → List ℤ → ℤ × ℤ → Option Candidate
  unfolding is_turned_down line_containing
  select_candidate global_allowlists rule text indices (start, stop) =
      let allow_candidate : AllowlistCandidate = record {
        secret = sub_text text start stop;
        match = sub_text text (index_at indices 0) (index_at indices 1);
        line = line_containing text (index_at indices 0) (index_at indices 1);
      } in
      if is_no_span text start stop
      then none
      else if is_turned_down global_allowlists rule allow_candidate
      then none
      else candidate_of secret rule.id start stop

  unfoldable pub rule_visit : List Allowlist → SecretRule F → Bytes → List ℤ → Option Candidate
  unfolding select_bounds select_candidate
  rule_visit global_allowlists rule text indices =
      if is_no_match text indices
      then none
      else elim (select_bounds rule.automatic_capture rule.secret_group indices) [
        | none ↦ none
        | some bounds ↦ select_candidate global_allowlists rule text indices bounds
      ]

  -- The test of the entropy.
  unfoldable pub weigh_token : Bytes → ℕ → ℕ → Bool → Option Candidate
  weigh_token text start stop near =
      if t.below (t.shannon_entropy (slice text start stop))
        (if near then t.entropy_min else t.entropy_min_strict)
      then none
      else candidate_of secret (codes "builtin.high-entropy") (pos start) (pos stop)

  -- The visit of a token, from what its context is.
  unfoldable pub judge_token :
      Bytes → ℕ → ℕ → Bool → Option Bool → Option Bool → Option (Option Candidate)
  unfolding is_filesystem_path is_benign weigh_token
  judge_token text start stop strong on_boundary in_context =
      let candidate = slice text start stop in
      if is_filesystem_path candidate
      then some none
      else and_then (if strong then some false else on_boundary) (λ excluded.
        if excluded || is_benign candidate
        then some none
        else and_then in_context (λ near. some (weigh_token text start stop near)))

  unfoldable pub token_visit : Bytes → ℕ → ℕ → Option (Option Candidate)
  unfolding judge_token has_strong_secret_context is_on_path_or_url_boundary has_secret_context
  token_visit text start stop =
      and_then (has_strong_secret_context t text (pos start) (pos stop)) (λ strong.
        judge_token text start stop strong (is_on_path_or_url_boundary text (pos start) (pos stop))
          (has_secret_context t text (pos start) (pos stop)))

  module _ (done : ℕ → Bool) where
    -- The loop over the rules.
    unfoldable pub each_rule : List Allowlist → Bytes → Bytes → List (SecretRule F) → Scan
    unfolding check rule_applies for_each_submatch rule_visit
    each_rule global_allowlists text lower_text [] = finish
    each_rule global_allowlists text lower_text (rule ∷ rules) =
        let rest : Scan = each_rule global_allowlists text lower_text rules in
        let one : Scan =
          for_each_submatch done rule.re text (rule_visit global_allowlists rule text) in
        check done ▷ (if rule_applies lower_text rule.keywords then one ▷ rest else rest)

    unfoldable pub detect_secrets : List Allowlist → List (SecretRule F) → Bytes → Scan
    unfolding each_rule has_ascii_upper context_visit is_context_secret_noise for_each_entropy_token
        token_visit
    detect_secrets global_allowlists rules text =
        each_rule global_allowlists text (if has_ascii_upper text then t.to_lower text else text)
          rules
        ▷ for_each_submatch done t.context_secret text
            (context_visit (is_context_secret_noise t) text)
        ▷ for_each_entropy_token done (λ start stop. emit_checked (token_visit text start stop))
            text
