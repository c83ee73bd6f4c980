-- ===== src/Payload/Replace.antt =====
-- `replace` of payload/jsonscan.go.
pub mod Requested
use cpa_plugin_privacyfilter.Base.{
  ℕ, ◌+◌, Bool, true, false, ◌&&◌, ◌||◌, Option, none, some, List, [], ◌∷◌, if◌then◌else◌, ltb, leb,
  ◌==◌, Bytes, bytes_eq, length,
}
use cpa_plugin_privacyfilter.Base.Int.{ℤ, pos, ltb_ℤ, ◌-ℤ◌}
use cpa_plugin_privacyfilter.Payload.{
  Result, ok, failed, Step, return, fail, ◌>>=◌, check_context, Span, string_too_large,
  replacement_limit, overlapping_replacements, invalid_token,
}
use cpa_plugin_privacyfilter.Payload.Encode.{encode_string_context}
use cpa_plugin_privacyfilter.Payload.Splice.{StringEdit, splice}
use cpa_plugin_privacyfilter.Payload.Token.{StringToken, Document, canonical_token}

pub record Replacement : Type 0 where
  pub token : StringToken
  pub value : Bytes

-- `replacementCandidate`
pub record Candidate : Type 0 where
  pub token : StringToken
  pub value : Bytes

abbrev pub lift_result {ℓ} : {A : Type ℓ} → Result A → Step ℕ A
lift_result r t = (r, t)

-- The order of `sort.Slice`. Candidates that it does not tell apart overlap, and are refused.
abbrev pub is_before : Candidate → Candidate → Bool
is_before a b =
    if a.token.span.start == b.token.span.start
    then ltb a.token.span.stop b.token.span.stop
    else ltb a.token.span.start b.token.span.start

unfoldable pub insert_candidate : Candidate → List Candidate → List Candidate
insert_candidate c [] = c ∷ []
insert_candidate c (d ∷ ds) = if is_before d c then d ∷ insert_candidate c ds else c ∷ d ∷ ds

unfoldable pub sort_candidates : List Candidate → List Candidate
unfolding insert_candidate
sort_candidates [] = []
sort_candidates (c ∷ cs) = insert_candidate c (sort_candidates cs)

module _ (done : ℕ → Bool) where
  unfoldable pub candidate : Document → Replacement → Step ℕ Candidate
  unfolding canonical_token
  candidate d r = do
    canonical ← lift_result (canonical_token d r.token)
    if ltb_ℤ d.limits.max_string_bytes (pos (length r.value))
        then fail string_too_large
        else return (record { token = canonical; value = r.value })

  -- The first loop.
  unfoldable pub candidates : Document → List Replacement → Step ℕ (List Candidate)
  unfolding candidate check_context
  candidates d [] = return []
  candidates d (r ∷ rs) = do
    _ ← check_context done
    c ← candidate d r
    cs ← candidates d rs
    return (c ∷ cs)

  -- The second loop: the order of the spans. `previousEnd` is -1 at first, which is below every start.
  unfoldable pub check_overlaps : Bytes → ℕ → List Candidate → Step ℕ (Unit {0})
  unfolding check_context
  check_overlaps body previous_end [] = return tt
  check_overlaps body previous_end (c ∷ cs) = do
    _ ← check_context done
    let rest = check_overlaps body c.token.span.stop cs
    if leb c.token.span.stop c.token.span.start || ltb (length body) c.token.span.stop
        then fail invalid_token
        else (if ltb c.token.span.start previous_end then fail overlapping_replacements else rest)

  unfoldable pub edit_of : Document → ℕ → Candidate → Step ℕ StringEdit
  unfolding encode_string_context ◌-ℤ◌
  edit_of d total c = do
    encoded ← encode_string_context done c.value
    if ltb_ℤ (d.limits.max_replacement_bytes -ℤ pos total) (pos (length encoded))
        then fail replacement_limit
        else return (record { span = c.token.span; encoded = encoded })

  -- The third loop: the candidates that change a value are encoded.
  unfoldable pub edits : Document → ℕ → List Candidate → Step ℕ (List StringEdit)
  unfolding check_context edit_of
  edits d total [] = return []
  edits d total (c ∷ cs) = do
    _ ← check_context done
    let changed = (do
      e ← edit_of d total c
      es ← edits d (total + length e.encoded) cs
      return (e ∷ es))
    if bytes_eq c.value c.token.value then edits d total cs else changed

  -- The end of `replace`: the output, and whether it changed.
  unfoldable pub apply_edits : Bytes → List StringEdit → Step ℕ (Bytes × Bool)
  unfolding splice
  apply_edits body [] = return (body, false)
  apply_edits body (e ∷ es) = do out ← splice done body (e ∷ es); return (out, true)

  unfoldable pub replace_some : Document → List Replacement → Step ℕ (Bytes × Bool)
  unfolding candidates sort_candidates check_context check_overlaps edits apply_edits
  replace_some d rs = do
    cs ← candidates d rs
    _ ← check_context done
    _ ← check_overlaps d.body 0 (sort_candidates cs)
    es ← edits d 0 (sort_candidates cs)
    apply_edits d.body es

  abbrev pub replace_any : Document → List Replacement → Step ℕ (Bytes × Bool)
  replace_any d [] = return (d.body, false)
  replace_any d (r ∷ rs) = replace_some d (r ∷ rs)

  -- `replace`
  unfoldable pub replace : Document → List Replacement → Step ℕ (Bytes × Bool)
  unfolding replace_some check_context
  replace d rs = do
    _ ← check_context done
    if ltb_ℤ d.limits.max_replacements (pos (length rs))
        then fail replacement_limit
        else replace_any d rs
