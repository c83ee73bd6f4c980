-- ===== src/Tests/Interceptions.antt =====
-- The answer to a failed inspection on concrete errors.
use cpa_plugin_privacyfilter.Base.{ℕ, suc, true, false, [], ◌≡◌, ◌⊎◌, refl, ◌∷◌, Bytes, bytes_eq}
use cpa_plugin_privacyfilter.Cache.State.{ScanState, new_state, no_metrics}
use cpa_plugin_privacyfilter.Interceptor.Requests.{
  Incoming, Skipping, Inspected, changed, intercept_request,
}
use cpa_plugin_privacyfilter.Base.Text.{codes}
use cpa_plugin_privacyfilter.Payload.{depth_limit}
use cpa_plugin_privacyfilter.Interceptor.Failures.{
  Failure, payload_error, target, encoded, is_blocked, is_limit_error, failure_reason, pass,
  on_error_block, on_error_passthrough, handle_failure,
}
use cpa_plugin_privacyfilter.Interceptor.Failures.Closed.{
  status_of, TerminatesWith, handle_failure-TerminatesWith,
}

-- Encoded JSON that is nested too deeply is both a limit and an unsupported shape.
abbrev nested : Failure
nested = target [] (encoded (payload_error depth_limit))

limit_comes_first : status_of (failure_reason nested) ≡ 413
unfolding failure_reason is_blocked is_limit_error
limit_comes_first = refl

handle_failure-TerminatesWith_example :
    TerminatesWith
      (status_of (failure_reason nested))
      (handle_failure on_error_block (codes "claude") nested)
    ⊎ ((on_error_block ≡ on_error_passthrough)
        × (is_blocked nested ≡ false)
        × (handle_failure on_error_block (codes "claude") nested ≡ pass []))
handle_failure-TerminatesWith_example =
    handle_failure-TerminatesWith on_error_block (codes "claude") nested

-- An inspection that replaces every body and counts its runs.
abbrev replace_all : Bytes → Bytes → ℕ → ℕ × Inspected
replace_all format body n = (suc n, changed (codes "x"))

abbrev output_of : Inspected → Bytes
output_of (changed out) = out
output_of _ = []

abbrev empty_state : ScanState ℕ
empty_state =
    new_state (record { revision = 1; source_format = codes "claude"; model = codes "m" }) true

abbrev skip_nothing : Skipping
skip_nothing = record {
  trim_space = λ b. b;
  equal_fold = bytes_eq;
  skip_models = codes "x" ∷ [];
  skip_formats = [];
}

abbrev incoming : Incoming
incoming = record {
  model = codes "m";
  requested_model = codes "m";
  source_format = codes "claude";
  body = codes "secret";
}

passed_on :
    (intercept_request
      (λ b. b)
      replace_all
      on_error_block
      skip_nothing
      0
      incoming
      empty_state
      no_metrics).2
    ≡ pass (codes "x")
unfolding intercept_request bytes_eq
passed_on = refl

-- A request for a skipped model.
skipped_model :
    (intercept_request
      (λ b. b)
      replace_all
      on_error_block
      skip_nothing
      0
      (record incoming { model = codes "x" })
      empty_state
      no_metrics).2
    ≡ pass []
unfolding intercept_request bytes_eq
skipped_model = refl
