-- ===== src/Interceptor/Requests.antt =====
-- `interceptRequest` of interceptor.go on the state that `Acquire` returned. `inspect` stands for
-- `sanitizeRequestWithRenderer` and changes the renderer of the request. The logging is left out, and
-- so is the failure for a renderer slot that holds no renderer: the slot has the renderer's type.
pub mod Recorded
use cpa_plugin_privacyfilter.Base.{
  ℕ, Bool, true, false, ◌||◌, Option, none, some, List, [], ◌∷◌, ◌==◌, if◌then◌else◌, Bytes, length,
}
use cpa_plugin_privacyfilter.Base.Text.{any_of}
use cpa_plugin_privacyfilter.Cache.State.{
  ScanState, Metrics, seen, record_scan, get_or_create_renderer, store_renderer,
}
use cpa_plugin_privacyfilter.Payload.{invalid_json}
use cpa_plugin_privacyfilter.Interceptor.Failures.{
  Failure, payload_error, Response, pass, OnError, handle_failure,
}

-- `sanitizeResult`, as far as the response depends on it.
pub data Inspected : Type 0 where
  refused : Failure → Inspected
  unchanged : Inspected
  changed : Bytes → Inspected

-- `shouldSkip` of config.go; `strings.TrimSpace` and `strings.EqualFold` are functions.
unfoldable pub should_skip :
    (Bytes → Bytes)
    → (Bytes → Bytes → Bool)
    → List Bytes
    → List Bytes
    → Bytes
    → Bytes
    → Bytes
    → Bool
unfolding any_of
should_skip trim_space equal_fold skip_models skip_formats model requested_model format =
    any_of (λ m. equal_fold (trim_space m) model || equal_fold (trim_space m) requested_model)
      skip_models
    || any_of (λ f. equal_fold (trim_space f) format) skip_formats

-- What `interceptRequest` reads of a `RequestInterceptRequest`.
pub record Incoming : Type 0 where
  pub model : Bytes
  pub requested_model : Bytes
  pub source_format : Bytes
  pub body : Bytes

-- The fields of the configuration that `shouldSkip` reads, with the functions that it calls.
pub record Skipping : Type 0 where
  pub trim_space : Bytes → Bytes
  pub equal_fold : Bytes → Bytes → Bool
  pub skip_models : List Bytes
  pub skip_formats : List Bytes

-- `p.cfg.shouldSkip(req.Model, req.RequestedModel, req.SourceFormat)`
abbrev pub skips : Skipping → Incoming → Bool
unfolding should_skip
skips k q =
    should_skip k.trim_space k.equal_fold k.skip_models k.skip_formats q.model q.requested_model
      q.source_format

module _ {R : Type 0} (digest : Bytes → Bytes) (inspect : Bytes → Bytes → R → R × Inspected)
    (on_error : OnError) where
  -- The end of `interceptRequest`, from the result of the inspection.
  unfoldable pub answer :
      Bytes → Bytes → ScanState R → Metrics → Inspected → ScanState R × Metrics × Response
  unfolding record_scan handle_failure
  answer format body s m (refused e) = (s, m, handle_failure on_error format e)
  answer format body s m unchanged =
      let (s', m') = record_scan digest body none s m in (s', m', pass [])
  answer format body s m (changed out) =
      let (s', m') = record_scan digest body (some out) s m in (s', m', pass out)

  -- After the look-up of the fingerprint.
  unfoldable pub inspect_unseen :
      R → Bytes → Bytes → ScanState R → Metrics → ScanState R × Metrics × Response
  unfolding get_or_create_renderer store_renderer answer
  inspect_unseen made format body s m =
      let (s', renderer) = get_or_create_renderer made s in
      let (renderer', result) = inspect format body renderer in
      answer format body (store_renderer renderer' s') m result

  -- `interceptRequest`. The state is read and written only where the request is not skipped and its
  -- body is not empty.
  unfoldable pub intercept_request :
      Skipping → R → Incoming → ScanState R → Metrics → ScanState R × Metrics × Response
  unfolding should_skip seen inspect_unseen handle_failure
  intercept_request k made q s m =
      let (m', hit) = seen digest q.body s m in
      if skips k q
      then (s, m, pass [])
      else if length q.body == 0
      then (s, m, handle_failure on_error q.source_format (payload_error (invalid_json 0)))
      else if hit
      then (s, m', pass [])
      else inspect_unseen made q.source_format q.body s m'
