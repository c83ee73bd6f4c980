-- ===== src/Interceptor/Failures.antt =====
-- The errors of an inspection, what they are to `errors.Is` and `errors.As`, and `handleFailure`
-- (interceptor.go; `terminateRequest` of reject.go; the error types of redactor.go and
-- walker/types.go). The logging is left out.
pub mod Closed
use cpa_plugin_privacyfilter.Base.{
  ℕ, Bool, true, false, ◌||◌, List, [], ◌∷◌, if◌then◌else◌, Bytes, bytes_eq,
}
use cpa_plugin_privacyfilter.Base.Text.{codes, any_of}
use cpa_plugin_privacyfilter.Engine.{
  EngineError, canceled, internal_failure, renderer_failed, limit,
}
use cpa_plugin_privacyfilter.Payload.{
  PayloadError, canceled, root_not_object, body_too_large, depth_limit, node_limit,
  structural_limit, string_too_large, replacement_limit, overlapping_replacements, invalid_token,
  path_not_found, path_ambiguous, invalid_limits, invalid_json,
}
use cpa_plugin_privacyfilter.Payload.Token.{JsonPath}

-- An error that an inspection may end with, with what it wraps.
pub data Failure : Type 0 where
  -- `blockedFindingError`
  blocked : Bytes → Failure
  engine_error : EngineError → Failure
  payload_error : PayloadError → Failure
  -- `errUnsupportedRequestShape`, and `unsupportedRequestShapeError`
  unsupported_request : Failure
  unsupported_shapes : ℕ → List JsonPath → Failure
  -- `targetInspectionError`
  target : JsonPath → Failure → Failure
  -- `fmt.Errorf("%w: encoded tool JSON: %w", errUnsupportedRequestShape, err)`
  encoded : Failure → Failure
  -- the walker's errors
  unsupported_format : Failure
  invalid_shape : JsonPath → Failure
  unsupported_shape : JsonPath → Failure
  ambiguous_control_path : JsonPath → Failure
  other : Failure

-- `errors.As(err, &blocked)`
unfoldable pub is_blocked : Failure → Bool
is_blocked (blocked rule_id) = true
is_blocked (target path cause) = is_blocked cause
is_blocked (encoded cause) = is_blocked cause
is_blocked _ = false

abbrev pub is_payload_limit : PayloadError → Bool
is_payload_limit body_too_large = true
is_payload_limit depth_limit = true
is_payload_limit node_limit = true
is_payload_limit structural_limit = true
is_payload_limit string_too_large = true
is_payload_limit replacement_limit = true
is_payload_limit _ = false

abbrev pub is_engine_limit : EngineError → Bool
is_engine_limit (limit e) = true
is_engine_limit _ = false

abbrev pub is_not_object : PayloadError → Bool
is_not_object root_not_object = true
is_not_object _ = false

abbrev pub is_invalid : PayloadError → Bool
is_invalid (invalid_json offset) = true
is_invalid _ = false

-- `isLimitError`
unfoldable pub is_limit_error : Failure → Bool
is_limit_error (engine_error e) = is_engine_limit e
is_limit_error (payload_error e) = is_payload_limit e
is_limit_error (target path cause) = is_limit_error cause
is_limit_error (encoded cause) = is_limit_error cause
is_limit_error _ = false

-- `isUnsupportedError`
unfoldable pub is_unsupported_error : Failure → Bool
is_unsupported_error (payload_error e) = is_not_object e
is_unsupported_error unsupported_request = true
is_unsupported_error (unsupported_shapes count paths) = true
is_unsupported_error (target path cause) = is_unsupported_error cause
is_unsupported_error (encoded cause) = true
is_unsupported_error unsupported_format = true
is_unsupported_error (invalid_shape path) = true
is_unsupported_error (unsupported_shape path) = true
is_unsupported_error (ambiguous_control_path path) = true
is_unsupported_error _ = false

-- `isJSONError`
unfoldable pub is_json_error : Failure → Bool
is_json_error (payload_error e) = is_invalid e
is_json_error (target path cause) = is_json_error cause
is_json_error (encoded cause) = is_json_error cause
is_json_error _ = false

pub data Reason : Type 0 where
  blocked_rule limit_exceeded shape_unsupported json_invalid internal_error : Reason

-- `failureReason`
unfoldable pub failure_reason : Failure → Reason
unfolding is_blocked is_limit_error is_unsupported_error is_json_error
failure_reason e =
    if is_blocked e
    then blocked_rule
    else if is_limit_error e
    then limit_exceeded
    else if is_unsupported_error e
    then shape_unsupported
    else if is_json_error e
    then json_invalid
    else internal_error

-- The body of an error, before it is encoded: which of the three objects, with what stands in it.
pub data ErrorBody : Type 0 where
  claude_error : Bytes → Bytes → ErrorBody
  google_error : ℕ → Bytes → ErrorBody
  openai_error : Bytes → Bytes → ErrorBody

-- `RequestInterceptResponse`, as far as the plugin fills it. An empty body passes the request on.
pub data Response : Type 0 where
  pass : Bytes → Response
  terminate : ℕ → ErrorBody → Response

-- `terminateRequest`
unfoldable pub terminate_request : Bytes → ℕ → Bytes → Bytes → Response
unfolding bytes_eq any_of
terminate_request source_format status code message =
    if bytes_eq source_format (codes "claude")
    then terminate status (claude_error code message)
    else if any_of (bytes_eq source_format)
        (codes "gemini" ∷ codes "interactions" ∷ codes "gemini-cli" ∷ [])
    then terminate status (google_error status message)
    else terminate status (openai_error code message)

pub data OnError : Type 0 where
  on_error_block on_error_passthrough : OnError

abbrev pub passes_through : OnError → Bool
passes_through on_error_block = false
passes_through on_error_passthrough = true

-- The `switch` of `handleFailure`
unfoldable pub block_failure : Bytes → Failure → Response
unfolding terminate_request is_limit_error is_unsupported_error is_json_error
block_failure source_format e =
    if is_limit_error e
    then terminate_request source_format 413 (codes "privacy_filter_limit_exceeded")
        (codes "request exceeds privacy inspection limits")
    else if is_unsupported_error e
    then terminate_request source_format 422 (codes "privacy_filter_unsupported_shape")
        (codes "request shape is not safely inspectable")
    else if is_json_error e
    then terminate_request source_format 400 (codes "privacy_filter_invalid_json")
        (codes "request body is not valid JSON")
    else terminate_request source_format 503 (codes "privacy_filter_internal_error")
        (codes "privacy filter could not safely inspect the request")

-- `handleFailure`
unfoldable pub handle_failure : OnError → Bytes → Failure → Response
unfolding block_failure is_blocked
handle_failure on_error source_format e =
    if is_blocked e
    then terminate_request source_format 422 (codes "privacy_filter_rejected")
        (codes "request blocked by privacy policy")
    else if passes_through on_error
    then pass []
    else block_failure source_format e
