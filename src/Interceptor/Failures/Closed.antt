-- ===== src/Interceptor/Failures/Closed.antt =====
-- What `handleFailure` lets through, and that its answer agrees with the reason that is logged.
use cpa_plugin_privacyfilter.Base.{
  ℕ, Bool, true, false, [], ◌∷◌, ◌≡◌, ◌⊎◌, refl, if◌then◌else◌, Bool-cases, inl, inr, Bytes,
  bytes_eq,
}
use cpa_plugin_privacyfilter.Base.Text.{codes, any_of}
use cpa_plugin_privacyfilter.Interceptor.Failures.{
  Failure, is_blocked, is_limit_error, is_unsupported_error, is_json_error, Reason, blocked_rule,
  limit_exceeded, shape_unsupported, json_invalid, internal_error, failure_reason, ErrorBody,
  Response, pass, terminate, terminate_request, OnError, on_error_block, on_error_passthrough,
  block_failure, handle_failure,
}

abbrev pub status_of : Reason → ℕ
status_of blocked_rule = 422
status_of limit_exceeded = 413
status_of shape_unsupported = 422
status_of json_invalid = 400
status_of internal_error = 503

-- The request ends with a status.
pub data TerminatesWith (status : ℕ) (r : Response) : Type 0 where
  ended : (body : ErrorBody) → r ≡ terminate status body → TerminatesWith status r

if-TerminatesWith :
    (status : ℕ) (b : Bool) (x y : Response)
    → TerminatesWith status x
    → TerminatesWith status y
    → TerminatesWith status (if b then x else y)
if-TerminatesWith status true x y h g = h
if-TerminatesWith status false x y h g = g

terminate_request-TerminatesWith :
    (format : Bytes) (status : ℕ) (code message : Bytes)
    → TerminatesWith status (terminate_request format status code message)
unfolding terminate_request
terminate_request-TerminatesWith format status code message =
    if-TerminatesWith status (bytes_eq format (codes "claude")) _ _ (ended _ refl) (
      if-TerminatesWith status
        (any_of (bytes_eq format) (codes "gemini" ∷ codes "interactions" ∷ codes "gemini-cli" ∷ []))
        _ _ (ended _ refl) (ended _ refl))

-- What blocks answers with the status of the reason.
block_failure-TerminatesWith :
    (format : Bytes) (e : Failure)
    → is_blocked e ≡ false
    → TerminatesWith (status_of (failure_reason e)) (block_failure format e)
unfolding block_failure failure_reason
block_failure-TerminatesWith format e n = elim (Bool-cases (is_limit_error e)) [
  | inl y ↦ rw (n, y) (terminate_request-TerminatesWith format 413 _ _)
  | inr l ↦ elim (Bool-cases (is_unsupported_error e)) [
    | inl y ↦ rw (n, l, y) (terminate_request-TerminatesWith format 422 _ _)
    | inr u ↦ elim (Bool-cases (is_json_error e)) [
      | inl y ↦ rw (n, l, u, y) (terminate_request-TerminatesWith format 400 _ _)
      | inr j ↦ rw (n, l, u, j) (terminate_request-TerminatesWith format 503 _ _)
    ]
  ]
]

by_policy :
    (on_error : OnError) (format : Bytes) (e : Failure)
    → is_blocked e ≡ false
    → TerminatesWith (status_of (failure_reason e)) (handle_failure on_error format e)
      ⊎ ((on_error ≡ on_error_passthrough)
          × (is_blocked e ≡ false)
          × (handle_failure on_error format e ≡ pass []))
unfolding handle_failure
by_policy on_error_passthrough format e n = inr (refl, n, rw n refl)
by_policy on_error_block format e n = inl (rw n (block_failure-TerminatesWith format e n))

-- A failed inspection ends the request with the status of the reason that is logged, 422 for a
-- blocking rule or a shape that is not supported, 413 for a limit, 400 for invalid JSON and 503 for
-- anything else. Only where the configuration says so, and never for a blocking rule, is the
-- request passed on instead, and then as it was.
pub handle_failure-TerminatesWith :
    (on_error : OnError) (format : Bytes) (e : Failure)
    → TerminatesWith (status_of (failure_reason e)) (handle_failure on_error format e)
      ⊎ ((on_error ≡ on_error_passthrough)
          × (is_blocked e ≡ false)
          × (handle_failure on_error format e ≡ pass []))
unfolding handle_failure failure_reason
handle_failure-TerminatesWith on_error format e = elim (Bool-cases (is_blocked e)) [
  | inl y ↦ inl (rw y (terminate_request-TerminatesWith format 422 _ _))
  | inr n ↦ by_policy on_error format e n
]
