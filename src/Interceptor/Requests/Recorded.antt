-- ===== src/Interceptor/Requests/Recorded.antt =====
-- Under the policy that blocks, a body is passed on only as the output of a successful scan.
use cpa_plugin_privacyfilter.Base.{ℕ, some, [], ◌∷◌, ◌≡◌, Bytes}
use cpa_plugin_privacyfilter.Cache.State.{ScanState}
use cpa_plugin_privacyfilter.Interceptor.Failures.{Response, pass}
use cpa_plugin_privacyfilter.Interceptor.Failures.Closed.{TerminatesWith}

-- What the host sends on: an empty body in the response leaves that of the request.
abbrev pub sent_on : Bytes → Bytes → Bytes
sent_on body [] = body
sent_on body (c ∷ cs) = c ∷ cs

-- The request ends, or it goes on with a body that the state has recorded.
pub data Guarded {R : Type 0} (digest : Bytes → Bytes) (body : Bytes) (s : ScanState R)
    (r : Response) : Type 0 where
  ends : (status : ℕ) → TerminatesWith status r → Guarded digest body s r
  goes_on :
      (out : Bytes)
      → r ≡ pass out
      → s.fingerprint ≡ some (digest (sent_on body out))
      → Guarded digest body s r
