-- ===== src/Interceptor.antt =====
-- interceptor.go and reject.go: how a request is inspected, and how a failed inspection is answered.
pub mod Failures
pub mod Requests
