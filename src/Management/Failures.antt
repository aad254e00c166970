-- ===== src/Management/Failures.antt =====
-- The responses to failures of the credential service.
use codex_pat.Base.{Bool, Bool-cases, arith, inl, inr, ℕ, ◌==◌, ◌≤◌}
use codex_pat.Errors.{
  Error, ErrorKind, account_mismatch, authentication, error_details, invalid_input,
  malformed_response, persistence, rate_limited, rejected, transient,
}
use codex_pat.Management.{failure_by_kind, pat_failure_response}

by_kind :
    (kind : ErrorKind) (retryable : Bool) (upstream : ℕ)
    → (400 ≤ (failure_by_kind kind retryable upstream).status_code)
      × ((failure_by_kind kind retryable upstream).status_code ≤ 503)
by_kind invalid_input retryable upstream = elim (Bool-cases (upstream == 413)) [
  | inl y ↦ (ground arith, ground arith)
  | inr y ↦ (ground arith, ground arith)
]
by_kind authentication retryable upstream = (omega arith, omega arith)
by_kind rejected retryable upstream = (omega arith, omega arith)
by_kind rate_limited retryable upstream = (omega arith, omega arith)
by_kind transient retryable upstream = (omega arith, omega arith)
by_kind malformed_response retryable upstream = (omega arith, omega arith)
by_kind account_mismatch retryable upstream = (omega arith, omega arith)
by_kind persistence retryable upstream = (omega arith, omega arith)

-- A failure is never answered with a success: whatever the error and the status that it carries,
-- the status of the response lies between 400 and 503.
pub pat_failure_response-status_code :
    (e : Error)
    → (400 ≤ (pat_failure_response e).status_code) × ((pat_failure_response e).status_code ≤ 503)
unfolding pat_failure_response
pat_failure_response-status_code e =
    let (kind, retryable, upstream) = error_details e in by_kind kind retryable upstream
