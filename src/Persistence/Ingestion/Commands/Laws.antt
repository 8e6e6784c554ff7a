-- ===== src/Persistence/Ingestion/Commands/Laws.antt =====
-- Retry commands made of an evaluated decision.
use signalproject.Prelude.{◌≢◌, ℕ, ◌+◌, ◌*◌, ◌≤◌, ◌<◌, ◌≡◌, true, false, arith, leb, ok}
use signalproject.Prelude.Text.{Text, is_empty, is_substring}
use signalproject.Persistence.Ingestion.Times.{Calendar, IsCalendar, max_instant, parse_utc}
use signalproject.Persistence.Ingestion.Policy.{
  WorkItemKind, WorkKindPolicy, WorkLifecyclePolicy, IsPolicy, for_kind,
}
use signalproject.Persistence.Ingestion.Backoff.{RetryDecision, Hint, digest_input, evaluate_retry}
use signalproject.Persistence.Ingestion.Backoff.Delays.{delay_bounds}
use signalproject.Persistence.Ingestion.Backoff.Laws.{evaluate_retry_again}
use signalproject.Persistence.Ingestion.Messages.{WorkError}
use signalproject.Persistence.Ingestion.Commands.{
  ClaimAuthority, RetryWorkCommand, FailTerminalWorkCommand, retry_post_init, fail_post_init,
}

module _ (c : Calendar) (laws : IsCalendar c) (digest : Text → ℕ) (p : WorkLifecyclePolicy)
    (v : IsPolicy p) (kind : WorkItemKind) (id : Text) (attempt failed : ℕ) (failed_at : Text)
    (hint : Hint) (k : WorkKindPolicy)
    (room : failed + p.maximum_retry_delay_seconds * 1_000_000 ≤ max_instant)
    (counted : 1 ≤ attempt) (named : is_empty id ≡ false)
    (read : parse_utc c failed_at "failed_at" ≡ ok failed) (found : for_kind p kind ≡ ok k)
    (one : 1 ≤ k.maximum_attempts) (authority : ClaimAuthority) (error : WorkError) where
  -- With a policy that its validation accepts, a non-empty id, an attempt of 1 or more, a failure time
  -- that can be read, a kind whose policy allows an attempt, and room in the calendar, while attempts
  -- are left the decision of `evaluate_retry` makes a RetryWorkCommand that its validation accepts,
  -- for a retryable error whose message does not contain the claim token.
  pub retry_command_accepted :
      attempt < k.maximum_attempts
      → error.retryable ≡ true
      → is_substring authority.claim_token error.message ≡ false
      → (d : RetryDecision) × (evaluate_retry c digest p kind id attempt failed_at hint ≡ ok d)
        × (retry_post_init c
              (record { authority = authority; failed_at = failed_at; decision = d; error = error })
            ≡ ok (record {
              authority = authority;
              failed_at = failed_at;
              decision = d;
              error = error;
            }))
  unfolding retry_post_init
  retry_command_accepted left retryable secret =
      let (at, decided, available) =
        evaluate_retry_again c laws digest p v kind id attempt failed failed_at hint k room counted
          named read found one left in
      let (low, high) = delay_bounds p attempt (digest (digest_input c p id attempt)) hint v in
      (_, decided, rw (read, retryable, available, secret, later low))
    where
      later : {d : ℕ} → 1 ≤ d → leb (failed + d * 1_000_000) failed ≡ false
      later h = ground arith

-- If a RetryWorkCommand is accepted, the message of its error does not contain the claim token, and no
-- FailTerminalWorkCommand with the same error is accepted.
pub failure_commands_exclusive :
    (c : Calendar) (r : RetryWorkCommand) (f : FailTerminalWorkCommand)
    → r.error ≡ f.error
    → retry_post_init c r ≡ ok r
    → (is_substring r.authority.claim_token r.error.message ≡ false) × (fail_post_init c f ≢ ok f)
unfolding retry_post_init fail_post_init
failure_commands_exclusive c r f same h = ground arith
