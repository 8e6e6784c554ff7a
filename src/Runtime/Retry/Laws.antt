-- ===== src/Runtime/Retry/Laws.antt =====
-- When a failed cycle is retried.
use signalproject.Prelude.{
  ℕ, ◌≤◌, ◌<◌, ◌≡◌, Bool, true, false, not, ◌||◌, arith, Option, none, some, is_some, leb,
}
use signalproject.Prelude.Text.{Text}
use signalproject.Runtime.Retry.{
  FloatOps, RetryPolicy, RetryPolicyKind, RetryDecision, RetryContext, manual, immediate,
  exponential, evaluate, compute_exponential_delay,
}

abbrev is_manual : RetryPolicyKind → Bool
is_manual manual = true
is_manual immediate = false
is_manual exponential = false

-- A failed cycle is given up when its report has an error, the caller does not mark it retryable, no
-- attempt is left, or the policy is manual.
abbrev pub is_given_up :
    {F : Type 0}
    → RetryPolicy F
    → RetryContext F
    → (report_error : Option Text) → (attempt : ℕ) → Bool
is_given_up p context report_error attempt =
    is_some report_error
    || (not context.is_retryable || (leb p.max_attempts attempt || is_manual p.kind))

module _ {F : Type 0} (ops : FloatOps F) (p : RetryPolicy F) (context : RetryContext F) where
  -- A decision dead-letters a cycle that is given up, and otherwise retries it.
  pub evaluate-is_given_up :
      (report_error : Option Text) (attempt : ℕ) {d : RetryDecision F}
      → evaluate ops p context report_error attempt ≡ some d
      → (d.route_to_dead_letter ≡ is_given_up p context report_error attempt)
        × (d.should_retry ≡ not (is_given_up p context report_error attempt))
  unfolding evaluate compute_exponential_delay
  evaluate-is_given_up none attempt h = ground arith
  evaluate-is_given_up (some error) attempt h = ground arith

  -- Up to attempt 1024 there is a decision.
  pub evaluate_total :
      (report_error : Option Text) (attempt : ℕ)
      → attempt ≤ 1024
      → is_some (evaluate ops p context report_error attempt) ≡ true
  unfolding evaluate compute_exponential_delay
  evaluate_total none attempt h = ground arith
  evaluate_total (some error) attempt h = ground arith

  -- Behind attempt 1024 an exponential retry overflows.
  pub evaluate_overflow :
      (report_error : Option Text) (attempt : ℕ)
      → 1024 < attempt
      → is_given_up p context report_error attempt ≡ false
      → p.kind ≡ exponential
      → evaluate ops p context report_error attempt ≡ none
  unfolding evaluate compute_exponential_delay
  evaluate_overflow none attempt h g k = ground arith
  evaluate_overflow (some error) attempt h g k = ground arith
