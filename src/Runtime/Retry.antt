-- ===== src/Runtime/Retry.antt =====
-- src/runtime/retry.py and retry_manager.py: the policy, and what to do with a failed cycle.
-- Floats are a parameter: the operations that the code applies to them.
pub mod Laws
use signalproject.Prelude.{
  ℕ, ◌+◌, ◌-◌, ◌^◌, Bool, true, false, not, ◌&&◌, Option, none, some, ◌++◌, leb, ltb, Result, ok,
  ◌>>=◌, ◌>>◌, raise_if, if◌then◌else◌, Fault, value_error,
}
use signalproject.Prelude.Text.{Text, codes, decimal}

-- IEEE doubles: numerals, the operators, and `<` and `<=`.
pub record FloatOps (F : Type 0) : Type 0 where
  pub of_ℕ : ℕ → F
  pub ten_thousandth : F
  pub add : F → F → F
  pub sub : F → F → F
  pub mul : F → F → F
  pub remainder : F → F → F
  pub lt : F → F → Bool
  pub le : F → F → Bool

pub data RetryPolicyKind : Type 0 where
  manual immediate exponential : RetryPolicyKind

pub record RetryPolicy (F : Type 0) : Type 0 where
  pub kind : RetryPolicyKind
  pub max_attempts : ℕ
  pub base_delay_seconds : F
  pub max_delay_seconds : F
  pub jitter : F

pub record RetryDecision (F : Type 0) : Type 0 where
  pub should_retry : Bool
  pub attempt : ℕ
  pub delay_seconds : F
  pub route_to_dead_letter : Bool
  pub reason : Text
  pub policy_kind : RetryPolicyKind

pub record RetryContext (F : Type 0) : Type 0 where
  pub is_retryable : Bool
  pub current_time : F

module _ {F : Type 0} (ops : FloatOps F) where
  open ops use {of_ℕ, ten_thousandth, add, sub, mul, remainder, lt, le}

  -- RetryPolicy.__post_init__; a negative `max_attempts` raises as 0 does.
  unfoldable pub post_init : RetryPolicy F → Result Fault (RetryPolicy F)
  post_init p = do
    raise_if (ltb p.max_attempts 1) (value_error "max_attempts must be >= 1")
    raise_if (lt p.base_delay_seconds (of_ℕ 0)) (value_error "base_delay_seconds must be >= 0")
    raise_if (lt p.max_delay_seconds p.base_delay_seconds)
        (value_error "max_delay_seconds must be >= base_delay_seconds")
    raise_if (not (le (of_ℕ 0) p.jitter && le p.jitter (of_ℕ 1)))
        (value_error "jitter must be in [0.0, 1.0]")
    ok p

  -- The factories of RetryDecision
  abbrev pub retry :
      (attempt : ℕ) (delay_seconds : F) → RetryPolicyKind → (reason : Text) → RetryDecision F
  retry attempt delay_seconds policy_kind reason = record {
    should_retry = true;
    attempt = attempt;
    delay_seconds = delay_seconds;
    route_to_dead_letter = false;
    reason = reason;
    policy_kind = policy_kind;
  }

  abbrev pub dead_letter : (attempt : ℕ) (reason : Text) → RetryPolicyKind → RetryDecision F
  dead_letter attempt reason policy_kind = record {
    should_retry = false;
    attempt = attempt;
    delay_seconds = of_ℕ 0;
    route_to_dead_letter = true;
    reason = reason;
    policy_kind = policy_kind;
  }

  -- Python's `min(a, b)`
  abbrev lesser : F → F → F
  lesser a b = if lt b a then b else a

  -- The clock's part of the delay, in [-jitter, +jitter]
  abbrev jittered : RetryPolicy F → RetryContext F → (capped : F) → F
  jittered p context capped =
      let frac = remainder (mul context.current_time ten_thousandth) (of_ℕ 1) in
      let jitter_factor = mul (sub (mul frac (of_ℕ 2)) (of_ℕ 1)) p.jitter in
      mul capped (add (of_ℕ 1) jitter_factor)

  -- `min(raw, max_delay_seconds)`, with the jitter
  abbrev pub capped_delay : RetryPolicy F → RetryContext F → (raw : F) → F
  capped_delay p context raw =
      let capped = lesser raw p.max_delay_seconds in
      if lt (of_ℕ 0) p.jitter && lt (of_ℕ 0) context.current_time
      then jittered p context capped
      else capped

  -- `exponent` is `max(0, next_attempt - 2)`, which `-` on ℕ is. The product turns the integer
  -- `2 ** exponent` into a float; none is the OverflowError that this raises from 2 ** 1024 on.
  unfoldable pub compute_exponential_delay :
      RetryPolicy F → RetryContext F → (next_attempt : ℕ) → Option F
  compute_exponential_delay p context next_attempt =
      let exponent = next_attempt - 2 in
      if ltb exponent 1024
      then some (capped_delay p context (mul p.base_delay_seconds (of_ℕ (2 ^ exponent))))
      else none

  -- Step 4, by the policy's kind
  abbrev decide :
      RetryPolicy F
      → RetryContext F
      → (next_attempt : ℕ) → RetryPolicyKind
      → Option (RetryDecision F)
  decide p context next_attempt manual =
      some (dead_letter next_attempt (codes "manual policy: requires operator intervention") manual)
  decide p context next_attempt immediate = some (
      retry next_attempt (of_ℕ 0) immediate
        (codes "immediate retry attempt " ++ decimal next_attempt))
  decide p context next_attempt exponential =
      elim (compute_exponential_delay p context next_attempt) [
        | none ↦ none
        | some delay ↦ some (
            retry next_attempt delay exponential
              (codes "exponential backoff retry attempt " ++ decimal next_attempt))
      ]

  -- Steps 2 to 4
  abbrev pub evaluate_budget :
      RetryPolicy F → RetryContext F → (attempt : ℕ) → Option (RetryDecision F)
  evaluate_budget p context attempt =
      if not context.is_retryable
      then some (dead_letter attempt (codes "caller marked failure as non-retryable") p.kind)
      else if leb p.max_attempts attempt
      then some (
          dead_letter attempt
            (codes "retry budget exhausted: attempt "
              ++ (decimal attempt ++ (codes " >= max_attempts " ++ decimal p.max_attempts)))
            p.kind)
      else decide p context (attempt + 1) p.kind

  -- RetryManager.evaluate. `report_error` is the error of the cycle report, if there is a report and it
  -- has one; the validation report is not read by the source. None is an OverflowError.
  unfoldable pub evaluate :
      RetryPolicy F
      → RetryContext F
      → (report_error : Option Text) → (attempt : ℕ) → Option (RetryDecision F)
  unfolding decimal compute_exponential_delay
  evaluate p context (some error) attempt =
      some (dead_letter attempt (codes "infrastructure failure: " ++ error) p.kind)
  evaluate p context none attempt = evaluate_budget p context attempt
