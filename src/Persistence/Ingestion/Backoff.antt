-- ===== src/Persistence/Ingestion/Backoff.antt =====
-- src/persistence/ingestion/lifecycle.py: RetryDecision and evaluate_retry. SHA-256 is `hashlib`'s and is
-- a parameter: `digest s` is the number that the first eight bytes of the digest of `s` spell.
pub mod Delays
pub mod Laws
use signalproject.Prelude.{
  bool_eq, ℕ, suc, ◌+◌, ◌-◌, ◌*◌, ◌/◌, ◌^◌, ◌≤◌, ◌<◌, min, max, Bool, true, false, not, ◌&&◌,
  Option, none, some, List, [], ◌∷◌, ◌++◌, leb, ltb, is_some, is_none, Result, ok, err, ◌>>=◌, ◌>>◌,
  raise_if, if◌then◌else◌, Fault, value_error, overflow_error,
}
use signalproject.Prelude.Text.{Text, codes, decimal}
use signalproject.Prelude.Float.{ℤ, pos, negsuc, Float, nan, infinity, dyadic}
use signalproject.Persistence.Ingestion.Times.{
  Calendar, max_instant, parse_utc, require_positive_integer, validate_id, is_policy_version,
}
use signalproject.Persistence.Ingestion.Policy.{
  WorkItemKind, WorkKindPolicy, WorkLifecyclePolicy, for_kind,
}

pub record RetryDecision : Type 0 where
  pub policy_version : Text
  pub maximum_attempts : ℕ
  pub attempt_count : ℕ
  pub exhausted : Bool
  pub available_at : Option Text

-- `retry_after_seconds: object`: a number, or any other value (a bool among them). An int is the dyadic
-- number with exponent 0; ints beyond the floats are outside the model.
pub data Hint : Type 0 where
  other : Hint
  number : Float → Hint

-- _validated_retry_hint and `math.ceil`: the seconds of a finite hint that is not negative
abbrev pub ceil_of_float : Float → Option ℕ
ceil_of_float nan = none
ceil_of_float (infinity negative) = none
ceil_of_float (dyadic (negsuc m) k) = none
ceil_of_float (dyadic (pos m) k) = some ((m + (2 ^ k - 1)) / 2 ^ k)

abbrev pub validated_retry_hint : Hint → Option ℕ
validated_retry_hint other = none
validated_retry_hint (number x) = ceil_of_float x

-- The capped exponential delay
unfoldable pub base_delay : WorkLifecyclePolicy → (attempt_count : ℕ) → ℕ
base_delay p attempt_count =
    let exponent = attempt_count - 1 in
    let numerator = p.initial_retry_delay_seconds * p.backoff_multiplier_basis_points ^ exponent in
    let denominator = 10_000 ^ exponent in
    min p.maximum_retry_delay_seconds (numerator / denominator)

-- `10_000 + jitter_offset`. The offset may be negative, but no lower than minus the jitter, which a
-- policy keeps below 10_000: so the difference is written last and is never cut off at 0.
unfoldable pub jittered_ratio : WorkLifecyclePolicy → (value : ℕ) → ℕ
jittered_ratio p value =
    let jitter = p.jitter_ratio_basis_points in 10_000 + 2 * jitter * value / (2 ^ 64 - 1) - jitter

unfoldable pub calculated_delay : WorkLifecyclePolicy → (attempt_count value : ℕ) → ℕ
calculated_delay p attempt_count value = max 1 (
    min p.maximum_retry_delay_seconds
      (base_delay p attempt_count * jittered_ratio p value / 10_000))

abbrev with_hint : WorkLifecyclePolicy → (calculated : ℕ) → Option ℕ → ℕ
with_hint p calculated none = calculated
with_hint p calculated (some seconds) = min p.maximum_retry_delay_seconds (max calculated seconds)

unfoldable pub delay_seconds : WorkLifecyclePolicy → (attempt_count value : ℕ) → Hint → ℕ
delay_seconds p attempt_count value hint =
    with_hint p (calculated_delay p attempt_count value) (validated_retry_hint hint)

module _ (c : Calendar) where
  abbrev check_available : Bool → Option Text → Result Fault (Unit {0})
  check_available true none = ok tt
  check_available true (some t) = err (value_error "exhausted retry decision cannot be available")
  check_available false none =
      err (value_error "non-exhausted retry decision requires available_at")
  check_available false (some t) = parse_utc c t "available_at" >>= λ instant. ok tt

  -- RetryDecision.__post_init__
  unfoldable pub decision_post_init : RetryDecision → Result Fault RetryDecision
  unfolding require_positive_integer
  decision_post_init d = do
    raise_if (not (is_policy_version d.policy_version))
        (value_error "policy_version has an invalid format")
    require_positive_integer d.maximum_attempts "maximum_attempts"
    require_positive_integer d.attempt_count "attempt_count"
    raise_if (not (bool_eq d.exhausted (leb d.maximum_attempts d.attempt_count)))
        (value_error "exhausted must match the attempt budget")
    check_available d.exhausted d.available_at
    ok d

  -- `failed + timedelta(seconds=delay)`, in microseconds; past `datetime.max` it raises.
  abbrev pub later : (instant seconds : ℕ) → Result Fault ℕ
  later instant seconds =
      if leb (instant + seconds * 1_000_000) max_instant
      then ok (instant + seconds * 1_000_000)
      else err overflow_error

  -- f"{policy.policy_version}:{work_item_id}:{attempt_count}"
  abbrev pub digest_input : WorkLifecyclePolicy → (work_item_id : Text) → (attempt_count : ℕ) → Text
  digest_input p work_item_id attempt_count =
      p.policy_version ++ (codes ":" ++ (work_item_id ++ (codes ":" ++ decimal attempt_count)))

  abbrev pub decision :
      WorkLifecyclePolicy
      → WorkKindPolicy
      → (attempt_count : ℕ) → Bool
      → Option Text
      → RetryDecision
  decision p kind_policy attempt_count exhausted available_at = record {
    policy_version = p.policy_version;
    maximum_attempts = kind_policy.maximum_attempts;
    attempt_count = attempt_count;
    exhausted = exhausted;
    available_at = available_at;
  }

  -- The part of evaluate_retry behind the lookup of the kind's policy
  unfoldable pub decide :
      (digest : Text → ℕ)
      → WorkLifecyclePolicy
      → (work_item_id : Text) → (attempt_count failed : ℕ) → Hint
      → WorkKindPolicy
      → Result Fault RetryDecision
  decide digest p work_item_id attempt_count failed hint kind_policy =
      if leb kind_policy.maximum_attempts attempt_count
      then decision_post_init (decision p kind_policy attempt_count true none)
      else later failed
          (delay_seconds p attempt_count (digest (digest_input p work_item_id attempt_count)) hint)
        >>= λ available.
            decision_post_init
              (decision p kind_policy attempt_count false (some (c.isoformat available)))

  unfoldable pub evaluate_retry :
      (digest : Text → ℕ)
      → WorkLifecyclePolicy
      → WorkItemKind
      → (work_item_id : Text) → (attempt_count : ℕ) → (failed_at : Text)
      → (retry_after_seconds : Hint) → Result Fault RetryDecision
  evaluate_retry digest policy kind work_item_id attempt_count failed_at retry_after_seconds = do
    validate_id work_item_id "work_item_id"
    require_positive_integer attempt_count "attempt_count"
    failed ← parse_utc c failed_at "failed_at"
    kind_policy ← for_kind policy kind
    decide digest policy work_item_id attempt_count failed retry_after_seconds kind_policy
