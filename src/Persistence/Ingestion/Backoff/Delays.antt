-- ===== src/Persistence/Ingestion/Backoff/Delays.antt =====
-- The delay before a retry.
use signalproject.Prelude.{
  ℕ, zero, suc, ◌+◌, ◌-◌, ◌*◌, ◌/◌, ◌^◌, ◌≤◌, ◌<◌, min, ◌≡◌, ap, arith, some,
}
use native.Mathlib.Nat.{
  pow-zero, pow-suc, div-mul-le_self, mul-le-mul, le-div_iff_mul-le, mul_assoc, le_trans,
}
use signalproject.Persistence.Ingestion.Policy.{WorkLifecyclePolicy, IsPolicy}
use signalproject.Persistence.Ingestion.Backoff.{
  Hint, validated_retry_hint, base_delay, jittered_ratio, calculated_delay, delay_seconds,
}

-- With a policy that its validation accepts, the delay lies between one second and the policy's
-- maximum, whatever the attempt, the digest and the hint.
pub delay_bounds :
    (p : WorkLifecyclePolicy) (attempt value : ℕ) (hint : Hint)
    → IsPolicy p
    → (1 ≤ delay_seconds p attempt value hint)
      × (delay_seconds p attempt value hint ≤ p.maximum_retry_delay_seconds)
unfolding delay_seconds calculated_delay
delay_bounds p attempt value hint v = ground (arith, v.initial, v.capped)

-- A provider's hint that counts is a lower bound of the delay, as far as the policy's maximum allows.
pub delay_respects_hint :
    (p : WorkLifecyclePolicy) (attempt value : ℕ) (hint : Hint) {seconds : ℕ}
    → validated_retry_hint hint ≡ some seconds
    → min p.maximum_retry_delay_seconds seconds ≤ delay_seconds p attempt value hint
unfolding delay_seconds
delay_respects_hint p attempt value hint h = ground arith

-- For eight bytes of a digest the jitter moves the ratio by its own size at most, in both directions.
pub jittered_ratio_bounds :
    (p : WorkLifecyclePolicy) (value : ℕ)
    → value < 2 ^ 64
    → (10_000 ≤ jittered_ratio p value + p.jitter_ratio_basis_points)
      × (jittered_ratio p value ≤ 10_000 + p.jitter_ratio_basis_points)
unfolding jittered_ratio
jittered_ratio_bounds p value h =
    let top : p.jitter_ratio_basis_points * value ≤ p.jitter_ratio_basis_points * (2 ^ 64 - 1) =
      grind arith in
    omega arith

pow_pos : (e : ℕ) → 0 < 10_000 ^ e
pow_pos zero = omega arith
pow_pos (suc e) = rw pow-suc (omega (arith, pow_pos e))

scaled_mono :
    (initial multiplier e : ℕ)
    → 10_000 ≤ multiplier
    → initial * multiplier ^ e / 10_000 ^ e ≤ initial * multiplier ^ suc e / 10_000 ^ suc e
scaled_mono initial multiplier e h =
    let below = div-mul-le_self (initial * multiplier ^ e) (10_000 ^ e) in
    let step : initial * multiplier ^ e / 10_000 ^ e * 10_000 ^ suc e
        ≤ initial * multiplier ^ suc e =
      simp (pow-suc, ← mul_assoc) (mul-le-mul below h) in
    (le-div_iff_mul-le (pow_pos (suc e))).1 step

scaled-zero : (initial multiplier : ℕ) → initial * multiplier ^ 0 / 10_000 ^ 0 ≡ initial
scaled-zero initial multiplier = rw (pow-zero, pow-zero) (omega arith)

scaled_pos :
    (initial multiplier e : ℕ)
    → 10_000 ≤ multiplier
    → initial ≤ initial * multiplier ^ e / 10_000 ^ e
scaled_pos initial multiplier zero h = omega (arith, scaled-zero initial multiplier)
scaled_pos initial multiplier (suc e) h =
    le_trans (scaled_pos initial multiplier e h) (scaled_mono initial multiplier e h)

base_delay-suc :
    (p : WorkLifecyclePolicy) (e : ℕ)
    → base_delay p (suc e)
      ≡ min p.maximum_retry_delay_seconds
          (p.initial_retry_delay_seconds * p.backoff_multiplier_basis_points ^ e / 10_000 ^ e)
unfolding base_delay
base_delay-suc p e =
    let same : suc e - 1 ≡ e = omega arith in
    ap
      (λ (k : ℕ).
        min p.maximum_retry_delay_seconds
          (p.initial_retry_delay_seconds * p.backoff_multiplier_basis_points ^ k / 10_000 ^ k))
      same

-- With a policy that its validation accepts, the delay before jitter starts at the initial delay,
-- never shrinks from one attempt to the next, and stays between the initial and the maximal delay.
pub base_delay_grows :
    (p : WorkLifecyclePolicy) (attempt : ℕ)
    → IsPolicy p
    → 1 ≤ attempt
    → (base_delay p 1 ≡ p.initial_retry_delay_seconds)
      × (base_delay p attempt ≤ base_delay p (suc attempt))
      × (p.initial_retry_delay_seconds ≤ base_delay p attempt)
      × (base_delay p attempt ≤ p.maximum_retry_delay_seconds)
base_delay_grows p zero v h = absurd (omega arith)
base_delay_grows p (suc e) v h =
    let i = p.initial_retry_delay_seconds in
    let b = p.backoff_multiplier_basis_points in
    let here = base_delay-suc p e in
    (
      omega (arith, v.capped, base_delay-suc p 0, scaled-zero i b),
      omega (arith, here, base_delay-suc p (suc e), scaled_mono i b e v.grows),
      omega (arith, here, v.capped, scaled_pos i b e v.grows),
      omega (arith, here),
    )

ratio-zero :
    (jitter value : ℕ) → jitter ≡ 0 → 10_000 + 2 * jitter * value / (2 ^ 64 - 1) - jitter ≡ 10_000
ratio-zero jitter value h = rw h (omega arith)

-- Without jitter the calculated delay is the exponential one.
pub delay_unjittered :
    (p : WorkLifecyclePolicy) (attempt value : ℕ)
    → IsPolicy p
    → 1 ≤ attempt
    → p.jitter_ratio_basis_points ≡ 0
    → calculated_delay p attempt value ≡ base_delay p attempt
unfolding calculated_delay jittered_ratio
delay_unjittered p attempt value v h off =
    let (_, _, low, high) = base_delay_grows p attempt v h in
    rw (ratio-zero p.jitter_ratio_basis_points value off) (omega (arith, low, high, v.initial))
