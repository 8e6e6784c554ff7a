-- ===== src/Persistence/Ingestion/Backoff/Laws.antt =====
-- evaluate_retry as a whole.
use signalproject.Prelude.{ℕ, ◌+◌, ◌*◌, ◌≤◌, ◌<◌, ◌≡◌, false, arith, some, ltb, ok}
use signalproject.Prelude.Text.{Text, is_empty}
use signalproject.Persistence.Ingestion.Times.{
  Calendar, IsCalendar, max_instant, parse_utc, parse_utc-isoformat, require_positive_integer,
  validate_id,
}
use signalproject.Persistence.Ingestion.Policy.{
  WorkItemKind, WorkKindPolicy, WorkLifecyclePolicy, IsPolicy, for_kind,
}
use signalproject.Persistence.Ingestion.Backoff.{
  Hint, delay_seconds, digest_input, decision, decision_post_init, decide, evaluate_retry,
}
use signalproject.Persistence.Ingestion.Backoff.Delays.{delay_bounds}

module _ (c : Calendar) (laws : IsCalendar c) (digest : Text → ℕ) (p : WorkLifecyclePolicy)
    (v : IsPolicy p) (id : Text) (attempt failed : ℕ) (hint : Hint)
    (room : failed + p.maximum_retry_delay_seconds * 1_000_000 ≤ max_instant)
    (counted : 1 ≤ attempt) where
  abbrev delay : ℕ
  delay = delay_seconds p attempt (digest (digest_input c p id attempt)) hint

  decide_again :
      (k : WorkKindPolicy)
      → 1 ≤ k.maximum_attempts
      → attempt < k.maximum_attempts
      → decide c digest p id attempt failed hint k
        ≡ ok (decision c p k attempt false (some (c.isoformat (failed + delay * 1_000_000))))
  unfolding decide decision_post_init
  decide_again k one under =
      let (low, high) = delay_bounds p attempt (digest (digest_input c p id attempt)) hint v in
      let fits : failed + delay * 1_000_000 ≤ max_instant = omega (arith, high) in
      ground (
        arith,
        v.version,
        fits,
        parse_utc-isoformat c laws (failed + delay * 1_000_000) "available_at" fits,
      )

le→ltb_false : (n : ℕ) → 1 ≤ n → ltb n 1 ≡ false
le→ltb_false n h = ground arith

module _ (c : Calendar) (laws : IsCalendar c) (digest : Text → ℕ) (p : WorkLifecyclePolicy)
    (v : IsPolicy p) (kind : WorkItemKind) (id : Text) (attempt failed : ℕ) (failed_at : Text)
    (hint : Hint) (k : WorkKindPolicy)
    (room : failed + p.maximum_retry_delay_seconds * 1_000_000 ≤ max_instant)
    (counted : 1 ≤ attempt) (named : is_empty id ≡ false)
    (read : parse_utc c failed_at "failed_at" ≡ ok failed) (found : for_kind p kind ≡ ok k)
    (one : 1 ≤ k.maximum_attempts) where
  -- With a policy that its validation accepts, a non-empty id, an attempt of 1 or more, a failure time
  -- that can be read, a kind whose policy allows an attempt, and room in the calendar, while attempts
  -- are left the decision is to retry at a time that reads back as the failure time plus the delay in
  -- seconds.
  pub evaluate_retry_again :
      attempt < k.maximum_attempts
      → (at : Text) × (evaluate_retry c digest p kind id attempt failed_at hint
          ≡ ok (decision c p k attempt false (some at)))
        × (parse_utc c at "available_at"
            ≡ ok (
                failed
                + delay_seconds p attempt (digest (digest_input c p id attempt)) hint * 1_000_000))
  unfolding evaluate_retry validate_id require_positive_integer
  evaluate_retry_again under =
      let wait = delay_seconds p attempt (digest (digest_input c p id attempt)) hint in
      let (low, high) = delay_bounds p attempt (digest (digest_input c p id attempt)) hint v in
      (
        c.isoformat (failed + wait * 1_000_000),
        rw (named, le→ltb_false attempt counted, read, found)
            (decide_again c laws digest p v id attempt failed hint room counted k one under),
        parse_utc-isoformat c laws (failed + wait * 1_000_000) "available_at" (omega (arith, high)),
      )
