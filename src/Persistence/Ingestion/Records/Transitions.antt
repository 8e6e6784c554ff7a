-- ===== src/Persistence/Ingestion/Records/Transitions.antt =====
-- src/persistence/ingestion/lifecycle.py: WorkTransitionResult and _validate_transition_result.
use signalproject.Prelude.{
  String, ℕ, Bool, true, false, not, ◌&&◌, ◌||◌, Option, none, some, leb, ltb, is_some, is_none,
  Result, ok, err, ◌>>=◌, ◌>>◌, raise_if, Fault, value_error,
}
use signalproject.Prelude.Text.{Text}
use signalproject.Persistence.Ingestion.Times.{
  Calendar, parse_utc, validate_optional_timestamp, validate_id, require_positive_integer,
}
use signalproject.Persistence.Ingestion.Policy.{WorkItemKind, WorkErrorCategory, attempts_exhausted}
use signalproject.Persistence.Ingestion.Messages.{WorkError}
use signalproject.Persistence.Ingestion.Records.Statuses.{
  WorkItemStatus, pending, running, retrying, completed, dead_letter,
}

pub record WorkTransitionResult : Type 0 where
  pub work_item_id : Text
  pub kind : WorkItemKind
  pub from_status : WorkItemStatus
  pub to_status : WorkItemStatus
  pub occurred_at : Text
  pub attempt_count : ℕ
  pub revision : ℕ
  pub available_at : Option Text
  pub lease_expires_at : Option Text
  pub error : Option WorkError
  pub exhausted : Bool

-- `error is None or not error.retryable`
abbrev lacks_retryable : Option WorkError → Bool
lacks_retryable none = true
lacks_retryable (some e) = not e.retryable

abbrev is_exhaustion : WorkErrorCategory → Bool
is_exhaustion attempts_exhausted = true
is_exhaustion _ = false

-- The two tests on the error of a dead letter
abbrev check_dead_letter : (exhausted : Bool) → Option WorkError → Result Fault (Unit {0})
check_dead_letter exhausted none = err (value_error "dead-letter result fields are inconsistent")
check_dead_letter true (some e) =
    raise_if (not e.retryable && not (is_exhaustion e.category))
      (value_error "exhausted result has an invalid error category")
check_dead_letter false (some e) =
    raise_if e.retryable (value_error "terminal result requires a terminal error")

module _ (c : Calendar) where
  abbrev check_later :
      Option Text
      → (field : String) → (occurred_at : Text) → (message : String) → Result Fault (Unit {0})
  check_later none field occurred_at message = ok tt
  check_later (some value) field occurred_at message = parse_utc c value field >>= λ t.
      parse_utc c occurred_at "occurred_at" >>= λ u. raise_if (leb t u) (value_error message)

  abbrev validate_from_running : WorkTransitionResult → WorkItemStatus → Result Fault (Unit {0})
  validate_from_running r pending =
      err (value_error "transition result uses an unsupported lifecycle transition")
  validate_from_running r running = do
    raise_if
        (is_none r.lease_expires_at || (is_some r.available_at || (is_some r.error || r.exhausted)))
        (value_error "renewal result fields are inconsistent")
    check_later r.lease_expires_at "lease_expires_at" r.occurred_at
        "renewal expiry must be later than occurred_at"
  validate_from_running r completed =
      raise_if
        (is_some r.lease_expires_at || (is_some r.available_at || (is_some r.error || r.exhausted)))
        (value_error "completion result fields are inconsistent")
  validate_from_running r retrying = do
    raise_if
        (is_none r.available_at
          || (is_some r.lease_expires_at || (lacks_retryable r.error || r.exhausted)))
        (value_error "retry result fields are inconsistent")
    check_later r.available_at "available_at" r.occurred_at
        "retry availability must be later than occurred_at"
  validate_from_running r dead_letter = do
    raise_if (is_some r.available_at || is_some r.lease_expires_at)
        (value_error "dead-letter result fields are inconsistent")
    check_dead_letter r.exhausted r.error

  abbrev validate_from : WorkTransitionResult → WorkItemStatus → Result Fault (Unit {0})
  validate_from r running = validate_from_running r r.to_status
  validate_from r _ = err (value_error "transition result uses an unsupported lifecycle transition")

  -- _validate_transition_result
  unfoldable pub validate_transition_result : WorkTransitionResult → Result Fault (Unit {0})
  validate_transition_result r = validate_from r r.from_status

  -- The tests of WorkTransitionResult.__post_init__ on one field at a time
  unfoldable pub check_fields : WorkTransitionResult → Result Fault (Unit {0})
  check_fields r = do
    validate_id r.work_item_id "work_item_id"
    occurred ← parse_utc c r.occurred_at "occurred_at"
    require_positive_integer r.attempt_count "attempt_count"
    require_positive_integer r.revision "revision"
    raise_if (ltb r.revision 2) (value_error "transition result revision must be at least 2")
    validate_optional_timestamp c r.available_at "available_at"
    validate_optional_timestamp c r.lease_expires_at "lease_expires_at"

  -- WorkTransitionResult.__post_init__
  unfoldable pub result_post_init : WorkTransitionResult → Result Fault WorkTransitionResult
  unfolding check_fields validate_transition_result
  result_post_init r = do check_fields r; validate_transition_result r; ok r
