-- ===== src/Persistence/Ingestion/Records.antt =====
-- src/persistence/ingestion/lifecycle.py: the lifecycle record of a work item and the result of one
-- lifecycle mutation, with the checks that tie their fields to the statuses.
pub mod Statuses
pub mod Transitions
pub mod Laws
use signalproject.Prelude.{
  bool_eq, ℕ, Bool, true, false, not, ◌&&◌, ◌||◌, Option, none, some, String, nat_eq, leb, ltb,
  is_some, ◌==◌, Result, ok, err, ◌>>=◌, ◌>>◌, raise_if, Fault, value_error,
}
use signalproject.Prelude.Float.{ℤ}
use signalproject.Prelude.Text.{Text, text_eq}
use signalproject.Persistence.Ingestion.Times.{
  Calendar, parse_utc, validate_optional_timestamp, validate_worker_id, validate_claim_token,
}
use signalproject.Persistence.Ingestion.Policy.{WorkItemKind, WorkItemKind-eq}
use signalproject.Persistence.Ingestion.Messages.{WorkError}
use signalproject.Persistence.Ingestion.Work.{IngestionWorkItem, work_item_kind}
use Statuses.{WorkItemStatus, pending, running, retrying, completed, dead_letter}

pub record WorkItemLifecycleRecord : Type 0 where
  pub work_item : IngestionWorkItem
  pub kind : WorkItemKind
  pub status : WorkItemStatus
  pub priority : ℤ
  pub available_at : Option Text
  pub attempt_count : ℕ
  pub revision : ℕ
  pub lease_owner : Option Text
  pub claim_token : Option Text
  pub lease_expires_at : Option Text
  pub claimed_at : Option Text
  pub completed_at : Option Text
  pub dead_lettered_at : Option Text
  pub failure : Option WorkError
  pub updated_at : Text

-- The keyword arguments of _require_record
pub record Required : Type 0 where
  pub available : Bool
  pub lease : Bool
  pub claimed : Bool
  pub completed : Bool
  pub dead_lettered : Bool
  pub failure : Bool
  pub attempts : Option ℕ
  pub revision : Option ℕ
  pub minimum_attempts : Option ℕ
  pub minimum_revision : Option ℕ

abbrev differs : Option ℕ → ℕ → Bool
differs none n = false
differs (some expected) n = not (nat_eq n expected)

abbrev falls_short : Option ℕ → ℕ → Bool
falls_short none n = false
falls_short (some minimum) n = ltb n minimum

-- `actual == expected`
abbrev has_fields : WorkItemLifecycleRecord → Required → Bool
has_fields r e =
    bool_eq (is_some r.available_at) e.available
    && (bool_eq (is_some r.lease_owner) e.lease
        && (bool_eq (is_some r.claimed_at) e.claimed
            && (bool_eq (is_some r.completed_at) e.completed
                && (bool_eq (is_some r.dead_lettered_at) e.dead_lettered
                    && bool_eq (is_some r.failure) e.failure))))

-- _require_record
unfoldable pub require_record : WorkItemLifecycleRecord → Required → Result Fault (Unit {0})
require_record r e = do
  raise_if (not (has_fields r e)) (value_error "record fields are inconsistent")
  raise_if (differs e.attempts r.attempt_count) (value_error "attempt_count is inconsistent")
  raise_if (differs e.revision r.revision) (value_error "revision is inconsistent")
  raise_if (falls_short e.minimum_attempts r.attempt_count)
      (value_error "attempt_count is inconsistent")
  raise_if (falls_short e.minimum_revision r.revision) (value_error "revision is inconsistent")

-- What _validate_record_state requires for each status
abbrev pub required : WorkItemStatus → Required
required pending = record {
  available = true;
  lease = false;
  claimed = false;
  completed = false;
  dead_lettered = false;
  failure = false;
  attempts = some 0;
  revision = some 0;
  minimum_attempts = none;
  minimum_revision = none;
}
required running = record {
  available = false;
  lease = true;
  claimed = true;
  completed = false;
  dead_lettered = false;
  failure = false;
  attempts = none;
  revision = none;
  minimum_attempts = some 1;
  minimum_revision = some 1;
}
required retrying = record {
  available = true;
  lease = false;
  claimed = true;
  completed = false;
  dead_lettered = false;
  failure = true;
  attempts = none;
  revision = none;
  minimum_attempts = some 1;
  minimum_revision = some 2;
}
required completed = record {
  available = false;
  lease = false;
  claimed = true;
  completed = true;
  dead_lettered = false;
  failure = false;
  attempts = none;
  revision = none;
  minimum_attempts = some 1;
  minimum_revision = some 2;
}
required dead_letter = record {
  available = false;
  lease = false;
  claimed = true;
  completed = false;
  dead_lettered = true;
  failure = true;
  attempts = none;
  revision = none;
  minimum_attempts = some 1;
  minimum_revision = some 2;
}

-- `any(lease_present) and not all(lease_present)`
abbrev pub lease_is_partial : WorkItemLifecycleRecord → Bool
lease_is_partial r =
    (is_some r.lease_owner || (is_some r.claim_token || is_some r.lease_expires_at))
    && not (is_some r.lease_owner && (is_some r.claim_token && is_some r.lease_expires_at))

abbrev same_time : Option Text → Text → Bool
same_time none updated_at = false
same_time (some t) updated_at = text_eq t updated_at

abbrev not_retryable : Option WorkError → Bool
not_retryable none = false
not_retryable (some e) = not e.retryable

abbrev check_worker : Option Text → Result Fault (Unit {0})
check_worker none = ok tt
check_worker (some worker_id) = validate_worker_id worker_id

abbrev check_token : Option Text → Result Fault (Unit {0})
check_token none = ok tt
check_token (some token) = validate_claim_token token

module _ (c : Calendar) where
  -- `value is not None and _parse_utc(value) <= _parse_utc(updated_at)`
  abbrev pub check_after :
      Option Text
      → (field : String) → (updated_at : Text) → (message : String) → Result Fault (Unit {0})
  check_after none field updated_at message = ok tt
  check_after (some value) field updated_at message = parse_utc c value field >>= λ t.
      parse_utc c updated_at "updated_at" >>= λ u. raise_if (leb t u) (value_error message)

  -- `value is not None and _parse_utc(value) > _parse_utc(updated_at)`
  abbrev pub check_not_after :
      Option Text
      → (field : String) → (updated_at : Text) → (message : String) → Result Fault (Unit {0})
  check_not_after none field updated_at message = ok tt
  check_not_after (some value) field updated_at message = parse_utc c value field >>= λ t.
      parse_utc c updated_at "updated_at" >>= λ u. raise_if (ltb u t) (value_error message)

  -- The tests of _validate_record_state behind those of the fields that are present
  abbrev pub check_times : WorkItemLifecycleRecord → WorkItemStatus → Result Fault (Unit {0})
  check_times r pending = ok tt
  check_times r running = do
    check_after r.lease_expires_at "lease_expires_at" r.updated_at
        "running lease must expire after updated_at"
    check_not_after r.claimed_at "claimed_at" r.updated_at
        "running claimed_at cannot follow updated_at"
  check_times r retrying = do
    raise_if (not_retryable r.failure)
        (value_error "retrying record requires retryable failure metadata")
    check_after r.available_at "available_at" r.updated_at
        "retrying availability must be later than updated_at"
  check_times r completed =
      raise_if (not (same_time r.completed_at r.updated_at))
        (value_error "completed_at must equal updated_at")
  check_times r dead_letter =
      raise_if (not (same_time r.dead_lettered_at r.updated_at))
        (value_error "dead_lettered_at must equal updated_at")

  -- _validate_record_state
  unfoldable pub validate_record_state : WorkItemLifecycleRecord → Result Fault (Unit {0})
  unfolding require_record
  validate_record_state r = do
    raise_if (lease_is_partial r)
        (value_error "lease authority fields must be all present or all absent")
    require_record r (required r.status)
    check_times r r.status

  -- The tests of WorkItemLifecycleRecord.__post_init__ on one field at a time
  unfoldable pub check_fields : WorkItemLifecycleRecord → Result Fault (Unit {0})
  check_fields r = do
    raise_if (not (work_item_kind r.work_item == r.kind))
        (value_error "kind does not match the typed WorkItem")
    validate_optional_timestamp c r.available_at "available_at"
    validate_optional_timestamp c r.lease_expires_at "lease_expires_at"
    validate_optional_timestamp c r.claimed_at "claimed_at"
    validate_optional_timestamp c r.completed_at "completed_at"
    validate_optional_timestamp c r.dead_lettered_at "dead_lettered_at"
    updated ← parse_utc c r.updated_at "updated_at"
    check_worker r.lease_owner
    check_token r.claim_token

  -- WorkItemLifecycleRecord.__post_init__
  unfoldable pub record_post_init : WorkItemLifecycleRecord → Result Fault WorkItemLifecycleRecord
  unfolding check_fields validate_record_state
  record_post_init r = do check_fields r; validate_record_state r; ok r
