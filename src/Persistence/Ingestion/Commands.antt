-- ===== src/Persistence/Ingestion/Commands.antt =====
-- src/persistence/ingestion/lifecycle.py: the claim of a work item and the commands of its owner, each
-- with its validation.
pub mod Laws
use signalproject.Prelude.{
  ℕ, Bool, true, false, not, Option, none, some, List, [], ◌∷◌, leb, nat_eq, length, all_distinct,
  ◌==◌, Result, ok, err, ◌>>=◌, ◌>>◌, raise_if, Fault, value_error,
}
use signalproject.Prelude.Text.{Text, is_substring}
use signalproject.Persistence.Ingestion.Times.{
  Calendar, parse_utc, require_positive_integer, validate_id, validate_worker_id,
  validate_claim_token,
}
use signalproject.Persistence.Ingestion.Policy.{WorkItemKind, WorkItemKind-eq, WorkLifecyclePolicy}
use signalproject.Persistence.Ingestion.Backoff.{RetryDecision}
use signalproject.Persistence.Ingestion.Messages.{WorkError}
use signalproject.Persistence.Ingestion.Work.{IngestionWorkItem, work_item_kind}

pub record WorkClaimRequest : Type 0 where
  pub worker_id : Text
  pub allowed_kinds : List WorkItemKind
  pub claimed_at : Text
  pub policy : WorkLifecyclePolicy

pub record WorkClaim : Type 0 where
  pub work_item : IngestionWorkItem
  pub kind : WorkItemKind
  pub worker_id : Text
  pub claim_token : Text
  pub claimed_at : Text
  pub lease_expires_at : Text
  pub attempt_count : ℕ
  pub revision : ℕ
  pub reclaimed : Bool
  pub prior_worker_id : Option Text

pub record ClaimAuthority : Type 0 where
  pub work_item_id : Text
  pub worker_id : Text
  pub claim_token : Text
  pub expected_revision : ℕ

-- ClaimAuthority.__post_init__
unfoldable pub authority_post_init : ClaimAuthority → Result Fault ClaimAuthority
authority_post_init a = do
  validate_id a.work_item_id "work_item_id"
  validate_worker_id a.worker_id
  validate_claim_token a.claim_token
  ok a

pub record RenewLeaseCommand : Type 0 where
  pub authority : ClaimAuthority
  pub renewed_at : Text
  pub lease_duration_seconds : ℕ

pub record CompleteWorkCommand : Type 0 where
  pub authority : ClaimAuthority
  pub completed_at : Text

pub record RetryWorkCommand : Type 0 where
  pub authority : ClaimAuthority
  pub failed_at : Text
  pub decision : RetryDecision
  pub error : WorkError

pub record FailTerminalWorkCommand : Type 0 where
  pub authority : ClaimAuthority
  pub failed_at : Text
  pub error : WorkError

-- The tests of WorkClaim on the worker before a reclaim
abbrev check_prior : Bool → Option Text → Result Fault (Unit {0})
check_prior true none = err (value_error "reclaimed claim requires prior_worker_id")
check_prior true (some worker_id) = validate_worker_id worker_id
check_prior false none = ok tt
check_prior false (some worker_id) = err (value_error "ordinary claim cannot have prior_worker_id")

module _ (c : Calendar) where
  -- WorkClaimRequest.__post_init__
  unfoldable pub request_post_init : WorkClaimRequest → Result Fault WorkClaimRequest
  request_post_init r = do
    validate_worker_id r.worker_id
    raise_if (nat_eq (length r.allowed_kinds) 0) (value_error "allowed_kinds must not be empty")
    raise_if (not (all_distinct r.allowed_kinds))
        (value_error "allowed_kinds must not contain duplicates")
    parse_utc c r.claimed_at "claimed_at" >>= λ claimed. ok r

  -- WorkClaim.__post_init__
  unfoldable pub claim_post_init : WorkClaim → Result Fault WorkClaim
  claim_post_init w = do
    raise_if (not (w.kind == work_item_kind w.work_item))
        (value_error "kind does not match the typed WorkItem")
    validate_worker_id w.worker_id
    validate_claim_token w.claim_token
    claimed ← parse_utc c w.claimed_at "claimed_at"
    expires ← parse_utc c w.lease_expires_at "lease_expires_at"
    raise_if (leb expires claimed) (value_error "lease_expires_at must be later than claimed_at")
    require_positive_integer w.attempt_count "attempt_count"
    require_positive_integer w.revision "revision"
    check_prior w.reclaimed w.prior_worker_id
    ok w

  -- RenewLeaseCommand.__post_init__
  unfoldable pub renew_post_init : RenewLeaseCommand → Result Fault RenewLeaseCommand
  renew_post_init r = do
    renewed ← parse_utc c r.renewed_at "renewed_at"
    require_positive_integer r.lease_duration_seconds "lease_duration_seconds"
    ok r

  -- CompleteWorkCommand.__post_init__
  unfoldable pub complete_post_init : CompleteWorkCommand → Result Fault CompleteWorkCommand
  complete_post_init r = do completed ← parse_utc c r.completed_at "completed_at"; ok r

  -- The test of RetryWorkCommand on the time of a decision
  abbrev pub check_later : (failed : ℕ) → Option Text → Result Fault (Unit {0})
  check_later failed none = ok tt
  check_later failed (some available_at) = parse_utc c available_at "available_at" >>= λ available.
      raise_if (leb available failed) (value_error "available_at must be later than failed_at")

  -- RetryWorkCommand.__post_init__
  unfoldable pub retry_post_init : RetryWorkCommand → Result Fault RetryWorkCommand
  retry_post_init r = do
    failed ← parse_utc c r.failed_at "failed_at"
    raise_if (not r.error.retryable) (value_error "retry command requires a retryable WorkError")
    check_later failed r.decision.available_at
    raise_if (is_substring r.authority.claim_token r.error.message)
        (value_error "failure message must not contain the claim token")
    ok r

  -- FailTerminalWorkCommand.__post_init__
  unfoldable pub fail_post_init : FailTerminalWorkCommand → Result Fault FailTerminalWorkCommand
  fail_post_init r = do
    failed ← parse_utc c r.failed_at "failed_at"
    raise_if r.error.retryable (value_error "terminal command requires a terminal WorkError")
    raise_if (is_substring r.authority.claim_token r.error.message)
        (value_error "failure message must not contain the claim token")
    ok r
