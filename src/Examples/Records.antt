-- ===== src/Examples/Records.antt =====
-- Runs of the theorems on the commands and records of src/persistence/ingestion/lifecycle.py.
use signalproject.Prelude.{
  ℕ, ◌≡◌, ◌<◌, refl, arith, true, false, not, ◌&&◌, ◌||◌, none, some, [], ◌∷◌, nat_eq, is_some,
  ◌==◌, ok,
}
use signalproject.Prelude.Text.{Text, codes}
use signalproject.Prelude.Float.{pos, dyadic}
use signalproject.Persistence.Ingestion.Times.{
  validate_id, require_positive_integer, parse_utc, is_worker_id, is_token, validate_worker_id,
  validate_claim_token,
}
use signalproject.Persistence.Ingestion.Policy.{WorkItemKind, WorkErrorCategory}
use signalproject.Persistence.Ingestion.Backoff.{RetryDecision, number, evaluate_retry}
use signalproject.Persistence.Ingestion.Messages.{WorkError}
use signalproject.Persistence.Ingestion.Work.{processing}
use signalproject.Persistence.Ingestion.Commands.{
  ClaimAuthority, RetryWorkCommand, FailTerminalWorkCommand, retry_post_init,
}
use signalproject.Persistence.Ingestion.Commands.Laws.{retry_command_accepted}
use signalproject.Persistence.Ingestion.Records
use signalproject.Persistence.Ingestion.Records.{
  WorkItemLifecycleRecord, record_post_init, validate_record_state, require_record,
}
use signalproject.Persistence.Ingestion.Records.Statuses.{
  WorkItemStatus-eq, pending, running, retrying, completed, dead_letter,
}
use signalproject.Persistence.Ingestion.Records.Transitions
use signalproject.Persistence.Ingestion.Records.Transitions.{
  WorkTransitionResult, result_post_init, validate_transition_result,
}
use signalproject.Persistence.Ingestion.Records.Laws.{
  accepted_record, running_lease, accepted_result,
}
use signalproject.Examples.Ingestion.{
  policy, plain, collection_policy, policy-IsPolicy, plain-IsCalendar, read_failed_at,
  found_collection,
}

abbrev token : Text
token = codes "0123456789012345678901234567890123456789abc"

abbrev authority : ClaimAuthority
authority = record {
  work_item_id = codes "w1";
  worker_id = codes "worker-1";
  claim_token = token;
  expected_revision = 1;
}

abbrev error : WorkError
error = record {
  category = WorkErrorCategory.unexpected;
  message = codes "disk full";
  retryable = true;
}

retry_command_accepted_example :
    (d : RetryDecision) × (evaluate_retry plain
        (λ t. 7)
        (policy 1_000)
        WorkItemKind.collection
        (codes "w1")
        1
        (7 ∷ 48 ∷ [])
        (number (dyadic (pos 9) 1))
      ≡ ok d)
    × (retry_post_init plain
          (record { authority = authority; failed_at = 7 ∷ 48 ∷ []; decision = d; error = error })
        ≡ ok (record {
          authority = authority;
          failed_at = 7 ∷ 48 ∷ [];
          decision = d;
          error = error;
        }))
retry_command_accepted_example =
    retry_command_accepted plain plain-IsCalendar (λ t. 7) (policy 1_000) policy-IsPolicy
      WorkItemKind.collection (codes "w1") 1 7 (7 ∷ 48 ∷ []) (number (dyadic (pos 9) 1))
      collection_policy (omega arith) (omega arith) refl read_failed_at found_collection
      (omega arith) authority error (omega arith) refl refl

abbrev retry_command : RetryWorkCommand
retry_command = record {
  authority = authority;
  failed_at = 7 ∷ 48 ∷ [];
  decision = record {
    policy_version = codes "v1";
    maximum_attempts = 3;
    attempt_count = 1;
    exhausted = false;
    available_at = some (8 ∷ 48 ∷ []);
  };
  error = error;
}

retry_command-accepted : retry_post_init plain retry_command ≡ ok retry_command
unfolding retry_post_init parse_utc
retry_command-accepted = refl

abbrev fail_command : FailTerminalWorkCommand
fail_command = record { authority = authority; failed_at = 7 ∷ 48 ∷ []; error = error }

abbrev leased : WorkItemLifecycleRecord
leased = record {
  work_item = processing (record {
    raw_document_id = codes "d1";
    idempotency_key = codes "k1";
    id = codes "w1";
    created_at = 1 ∷ 48 ∷ [];
    schema_version = codes "1.0.0";
  });
  kind = WorkItemKind.document_processing;
  status = running;
  priority = pos 0;
  available_at = none;
  attempt_count = 1;
  revision = 1;
  lease_owner = some (codes "worker-1");
  claim_token = some token;
  lease_expires_at = some (9 ∷ 48 ∷ []);
  claimed_at = some (5 ∷ 48 ∷ []);
  completed_at = none;
  dead_lettered_at = none;
  failure = none;
  updated_at = 5 ∷ 48 ∷ [];
}

leased-accepted : record_post_init plain leased ≡ ok leased
unfolding record_post_init Records.check_fields validate_record_state require_record parse_utc
    validate_worker_id validate_claim_token is_worker_id is_token
leased-accepted = refl

accepted_record_example :
    (is_some leased.lease_owner ≡ (running == running))
    × (is_some leased.claim_token ≡ (running == running))
    × (is_some leased.lease_expires_at ≡ (running == running))
    × (is_some leased.available_at ≡ (running == pending || running == retrying))
    × (is_some leased.claimed_at ≡ not (running == pending))
    × (is_some leased.completed_at ≡ (running == completed))
    × (is_some leased.dead_lettered_at ≡ (running == dead_letter))
    × (is_some leased.failure ≡ (running == retrying || running == dead_letter))
    × (nat_eq leased.attempt_count 0 ≡ (running == pending))
accepted_record_example = accepted_record plain leased leased-accepted

running_lease_example :
    (expires : Text) × (until : ℕ) × (updated : ℕ) × (leased.lease_expires_at ≡ some expires)
    × (parse_utc plain expires "lease_expires_at" ≡ ok until)
    × (parse_utc plain (5 ∷ 48 ∷ []) "updated_at" ≡ ok updated)
    × (updated < until)
running_lease_example = running_lease plain leased leased-accepted refl

abbrev retried : WorkTransitionResult
retried = record {
  work_item_id = codes "w1";
  kind = WorkItemKind.document_processing;
  from_status = running;
  to_status = retrying;
  occurred_at = 7 ∷ 48 ∷ [];
  attempt_count = 1;
  revision = 2;
  available_at = some (8 ∷ 48 ∷ []);
  lease_expires_at = none;
  error = some error;
  exhausted = false;
}

retried-accepted : result_post_init plain retried ≡ ok retried
unfolding result_post_init Transitions.check_fields validate_transition_result parse_utc validate_id
    require_positive_integer
retried-accepted = refl

accepted_result_example :
    (retried.from_status ≡ running)
    × ((retried.to_status == pending) ≡ false)
    × (is_some retried.lease_expires_at ≡ (retried.to_status == running))
    × (is_some retried.available_at ≡ (retried.to_status == retrying))
    × (is_some retried.error ≡ (retried.to_status == retrying || retried.to_status == dead_letter))
    × ((retried.exhausted && not (retried.to_status == dead_letter)) ≡ false)
accepted_result_example = accepted_result plain retried retried-accepted
