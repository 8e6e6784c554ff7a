-- ===== src/Runtime/Orchestrator.antt =====
-- src/runtime/retry_orchestrator.py: a failed cycle's item is retried or dead-lettered, and dead letters
-- are replayed. A method returns its outcome, or what it raises, beside the two queues after it.
pub mod Laws
use signalproject.Prelude.{
  ℕ, Bool, true, false, not, Option, none, some, ◌++◌, Result, ok, err, if◌then◌else◌,
}
use signalproject.Prelude.Text.{Text, codes}
use signalproject.Runtime.Queue
use signalproject.Runtime.Queue.{WorkQueue}
use signalproject.Runtime.Queue.Items.{WorkItem, WorkItemStatus, WorkItemPriority, QueueError}
use signalproject.Runtime.DeadLetter
use signalproject.Runtime.DeadLetter.{DeadLetterQueue, DeadLetterEntry}
use signalproject.Runtime.Retry.{FloatOps, RetryPolicy, RetryContext, RetryDecision, evaluate}

pub data Route : Type 0 where
  retry dead_letter noop : Route

pub record RetryOutcome : Type 0 where
  pub decision_route : Route
  pub attempt : ℕ
  pub retry_item_id : Option Text
  pub dead_lettered : Bool
  pub reason : Text

-- The two queues that the orchestrator holds
pub record Queues : Type 0 where
  pub queue : WorkQueue
  pub dead_letters : DeadLetterQueue

abbrev pub retry_item : (new_id now cycle_id trigger : Text) → WorkItemPriority → WorkItem
retry_item new_id now cycle_id trigger priority = record {
  id = new_id;
  cycle_id = cycle_id;
  priority = priority;
  status = WorkItemStatus.pending;
  trigger = trigger;
  enqueued_at = now;
  started_at = none;
  completed_at = none;
  result_summary = none;
  error = none;
}

abbrev after_enqueue : Result QueueError (Unit {0}) → RetryOutcome → Result QueueError RetryOutcome
after_enqueue (ok done) outcome = ok outcome
after_enqueue (err e) outcome = err e

-- `self._queue.enqueue(retry_item)`, and the outcome if it does not raise
abbrev enqueue_retry :
    Queues → WorkItem → (attempt : ℕ) (reason : Text) → Result QueueError RetryOutcome × Queues
enqueue_retry s item attempt reason = (
  after_enqueue (Queue.enqueue s.queue item).0 (record {
    decision_route = retry;
    attempt = attempt;
    retry_item_id = some item.id;
    dead_lettered = false;
    reason = reason;
  }),
  record s { queue = (Queue.enqueue s.queue item).1 },
)

module _ {F : Type 0} (new_id now : Text) where
  -- The branch of handle_failed_cycle that dead-letters. `except Exception: pass` drops the result of
  -- `mark_failed`, which leaves the queue as it was when it raises.
  abbrev bury :
      RetryDecision F
      → (original_item : WorkItem) → (attempt : ℕ) → Queues
      → Result QueueError RetryOutcome × Queues
  bury decision original_item attempt s =
      let added = DeadLetter.enqueue now s.dead_letters original_item decision.reason attempt in
      (
        ok (record {
          decision_route = dead_letter;
          attempt = decision.attempt;
          retry_item_id = none;
          dead_lettered = added.0;
          reason = decision.reason;
        }),
        record {
          queue = (Queue.mark_failed s.queue original_item decision.reason).1;
          dead_letters = added.1;
        },
      )

  abbrev nothing_to_do : RetryDecision F → RetryOutcome
  nothing_to_do decision = record {
    decision_route = noop;
    attempt = decision.attempt;
    retry_item_id = none;
    dead_lettered = false;
    reason = decision.reason;
  }

  abbrev pub act_on :
      RetryDecision F
      → (original_item : WorkItem) → (attempt : ℕ) → (retry_priority : WorkItemPriority) → Queues
      → Result QueueError RetryOutcome × Queues
  act_on decision original_item attempt retry_priority s =
      if decision.route_to_dead_letter
      then bury decision original_item attempt s
      else if not decision.should_retry
      then (ok (nothing_to_do decision), s)
      else enqueue_retry s
          (retry_item new_id now original_item.cycle_id (codes "retry") retry_priority)
          decision.attempt decision.reason

-- What handle_failed_cycle raises: what the queue's `enqueue` raises, or the OverflowError of `evaluate`
pub data CycleError : Type 0 where
  refused : QueueError → CycleError
  delay_overflow : CycleError

abbrev pub raising :
    Result QueueError RetryOutcome × Queues → Result CycleError RetryOutcome × Queues
raising (ok outcome, s) = (ok outcome, s)
raising (err e, s) = (err (refused e), s)

-- `new_id` and `now` are what `new_id()` and `now_utc()` return; `report_error` is as in `evaluate`.
unfoldable pub handle_failed_cycle :
    {F : Type 0} (ops : FloatOps F) (p : RetryPolicy F) (context : RetryContext F)
    (new_id now : Text) (original_item : WorkItem) (report_error : Option Text) (attempt : ℕ)
    (retry_priority : WorkItemPriority)
    → Queues
    → Result CycleError RetryOutcome × Queues
handle_failed_cycle ops p context new_id now original_item report_error attempt retry_priority s =
    elim (evaluate ops p context report_error attempt) [
      | none ↦ (err delay_overflow, s)
      | some decision ↦ raising (act_on new_id now decision original_item attempt retry_priority s)
    ]

abbrev replay :
    (new_id now : Text)
    → WorkItemPriority
    → Queues
    → Option DeadLetterEntry × DeadLetterQueue
    → Option (Result QueueError RetryOutcome) × Queues
replay new_id now retry_priority s (none, d) = (none, record s { dead_letters = d })
replay new_id now retry_priority s (some entry, d) =
    let (result, after) =
      enqueue_retry (record s { dead_letters = d })
        (retry_item new_id now entry.item.cycle_id (codes "replay") retry_priority) entry.attempt
        (codes "replayed from DLQ: " ++ entry.reason) in
    (some result, after)

unfoldable pub handle_replay_from_dead_letter :
    (new_id now : Text)
    → (retry_priority : WorkItemPriority) → Queues
    → Option (Result QueueError RetryOutcome) × Queues
handle_replay_from_dead_letter new_id now retry_priority s =
    replay new_id now retry_priority s (DeadLetter.pop_oldest s.dead_letters)
