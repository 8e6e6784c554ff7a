-- ===== src/Examples/Runtime.antt =====
-- Runs of the theorems on src/runtime.
use signalproject.Prelude.{
  ℕ, ◌+◌, ◌≡◌, ◌⊎◌, ◌≢◌, refl, arith, true, false, none, some, List, [], ◌∷◌, ◌++◌, All, ok, err,
  ltb, leb, if◌then◌else◌, ◌==◌,
}
use signalproject.Prelude.Text.{Text, codes, text_eq, decimal}
use signalproject.Runtime.Queue.{WorkQueue, size, init, enqueue, dequeue}
use signalproject.Runtime.Queue.Items.{
  WorkItem, WorkItemStatus, WorkItemStatus-eq, WorkItemPriority, WorkItemPriority-eq, queue_full,
}
use signalproject.Runtime.Queue.Invariant.{
  IsValid, enqueuing, dequeuing, after_all, reachable-IsValid,
}
use signalproject.Runtime.Queue.Order.{view, before, started, dequeue_lem}
use signalproject.Runtime.DeadLetter.{DeadLetterEntry}
use signalproject.Runtime.Retry.{
  FloatOps, RetryPolicy, RetryPolicyKind, RetryContext, RetryDecision, evaluate,
  compute_exponential_delay,
}
use signalproject.Runtime.Retry.Laws.{is_given_up}
use signalproject.Runtime.Orchestrator.{
  Queues, refused, delay_overflow, retry_item, handle_failed_cycle, handle_replay_from_dead_letter,
}
use signalproject.Runtime.Orchestrator.Laws.{
  IsBuried, IsRetried, failed_cycle_kept, overflow_lost, retry_on_full_queue, replay_with_room,
  replay_on_full_queue,
}
use signalproject.Runtime.Dispatch.{Executor, finished, raised, drain, cycles_run}
use signalproject.Runtime.Dispatch.Laws.{ended, drain_total}

abbrev task : (id : Text) → WorkItemPriority → WorkItem
task id priority = record {
  id = id;
  cycle_id = id;
  priority = priority;
  status = WorkItemStatus.pending;
  trigger = codes "manual";
  enqueued_at = codes "2026-01-01";
  started_at = none;
  completed_at = none;
  result_summary = none;
  error = none;
}

abbrev slow : WorkItem
slow = task (codes "slow") WorkItemPriority.low

abbrev urgent : WorkItem
urgent = task (codes "urgent") WorkItemPriority.highest

abbrev empty_queue : WorkQueue
empty_queue = record {
  max_size = some 2;
  buckets = [];
  completed = [];
  failed = [];
  cancelled = [];
  seq = 0;
  store = none;
}

abbrev loaded : WorkQueue
loaded = record empty_queue {
  buckets = (WorkItemPriority.low, slow ∷ []) ∷ (WorkItemPriority.highest, urgent ∷ []) ∷ [];
  seq = 2;
}

init-two : init (some 2) ≡ ok empty_queue
unfolding init
init-two = refl

loading : after_all (enqueuing slow ∷ enqueuing urgent ∷ enqueuing slow ∷ []) empty_queue ≡ loaded
unfolding enqueue
loading = refl

loaded-IsValid : IsValid loaded
unfolding enqueue
loaded-IsValid =
    reachable-IsValid (some 2) (enqueuing slow ∷ enqueuing urgent ∷ enqueuing slow ∷ []) init-two

reachable-IsValid_example :
    IsValid
      (after_all (enqueuing slow ∷ enqueuing urgent ∷ dequeuing (codes "now") ∷ []) empty_queue)
reachable-IsValid_example =
    reachable-IsValid (some 2) (enqueuing slow ∷ enqueuing urgent ∷ dequeuing (codes "now") ∷ [])
      init-two

loaded_has_items : size loaded ≢ 0
loaded_has_items h = omega arith

dequeue_lem_example :
    (p : WorkItemPriority) × (item : WorkItem) × (rest : List WorkItem) × (view loaded p
      ≡ item ∷ rest)
    × (All (λ (r : WorkItemPriority). view loaded r ≡ []) (before p))
    × ((dequeue (codes "now") loaded).0 ≡ ok (started (codes "now") item))
    × ((r : WorkItemPriority)
        → view (dequeue (codes "now") loaded).1 r ≡ (if p == r then rest else view loaded r))
    × (size (dequeue (codes "now") loaded).1 + 1 ≡ size loaded)
dequeue_lem_example = dequeue_lem (codes "now") loaded loaded-IsValid loaded_has_items

-- The urgent cycle ends, and any other one raises.
abbrev run : Executor
run cycle_id = if text_eq cycle_id (codes "urgent") then finished 1 1 0 else raised (codes "boom")

drain_total_example :
    ((drain run (λ cycles. codes "now") none 3 0 loaded).0 ≡ cycles_run 2)
    × (size (drain run (λ cycles. codes "now") none 3 0 loaded).1 + 2 ≡ size loaded)
    × (ended (drain run (λ cycles. codes "now") none 3 0 loaded).1 ≡ ended loaded + 2)
drain_total_example =
    drain_total run (λ cycles. codes "now") none 3 0 loaded loaded-IsValid (omega arith)

-- Whole seconds in place of floats
abbrev whole : FloatOps ℕ
whole = record {
  of_ℕ = λ n. n;
  ten_thousandth = 0;
  add = λ a b. a + b;
  sub = λ a b. a;
  mul = λ a b. a;
  remainder = λ a b. 0;
  lt = ltb;
  le = leb;
}

abbrev policy : RetryPolicy ℕ
policy = record {
  kind = RetryPolicyKind.exponential;
  max_attempts = 3;
  base_delay_seconds = 30;
  max_delay_seconds = 60;
  jitter = 0;
}

abbrev context : RetryContext ℕ
context = record { is_retryable = true; current_time = 0 }

ltb_irreflexive : (n : ℕ) → ltb n n ≡ false
ltb_irreflexive n = ground arith

abbrev letter : DeadLetterEntry
letter = record {
  item = slow;
  reason = codes "infrastructure failure: boom";
  attempt = 3;
  dead_lettered_at = codes "2026-01-02";
}

abbrev roomy : Queues
roomy = record {
  queue = empty_queue;
  dead_letters = record { entries = letter ∷ []; max_size = some 5 };
}

abbrev crowded : Queues
crowded = record roomy { queue = loaded }

abbrev handled : Queues
handled =
    (handle_failed_cycle whole policy context (codes "w9") (codes "now") slow none 1
      WorkItemPriority.low roomy).1

failed_cycle_kept_example :
    ((is_given_up policy context none 1 ≡ true)
      × IsBuried whole policy context
          (codes "w9")
          (codes "now")
          slow
          none
          1
          WorkItemPriority.low
          roomy
          handled)
    ⊎ ((is_given_up policy context none 1 ≡ false)
        × IsRetried whole policy context
            (codes "w9")
            (codes "now")
            slow
            none
            1
            WorkItemPriority.low
            roomy
            handled)
failed_cycle_kept_example =
    failed_cycle_kept whole policy context (codes "w9") (codes "now") slow none 1
      WorkItemPriority.low roomy (omega arith) refl refl

-- A policy that goes on for long
abbrev patient : RetryPolicy ℕ
patient = record policy { max_attempts = 2000 }

overflow_lost_example :
    handle_failed_cycle whole patient context
      (codes "w9")
      (codes "now")
      slow
      none
      1025
      WorkItemPriority.low
      roomy
    ≡ (err delay_overflow, roomy)
overflow_lost_example =
    overflow_lost whole patient context (codes "w9") (codes "now") slow none 1025
      WorkItemPriority.low roomy (omega arith) refl refl

-- The second attempt of the cycle
abbrev second_attempt : RetryDecision ℕ
second_attempt = record {
  should_retry = true;
  attempt = 2;
  delay_seconds = 30;
  route_to_dead_letter = false;
  reason = codes "exponential backoff retry attempt 2";
  policy_kind = RetryPolicyKind.exponential;
}

retries : evaluate whole policy context none 1 ≡ some second_attempt
unfolding evaluate compute_exponential_delay decimal
retries = refl

retry_on_full_queue_example :
    handle_failed_cycle whole policy context
      (codes "w9")
      (codes "now")
      slow
      none
      1
      WorkItemPriority.low
      crowded
    ≡ (err (refused queue_full), crowded)
retry_on_full_queue_example =
    retry_on_full_queue whole policy context (codes "w9") (codes "now") slow none 1
      WorkItemPriority.low crowded retries refl refl

abbrev replayed : Queues
replayed = (handle_replay_from_dead_letter (codes "w9") (codes "now") WorkItemPriority.low roomy).1

replay_with_room_example :
    (replayed.dead_letters.entries ≡ [])
    × ((r : WorkItemPriority)
        → view replayed.queue r ≡ (
            if WorkItemPriority.low == r
            then view empty_queue r
              ++ retry_item
                  (codes "w9")
                  (codes "now")
                  (codes "slow")
                  (codes "replay")
                  WorkItemPriority.low
                ∷ []
            else view empty_queue r))
replay_with_room_example =
    replay_with_room (codes "w9") (codes "now") WorkItemPriority.low roomy letter [] refl refl

replay_on_full_queue_example :
    handle_replay_from_dead_letter (codes "w9") (codes "now") WorkItemPriority.low crowded ≡ (
      some (err queue_full),
      record crowded { dead_letters = record { entries = []; max_size = some 5 } },
    )
replay_on_full_queue_example =
    replay_on_full_queue (codes "w9") (codes "now") WorkItemPriority.low crowded letter [] refl refl
