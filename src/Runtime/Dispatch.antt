-- ===== src/Runtime/Dispatch.antt =====
-- src/runtime/scheduler.py: DefaultScheduler's `schedule` and `notify`, and CycleDispatcher. The
-- PipelineExecutor is a parameter: what a run of a cycle returns or raises.
pub mod Laws
use signalproject.Prelude.{
  ℕ, zero, suc, ◌+◌, Bool, true, false, Option, none, some, List, [], ◌∷◌, ◌++◌, String, leb,
  Result, ok, err, if◌then◌else◌,
}
use signalproject.Prelude.Text.{Text, Text-eq, codes, decimal}
use signalproject.Prelude.Dict.{Dict, lookup}
use signalproject.Runtime.Queue.{WorkQueue, enqueue, dequeue, mark_completed, mark_failed}
use signalproject.Runtime.Queue.Items.{
  WorkItem, WorkItemStatus, WorkItemPriority, QueueError, queue_empty, queue_full,
  invalid_queue_transition, value_error,
}

-- DefaultScheduler._make_item, with what `new_id()` and `now_utc()` return
abbrev pub make_item : (id cycle_id now : Text) → WorkItemPriority → (trigger : Text) → WorkItem
make_item id cycle_id now priority trigger = record {
  id = id;
  cycle_id = cycle_id;
  priority = priority;
  status = WorkItemStatus.pending;
  trigger = trigger;
  enqueued_at = now;
  started_at = none;
  completed_at = none;
  result_summary = none;
  error = none;
}

pub record Scheduler : Type 0 where
  pub queue : WorkQueue
  pub burst_priority : WorkItemPriority
  pub scheduled_priority : WorkItemPriority
  pub manual_priority : WorkItemPriority
  pub burst_severity_priority : Dict Text WorkItemPriority

-- The field's default
abbrev pub default_severity_priority : Dict Text WorkItemPriority
default_severity_priority =
    (codes "critical", WorkItemPriority.highest)
    ∷ (codes "warning", WorkItemPriority.high)
    ∷ (codes "info", WorkItemPriority.normal)
    ∷ []

abbrev enqueued : Scheduler → WorkItem → Result QueueError WorkItem × Scheduler
enqueued s item =
    let (added, q) = enqueue s.queue item in (returned item added, record s { queue = q })
  where
    returned : WorkItem → Result QueueError (Unit {0}) → Result QueueError WorkItem
    returned item (ok done) = ok item
    returned item (err e) = err e

unfoldable pub schedule :
    (id cycle_id now : Text)
    → Scheduler
    → (trigger_name : Text) → Result QueueError WorkItem × Scheduler
schedule id cycle_id now s trigger_name =
    enqueued s (make_item id cycle_id now s.manual_priority trigger_name)

abbrev priority_or : WorkItemPriority → Option WorkItemPriority → WorkItemPriority
priority_or d none = d
priority_or d (some p) = p

unfoldable pub notify :
    (id cycle_id now : Text)
    → Scheduler
    → (event_id severity : Text) → Result QueueError WorkItem × Scheduler
unfolding lookup
notify id cycle_id now s event_id severity =
    enqueued s
      (record (make_item id cycle_id now
        (priority_or s.burst_priority (lookup severity s.burst_severity_priority))
        (codes "burst")) { result_summary = some (codes "burst:" ++ event_id) })

-- What `executor.run` does with a cycle: the counts of its result, or the text of its exception.
pub data Execution : Type 0 where
  finished : (signals research theses : ℕ) → Execution
  raised : (error : Text) → Execution

abbrev pub Executor : Type 0
Executor = (cycle_id : Text) → Execution

-- What `dispatch_one` returns; `aborted` is an exception of the queue that it lets through.
pub data Dispatched : Type 0 where
  idle : Dispatched
  dispatched : WorkItem → Dispatched
  aborted : QueueError → Dispatched

abbrev marked : Result QueueError WorkItem × WorkQueue → Dispatched × WorkQueue
marked (ok item, q) = (dispatched item, q)
marked (err e, q) = (aborted e, q)

unfoldable pub summary : (signals research theses : ℕ) → Text
unfolding decimal
summary signals research theses =
    codes "signals="
    ++ (decimal signals
        ++ (codes ",research=" ++ (decimal research ++ (codes ",theses=" ++ decimal theses))))

abbrev record_outcome : WorkQueue → WorkItem → Execution → Dispatched × WorkQueue
record_outcome q item (raised error) = marked (mark_failed q item error)
record_outcome q item (finished signals research theses) =
    marked (mark_completed q item (some (summary signals research theses)))

-- `except QueueEmptyError: return None`
abbrev after_dequeue : Executor → Result QueueError WorkItem × WorkQueue → Dispatched × WorkQueue
after_dequeue run (ok item, q) = record_outcome q item (run item.cycle_id)
after_dequeue run (err queue_empty, q) = (idle, q)
after_dequeue run (err e, q) = (aborted e, q)

unfoldable pub dispatch_one : Executor → (now : Text) → WorkQueue → Dispatched × WorkQueue
dispatch_one run now q = after_dequeue run (dequeue now q)

-- The end of `drain`; the loop has fuel.
pub data Drained : Type 0 where
  cycles_run : ℕ → Drained
  stopped : QueueError → Drained
  out_of_fuel : Drained

-- `max_cycles is not None and cycles >= max_cycles`
abbrev pub at_limit : Option ℕ → ℕ → Bool
at_limit none cycles = false
at_limit (some m) cycles = leb m cycles

abbrev drain_step :
    (again : WorkQueue → Drained × WorkQueue)
    → (cycles : ℕ) → Dispatched × WorkQueue
    → Drained × WorkQueue
drain_step again cycles (idle, q) = (cycles_run cycles, q)
drain_step again cycles (dispatched item, q) = again q
drain_step again cycles (aborted e, q) = (stopped e, q)

-- `clock` gives the time of each round.
unfoldable pub drain :
    Executor
    → (clock : ℕ → Text) → (max_cycles : Option ℕ) → (fuel cycles : ℕ) → WorkQueue
    → Drained × WorkQueue
drain run clock max_cycles zero cycles q = (out_of_fuel, q)
drain run clock max_cycles (suc fuel) cycles q =
    let round =
      drain_step (drain run clock max_cycles fuel (cycles + 1)) cycles
        (dispatch_one run (clock cycles) q) in
    if at_limit max_cycles cycles then (cycles_run cycles, q) else round
