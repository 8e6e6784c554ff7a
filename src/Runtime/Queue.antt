-- ===== src/Runtime/Queue.antt =====
-- src/runtime/queue.py: work items and the bounded priority queue. A method returns its result, or
-- what it raises, beside the queue after it: what was written before an exception stays written.
pub mod Items
pub mod Sorting
pub mod Popping
pub mod Invariant
pub mod Order
use signalproject.Prelude.{
  ℕ, zero, suc, ◌+◌, Bool, true, false, not, Option, none, some, List, [], ◌∷◌, ◌++◌, String, leb,
  nat_eq, ◌==◌, length, Result, ok, err, if◌then◌else◌,
}
use signalproject.Prelude.Text.{Text, text_eq}
use signalproject.Prelude.Dict.{Dict, lookup, insert, keys}
use signalproject.Persistence.Store.{Store}
use Items.{
  WorkItem, WorkItemStatus, WorkItemStatus-eq, WorkItemPriority, WorkItemPriority-eq, level,
  QueueError, value_error, queue_full, queue_empty, transition,
}

abbrev pub Buckets : Type 0
Buckets = Dict WorkItemPriority (List WorkItem)

pub record WorkQueue : Type 0 where
  pub max_size : Option ℕ
  pub buckets : Buckets
  pub completed : List WorkItem
  pub failed : List WorkItem
  pub cancelled : List WorkItem
  pub seq : ℕ
  pub store : Option Store

pub record QueueStats : Type 0 where
  pub pending : ℕ
  pub running : ℕ
  pub completed : ℕ
  pub failed : ℕ
  pub cancelled : ℕ
  pub capacity_used : ℕ
  pub capacity_max : Option ℕ

abbrev fresh : Option ℕ → WorkQueue
fresh max_size = record {
  max_size = max_size;
  buckets = [];
  completed = [];
  failed = [];
  cancelled = [];
  seq = 0;
  store = none;
}

-- WorkQueue.__init__; a negative size raises as 0 does.
unfoldable pub init : (max_size : Option ℕ) → Result QueueError WorkQueue
init none = ok (fresh none)
init (some zero) = err (value_error "max_size must be positive or None")
init (some (suc n)) = ok (fresh (some (suc n)))

-- `sum(len(b) for b in self._buckets.values())`
abbrev pub total : Buckets → ℕ
total [] = 0
total ((p, bucket) ∷ rest) = length bucket + total rest

abbrev pub size : WorkQueue → ℕ
size q = total q.buckets

unfoldable pub bind_store : WorkQueue → Store → WorkQueue
bind_store q store = record q { store = some store }

-- `self._max_size is not None and self.size >= self._max_size`
abbrev pub at_capacity : Option ℕ → ℕ → Bool
at_capacity none n = false
at_capacity (some m) n = leb m n

-- `self._buckets.setdefault(priority, deque())`, or the bucket that a lookup finds
abbrev pub bucket_of : Option (List WorkItem) → List WorkItem
bucket_of none = []
bucket_of (some bucket) = bucket

unfoldable pub bucket : Buckets → WorkItemPriority → List WorkItem
unfolding lookup
bucket buckets p = bucket_of (lookup p buckets)

unfoldable pub enqueue : WorkQueue → WorkItem → Result QueueError (Unit {0}) × WorkQueue
unfolding bucket insert
enqueue q item =
    if not (item.status == WorkItemStatus.pending)
    then (err (value_error "Only PENDING items can be enqueued"), q)
    else if at_capacity q.max_size (size q)
    then (err queue_full, q)
    else (
      ok tt,
      record q {
        buckets = insert item.priority (bucket q.buckets item.priority ++ item ∷ []) q.buckets;
        seq = q.seq + 1;
      },
    )

-- `sorted(self._buckets.keys(), key=lambda p: int(p))`
pub insert_sorted : WorkItemPriority → List WorkItemPriority → List WorkItemPriority
insert_sorted p [] = p ∷ []
insert_sorted p (r ∷ rs) = if leb (level p) (level r) then p ∷ r ∷ rs else r ∷ insert_sorted p rs

unfoldable pub sorted : List WorkItemPriority → List WorkItemPriority
unfolding insert_sorted
sorted [] = []
sorted (p ∷ ps) = insert_sorted p (sorted ps)

-- The body of the loop of `dequeue`: the head of a bucket that is not empty, or the later rounds.
abbrev pub pop_bucket :
    Buckets
    → WorkItemPriority
    → List WorkItem
    → Option (WorkItem × Buckets)
    → Option (WorkItem × Buckets)
pop_bucket buckets p [] later = later
pop_bucket buckets p (item ∷ rest) later = some (item, insert p rest buckets)

unfoldable pub pop_first : List WorkItemPriority → Buckets → Option (WorkItem × Buckets)
unfolding bucket insert
pop_first [] buckets = none
pop_first (p ∷ ps) buckets = pop_bucket buckets p (bucket buckets p) (pop_first ps buckets)

-- `if started.started_at is None: replace(started, started_at=now_utc())`
abbrev pub start_time : (now : Text) → Option Text → Text
start_time now none = now
start_time now (some t) = t

abbrev pub stamp_started : (now : Text) → WorkItem → WorkItem
stamp_started now item = record item { started_at = some (start_time now item.started_at) }

abbrev stamped : (now : Text) → Result QueueError WorkItem → Result QueueError WorkItem
stamped now (ok item) = ok (stamp_started now item)
stamped now (err e) = err e

abbrev pub dequeue_from :
    (now : Text) → WorkQueue → Option (WorkItem × Buckets) → Result QueueError WorkItem × WorkQueue
dequeue_from now q none = (err queue_empty, q)
dequeue_from now q (some (item, rest)) =
    (stamped now (transition item WorkItemStatus.running), record q { buckets = rest })

unfoldable pub dequeue : (now : Text) → WorkQueue → Result QueueError WorkItem × WorkQueue
unfolding pop_first sorted
dequeue now q =
    if nat_eq (size q) 0
    then (err queue_empty, q)
    else dequeue_from now q (pop_first (sorted (keys q.buckets)) q.buckets)

abbrev peek_bucket : List WorkItem → Option WorkItem → Option WorkItem
peek_bucket [] later = later
peek_bucket (item ∷ rest) later = some item

unfoldable pub peek_first : List WorkItemPriority → Buckets → Option WorkItem
unfolding bucket
peek_first [] buckets = none
peek_first (p ∷ ps) buckets = peek_bucket (bucket buckets p) (peek_first ps buckets)

unfoldable pub peek : WorkQueue → Option WorkItem
unfolding peek_first sorted
peek q = peek_first (sorted (keys q.buckets)) q.buckets

abbrev with_summary : Option Text → WorkItem → WorkItem
with_summary none item = item
with_summary (some summary) item = record item { result_summary = some summary }

-- A transition that raises leaves the queue alone.
abbrev and_record :
    Result QueueError WorkItem
    → (WorkItem → WorkItem × WorkQueue)
    → WorkQueue
    → Result QueueError WorkItem × WorkQueue
and_record (ok item) f q = let (item', q') = f item in (ok item', q')
and_record (err e) f q = (err e, q)

unfoldable pub mark_completed :
    WorkQueue → WorkItem → (result_summary : Option Text) → Result QueueError WorkItem × WorkQueue
mark_completed q item result_summary =
    and_record (transition item WorkItemStatus.completed)
      (λ t.
        let completed = with_summary result_summary t in
        (completed, record q { completed = q.completed ++ completed ∷ [] }))
      q

unfoldable pub mark_failed :
    WorkQueue → WorkItem → (error : Text) → Result QueueError WorkItem × WorkQueue
mark_failed q item error =
    and_record (transition item WorkItemStatus.failed)
      (λ t.
        let failed = record t { error = some error } in
        (failed, record q { failed = q.failed ++ failed ∷ [] }))
      q

-- The loop of `cancel`: deletes the first item with the id.
unfoldable pub remove_id : Text → List WorkItem → List WorkItem
remove_id id [] = []
remove_id id (item ∷ rest) = if text_eq item.id id then rest else item ∷ remove_id id rest

abbrev without_id : WorkItem → Buckets → Option (List WorkItem) → Buckets
without_id item buckets none = buckets
without_id item buckets (some found) = insert item.priority (remove_id item.id found) buckets

unfoldable pub cancel : WorkQueue → WorkItem → Result QueueError WorkItem × WorkQueue
unfolding remove_id lookup insert
cancel q item =
    and_record (transition item WorkItemStatus.cancelled)
      (λ t. (
        t,
        record q {
          cancelled = q.cancelled ++ t ∷ [];
          buckets = without_id item q.buckets (lookup item.priority q.buckets);
        },
      ))
      q

unfoldable pub stats : WorkQueue → QueueStats
stats q = record {
  pending = size q;
  running = 0;
  completed = length q.completed;
  failed = length q.failed;
  cancelled = length q.cancelled;
  capacity_used = size q;
  capacity_max = q.max_size;
}

unfoldable pub clear : WorkQueue → WorkQueue
clear q = record q { buckets = []; completed = []; failed = []; cancelled = []; seq = 0 }
