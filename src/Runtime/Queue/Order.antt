-- ===== src/Runtime/Queue/Order.antt =====
-- The queue as a client sees it: one list of items for each priority.
use signalproject.Prelude.{
  Bool, ◌&&◌, ℕ, ◌+◌, ◌<◌, ◌≡◌, ◌≢◌, true, false, not, arith, some, List, [], ◌∷◌, ◌++◌, length,
  contains, length-append, ap, ◌==◌, Bool-cases, Option-cases, inl, inr, refl, ◌∙◌, subst, ok, err,
  if◌then◌else◌, nat_eq, All,
}
use signalproject.Prelude.Text.{Text}
use signalproject.Prelude.Dict.{insert, keys}
use signalproject.Runtime.Queue.Items.{
  WorkItem, WorkItemStatus, WorkItemStatus-eq, status_beq_iff, WorkItemPriority,
  WorkItemPriority-eq, level, priority_beq_iff, transition, value_error, queue_full, queue_empty,
}
use signalproject.Runtime.Queue.{
  WorkQueue, Buckets, size, at_capacity, bucket, enqueue, sorted, pop_first, dequeue, start_time,
}
use signalproject.Runtime.Queue.Sorting.{sorted-IsSorted, contains-sorted}
use signalproject.Runtime.Queue.Popping.{
  bucket-insert, bucket-absent, total-insert, total-zero, pop_first-none, pop_first-some,
}
use signalproject.Runtime.Queue.Invariant.{IsValid, IsQueuedAt}

-- The pending items of one priority, in the order in which they are to run.
abbrev pub view : WorkQueue → WorkItemPriority → List WorkItem
view q p = bucket q.buckets p

-- `enqueue` on every branch.
pub enqueue_lem :
    (q : WorkQueue) (item : WorkItem)
    → (item.status ≢ WorkItemStatus.pending
        → enqueue q item ≡ (err (value_error "Only PENDING items can be enqueued"), q))
      × (item.status ≡ WorkItemStatus.pending
          → at_capacity q.max_size (size q) ≡ true
          → enqueue q item ≡ (err queue_full, q))
      × (item.status ≡ WorkItemStatus.pending
          → at_capacity q.max_size (size q) ≡ false
          → ((enqueue q item).0 ≡ ok tt)
            × ((p : WorkItemPriority)
                → view (enqueue q item).1 p
                  ≡ (if item.priority == p then view q p ++ item ∷ [] else view q p))
            × (size (enqueue q item).1 ≡ size q + 1))
unfolding enqueue
enqueue_lem q item = (
  λ h. elim (Bool-cases (item.status == WorkItemStatus.pending)) [
    | inl e ↦ absurd (h ((status_beq_iff _ _).0 e))
    | inr e ↦ rw e
  ],
  λ h full. rw ((status_beq_iff _ _).1 h, full),
  λ h room.
      rw ((status_beq_iff _ _).1 h, room)
        (
          refl,
          λ p. appended p,
          omega (
            arith,
            total-insert q.buckets item.priority grown,
            length-append (bucket q.buckets item.priority) (item ∷ []),
          ),
        ),
)
  where
    grown : List WorkItem
    grown = bucket q.buckets item.priority ++ item ∷ []

    appended :
        (p : WorkItemPriority)
        → bucket (insert item.priority grown q.buckets) p
          ≡ (if item.priority == p then bucket q.buckets p ++ item ∷ [] else bucket q.buckets p)
    appended p = elim (Bool-cases (item.priority == p)) [
      | inl e ↦
          rw (bucket-insert, e)
            (ap (λ (r : WorkItemPriority). bucket q.buckets r ++ item ∷ [])
              ((priority_beq_iff _ _).0 e))
      | inr e ↦ rw (bucket-insert, e)
    ]

-- What `enqueue` accepts: a pending item, while the queue has room.
abbrev pub accepts : WorkQueue → WorkItem → Bool
accepts q item = (item.status == WorkItemStatus.pending) && not (at_capacity q.max_size (size q))

-- An item that `enqueue` accepts goes to the end of its priority's list; the other lists stay, and the
-- size grows by one.
pub enqueue_accepted :
    (q : WorkQueue) (item : WorkItem)
    → accepts q item ≡ true
    → ((enqueue q item).0 ≡ ok tt)
      × ((p : WorkItemPriority)
          → view (enqueue q item).1 p
            ≡ (if item.priority == p then view q p ++ item ∷ [] else view q p))
      × (size (enqueue q item).1 ≡ size q + 1)
enqueue_accepted q item h =
    (enqueue_lem q item).2 ((status_beq_iff _ _).0 (ground arith)) (ground arith)

-- `enqueue` leaves the queue as it was when it raises: for an item that is not pending the ValueError,
-- for a pending one on a full queue the QueueFullError.
pub enqueue_refused :
    (q : WorkQueue) (item : WorkItem)
    → accepts q item ≡ false
    → enqueue q item ≡ (
        if item.status == WorkItemStatus.pending
        then (err queue_full, q)
        else (err (value_error "Only PENDING items can be enqueued"), q))
unfolding enqueue
enqueue_refused q item h = ground arith

-- The priorities that run before one.
abbrev pub before : WorkItemPriority → List WorkItemPriority
before WorkItemPriority.highest = []
before WorkItemPriority.high = WorkItemPriority.highest ∷ []
before WorkItemPriority.normal = WorkItemPriority.highest ∷ WorkItemPriority.high ∷ []
before WorkItemPriority.low =
    WorkItemPriority.highest ∷ WorkItemPriority.high ∷ WorkItemPriority.normal ∷ []
before WorkItemPriority.lowest =
    WorkItemPriority.highest ∷ WorkItemPriority.high ∷ WorkItemPriority.normal
    ∷ WorkItemPriority.low ∷ []

All-before :
    (P : WorkItemPriority → Type 0) (p : WorkItemPriority)
    → ((r : WorkItemPriority) → level r < level p → P r)
    → All P (before p)
All-before P WorkItemPriority.highest h = tt
All-before P WorkItemPriority.high h = (h WorkItemPriority.highest (omega arith), tt)
All-before P WorkItemPriority.normal h =
    (h WorkItemPriority.highest (omega arith), (h WorkItemPriority.high (omega arith), tt))
All-before P WorkItemPriority.low h = (
  h WorkItemPriority.highest (omega arith),
  (h WorkItemPriority.high (omega arith), (h WorkItemPriority.normal (omega arith), tt)),
)
All-before P WorkItemPriority.lowest h = (
  h WorkItemPriority.highest (omega arith),
  (
    h WorkItemPriority.high (omega arith),
    (h WorkItemPriority.normal (omega arith), (h WorkItemPriority.low (omega arith), tt)),
  ),
)

-- The item as `dequeue` returns it.
abbrev pub started : (now : Text) → WorkItem → WorkItem
started now item = record item {
  status = WorkItemStatus.running;
  started_at = some (start_time now item.started_at);
}

transition-pending :
    (item : WorkItem)
    → item.status ≡ WorkItemStatus.pending
    → transition item WorkItemStatus.running ≡ ok (record item { status = WorkItemStatus.running })
unfolding transition
transition-pending item h = ground arith

-- Every priority's list is empty before the first that is not, for keys in and out of the dict.
first-everywhere :
    (b : Buckets) (n : ℕ)
    → ((x : WorkItemPriority) → contains (sorted (keys b)) x ≡ true → level x < n → bucket b x ≡ [])
    → (x : WorkItemPriority) → level x < n
    → bucket b x ≡ []
first-everywhere b n h x l = elim (Bool-cases (contains (keys b) x)) [
  | inl e ↦ h x (contains-sorted (keys b) x ∙ e) l
  | inr e ↦ bucket-absent b x e
]

module _ (now : Text) (q : WorkQueue) (v : IsValid q) where
  -- On a queue with nothing pending `dequeue` raises and changes nothing.
  pub dequeue_empty : size q ≡ 0 → dequeue now q ≡ (err queue_empty, q)
  unfolding dequeue
  dequeue_empty h = rw h

  -- On a valid queue that is not empty `dequeue` returns the oldest item of the highest priority
  -- that has one, running and with a start time; it takes that item from its list, and leaves the other
  -- lists as they were.
  pub dequeue_lem :
      size q ≢ 0
      → (p : WorkItemPriority) × (item : WorkItem) × (rest : List WorkItem) × (view q p
          ≡ item ∷ rest)
        × (All (λ (r : WorkItemPriority). view q r ≡ []) (before p))
        × ((dequeue now q).0 ≡ ok (started now item))
        × ((r : WorkItemPriority) → view (dequeue now q).1 r ≡ (if p == r then rest else view q r))
        × (size (dequeue now q).1 + 1 ≡ size q)
  unfolding dequeue
  dequeue_lem some_left = elim (Option-cases (pop_first (sorted (keys q.buckets)) q.buckets)) [
    | inl nothing ↦ absurd (
        some_left (
          total-zero q.buckets v.distinct λ x. elim (Bool-cases (contains (keys q.buckets) x)) [
            | inl e ↦
                pop_first-none (sorted (keys q.buckets)) q.buckets nothing x
                  (contains-sorted (keys q.buckets) x ∙ e)
            | inr e ↦ bucket-absent q.buckets x e
          ]))
    | inr ((item, left), popped) ↦
        let ps = sorted (keys q.buckets) in
        let found = pop_first-some ps q.buckets (sorted-IsSorted (keys q.buckets)) popped in
        let nonzero : nat_eq (size q) 0 ≡ false = ground (arith, some_left) in
        let pending : item.status ≡ WorkItemStatus.pending =
          (subst (All (IsQueuedAt found.from)) found.found (v.queued found.from)).0.0 in
        (
          found.from,
          item,
          found.rest,
          found.found,
          All-before (λ (r : WorkItemPriority). view q r ≡ []) found.from
              (first-everywhere q.buckets (level found.from) found.first),
          rw (nonzero, popped, transition-pending item pending),
          λ r. rw (nonzero, popped, found.left) (bucket-insert q.buckets found.from found.rest r),
          rw (nonzero, popped, found.left)
              (omega (arith, total-insert q.buckets found.from found.rest, ap length found.found)),
        )
  ]

-- `dequeue` leaves the logs of ended items alone.
pub logs-dequeue :
    (now : Text) (q : WorkQueue)
    → ((dequeue now q).1.completed ≡ q.completed) × ((dequeue now q).1.failed ≡ q.failed)
unfolding dequeue
logs-dequeue now q = ground arith
