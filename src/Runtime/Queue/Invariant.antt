-- ===== src/Runtime/Queue/Invariant.antt =====
-- What every method of the queue keeps.
use signalproject.Prelude.{
  ap, Result-cases, ok-injective, ℕ, zero, suc, ◌≤◌, ◌≡◌, true, false, arith, Option, none, some,
  List, [], ◌∷◌, ◌++◌, length, All, All-append, length-append, all_distinct, ◌==◌, Bool-cases,
  Option-cases, inl, inr, refl, subst, ok, if◌then◌else◌, nat_eq,
}
use signalproject.Prelude.Text.{Text, text_eq}
use signalproject.Prelude.Dict.{lookup, insert, keys, all_distinct-keys-insert}
use signalproject.Runtime.Queue.Items.{
  WorkItem, WorkItemStatus, WorkItemStatus-eq, status_beq_iff, WorkItemPriority,
  WorkItemPriority-eq, priority_beq_iff, transition,
}
use signalproject.Runtime.Queue.{
  WorkQueue, Buckets, total, size, at_capacity, bucket, bucket_of, enqueue, sorted, pop_first,
  dequeue, mark_completed, mark_failed, remove_id, cancel, clear, init,
}
use signalproject.Runtime.Queue.Sorting.{sorted-IsSorted}
use signalproject.Runtime.Queue.Popping.{bucket-insert, total-insert, Popped, pop_first-some}

abbrev pub IsWithin : Option ℕ → ℕ → Type 0
IsWithin none n = Unit
IsWithin (some m) n = n ≤ m

abbrev pub IsQueuedAt : WorkItemPriority → WorkItem → Type 0
IsQueuedAt p item = (item.status ≡ WorkItemStatus.pending) × (item.priority ≡ p)

-- The queue is within its capacity, each priority has one bucket, and a bucket holds pending items of
-- its priority.
pub record IsValid (q : WorkQueue) : Type 0 where
  pub within : IsWithin q.max_size (size q)
  pub distinct : all_distinct (keys q.buckets) ≡ true
  pub queued : (p : WorkItemPriority) → All (IsQueuedAt p) (bucket q.buckets p)

pub data Op : Type 0 where
  enqueuing : WorkItem → Op
  dequeuing : (now : Text) → Op
  completing : WorkItem → (summary : Option Text) → Op
  failing : WorkItem → (error : Text) → Op
  cancelling : WorkItem → Op
  clearing : Op

-- The queue after a method, whether it returned or raised.
abbrev pub after : Op → WorkQueue → WorkQueue
after (enqueuing item) q = (enqueue q item).1
after (dequeuing now) q = (dequeue now q).1
after (completing item summary) q = (mark_completed q item summary).1
after (failing item error) q = (mark_failed q item error).1
after (cancelling item) q = (cancel q item).1
after clearing q = clear q

abbrev pub after_all : List Op → WorkQueue → WorkQueue
after_all [] q = q
after_all (op ∷ ops) q = after_all ops (after op q)

-- A write to one bucket keeps the invariant, if the bucket fits.
insert-IsValid :
    (q : WorkQueue) (p : WorkItemPriority) (items : List WorkItem)
    → IsValid q
    → All (IsQueuedAt p) items
    → IsWithin q.max_size (total (insert p items q.buckets))
    → IsValid (record q { buckets = insert p items q.buckets })
insert-IsValid q p items v all fits = record {
  within = fits;
  distinct = all_distinct-keys-insert p items q.buckets v.distinct;
  queued = λ x. rw bucket-insert (choose x);
}
  where
    choose :
        (x : WorkItemPriority) → All (IsQueuedAt x) (if p == x then items else bucket q.buckets x)
    choose x = elim (Bool-cases (p == x)) [
      | inl e ↦ rw e (
          subst (λ (y : WorkItemPriority). All (IsQueuedAt y) items) ((priority_beq_iff p x).0 e)
            all)
      | inr e ↦ rw e (v.queued x)
    ]

IsWithin-le : (m : Option ℕ) (a b : ℕ) → a ≤ b → IsWithin m b → IsWithin m a
IsWithin-le none a b h k = tt
IsWithin-le (some m) a b h k = omega arith

IsWithin-suc : (m : Option ℕ) (n : ℕ) → at_capacity m n ≡ false → IsWithin m (suc n)
IsWithin-suc none n h = tt
IsWithin-suc (some m) n h = ground arith

-- The invariant reads the capacity and the buckets alone.
pub IsValid-same :
    (q r : WorkQueue) → r.max_size ≡ q.max_size → r.buckets ≡ q.buckets → IsValid q → IsValid r
IsValid-same q r m b v = record {
  within = rw (m, b) v.within;
  distinct = rw b v.distinct;
  queued = rw b v.queued;
}

enqueue-IsValid : (q : WorkQueue) (item : WorkItem) → IsValid q → IsValid (enqueue q item).1
unfolding enqueue
enqueue-IsValid q item v = elim (Bool-cases (item.status == WorkItemStatus.pending)) [
  | inr e ↦ rw e v
  | inl e ↦ elim (Bool-cases (at_capacity q.max_size (size q))) [
    | inl f ↦ rw (e, f) v
    | inr f ↦
        let p = item.priority in
        let grown = bucket q.buckets p ++ item ∷ [] in
        let all =
          All-append (IsQueuedAt p) (bucket q.buckets p) (item ∷ []) (v.queued p)
            (((status_beq_iff item.status WorkItemStatus.pending).0 e, refl), tt) in
        let fits =
          IsWithin-le q.max_size (total (insert p grown q.buckets)) (suc (size q))
            (omega (
              arith,
              total-insert q.buckets p grown,
              length-append (bucket q.buckets p) (item ∷ []),
            ))
            (IsWithin-suc q.max_size (size q) f) in
        rw (e, f)
          (IsValid-same (record q { buckets = insert p grown q.buckets }) _ refl refl
            (insert-IsValid q p grown v all fits))
  ]
]

Popped-IsValid :
    (q : WorkQueue) {ps : List WorkItemPriority} {item : WorkItem} {left : Buckets}
    → IsValid q
    → Popped ps q.buckets item left
    → IsValid (record q { buckets = left })
Popped-IsValid q v p =
    let all = subst (All (IsQueuedAt p.from)) p.found (v.queued p.from) in
    rw p.left (
      insert-IsValid q p.from p.rest v all.1 (
        IsWithin-le q.max_size _ (size q)
          (omega (arith, total-insert q.buckets p.from p.rest, ap length p.found)) v.within))

dequeue-IsValid : (q : WorkQueue) (now : Text) → IsValid q → IsValid (dequeue now q).1
unfolding dequeue
dequeue-IsValid q now v = elim (Bool-cases (nat_eq (size q) 0)) [
  | inl e ↦ rw e v
  | inr e ↦ elim (Option-cases (pop_first (sorted (keys q.buckets)) q.buckets)) [
    | inl none_left ↦ rw (e, none_left) v
    | inr ((item, left), popped) ↦
        rw (e, popped)
          (Popped-IsValid q v (
            pop_first-some (sorted (keys q.buckets)) q.buckets (sorted-IsSorted (keys q.buckets))
              popped))
  ]
]

remove_id-All :
    (P : WorkItem → Type 0) (id : Text) (items : List WorkItem)
    → All P items
    → All P (remove_id id items)
unfolding remove_id
remove_id-All P id [] h = tt
remove_id-All P id (item ∷ rest) h = elim (Bool-cases (text_eq item.id id)) [
  | inl e ↦ rw e h.1
  | inr e ↦ rw e (h.0, remove_id-All P id rest h.1)
]

pub length-remove_id :
    (id : Text) (items : List WorkItem) → length (remove_id id items) ≤ length items
unfolding remove_id
length-remove_id id [] = omega arith
length-remove_id id (item ∷ rest) = ground (arith, length-remove_id id rest)

cancel-IsValid : (q : WorkQueue) (item : WorkItem) → IsValid q → IsValid (cancel q item).1
unfolding cancel bucket
cancel-IsValid q item v = elim (Result-cases (transition item WorkItemStatus.cancelled)) [
  | inr (e, raised) ↦ rw raised v
  | inl (t, moved) ↦ elim (Option-cases (lookup item.priority q.buckets)) [
    | inl absent ↦ rw (moved, absent) (IsValid-same q _ refl refl v)
    | inr (found, there) ↦
        let p = item.priority in
        let same : bucket q.buckets p ≡ found = ap bucket_of there in
        let all =
          remove_id-All (IsQueuedAt p) item.id found
            (subst (All (IsQueuedAt p)) same (v.queued p)) in
        let fits =
          IsWithin-le q.max_size (total (insert p (remove_id item.id found) q.buckets)) (size q)
            (omega (
              arith,
              total-insert q.buckets p (remove_id item.id found),
              ap length same,
              length-remove_id item.id found,
            ))
            v.within in
        rw (moved, there)
          (IsValid-same (record q { buckets = insert p (remove_id item.id found) q.buckets }) _ refl
            refl (insert-IsValid q p (remove_id item.id found) v all fits))
  ]
]

mark-IsValid :
    (q : WorkQueue) (item : WorkItem) (summary : Option Text) (error : Text)
    → IsValid q
    → IsValid (mark_completed q item summary).1 × IsValid (mark_failed q item error).1
unfolding mark_completed mark_failed
mark-IsValid q item summary error v = (
  elim (Result-cases (transition item WorkItemStatus.completed)) [
    | inl (t, moved) ↦ rw moved (IsValid-same q _ refl refl v)
    | inr (e, raised) ↦ rw raised v
  ],
  elim (Result-cases (transition item WorkItemStatus.failed)) [
    | inl (t, moved) ↦ rw moved (IsValid-same q _ refl refl v)
    | inr (e, raised) ↦ rw raised v
  ],
)

clear-IsValid : (q : WorkQueue) → IsValid (clear q)
unfolding clear bucket lookup
clear-IsValid q = record { within = IsWithin-zero q.max_size; distinct = refl; queued = λ p. tt }
  where
    IsWithin-zero : (m : Option ℕ) → IsWithin m 0
    IsWithin-zero none = tt
    IsWithin-zero (some m) = omega arith

pub after-IsValid : (op : Op) (q : WorkQueue) → IsValid q → IsValid (after op q)
after-IsValid (enqueuing item) q v = enqueue-IsValid q item v
after-IsValid (dequeuing now) q v = dequeue-IsValid q now v
after-IsValid (completing item summary) q v = (mark-IsValid q item summary [] v).0
after-IsValid (failing item error) q v = (mark-IsValid q item none error v).1
after-IsValid (cancelling item) q v = cancel-IsValid q item v
after-IsValid clearing q v = clear-IsValid q

after_all-IsValid : (ops : List Op) (q : WorkQueue) → IsValid q → IsValid (after_all ops q)
after_all-IsValid [] q v = v
after_all-IsValid (op ∷ ops) q v = after_all-IsValid ops (after op q) (after-IsValid op q v)

-- A queue that was created and then used by any calls, failing ones included, is within its capacity,
-- has one bucket for each priority, and holds pending items of its priority in each bucket.
pub reachable-IsValid :
    (max_size : Option ℕ) (ops : List Op) {q : WorkQueue}
    → init max_size ≡ ok q
    → IsValid (after_all ops q)
unfolding init bucket lookup
reachable-IsValid none ops {q} h =
    after_all-IsValid ops q
      (subst IsValid (ok-injective h) (record { within = tt; distinct = refl; queued = λ p. tt }))
reachable-IsValid (some zero) ops h = cc
reachable-IsValid (some (suc n)) ops {q} h = after_all-IsValid ops q (
    subst IsValid (ok-injective h)
      (record { within = omega arith; distinct = refl; queued = λ p. tt }))
