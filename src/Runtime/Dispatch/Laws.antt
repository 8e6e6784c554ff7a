-- ===== src/Runtime/Dispatch/Laws.antt =====
-- The dispatcher empties the queue, one cycle for each item.
use signalproject.Prelude.{
  nat_eq_iff, ◌∙◌, ℕ, zero, suc, ◌+◌, ◌-◌, ◌<◌, min, ◌≡◌, ◌≢◌, true, false, arith, Option, none,
  some, length, length-append, ok, Bool-cases, inl, inr, refl, ap, nat_eq,
}
use signalproject.Prelude.Text.{Text}
use signalproject.Runtime.Queue.{WorkQueue, size, dequeue, mark_completed, mark_failed}
use signalproject.Runtime.Queue.Items.{WorkItem, WorkItemStatus, transition}
use signalproject.Runtime.Queue.Invariant.{IsValid, dequeuing, after-IsValid, IsValid-same}
use signalproject.Runtime.Queue.Order.{logs-dequeue, dequeue_lem, started}
use signalproject.Runtime.Dispatch.{
  Executor, Execution, finished, raised, Dispatched, idle, dispatched, dispatch_one, record_outcome,
  drain, cycles_run, at_limit,
}

-- The items that have reached an end.
abbrev pub ended : WorkQueue → ℕ
ended q = length q.completed + length q.failed

-- What a round of the dispatcher does on a queue that is not empty.
record Dispatches (q : WorkQueue) (r : Dispatched × WorkQueue) : Type 0 where
  item : WorkItem
  result : r.0 ≡ dispatched item
  valid : IsValid r.1
  smaller : size r.1 + 1 ≡ size q
  grown : ended r.1 ≡ ended q + 1

record_outcome-Dispatches :
    (q : WorkQueue) (item : WorkItem) (e : Execution)
    → IsValid q
    → item.status ≡ WorkItemStatus.running
    → (size (record_outcome q item e).1 ≡ size q)
      × (ended (record_outcome q item e).1 ≡ ended q + 1)
      × (IsValid (record_outcome q item e).1)
      × ((done : WorkItem) × ((record_outcome q item e).0 ≡ dispatched done))
unfolding mark_completed mark_failed transition
record_outcome-Dispatches q item (raised error) v h =
    let moved : transition item WorkItemStatus.failed
        ≡ ok (record item { status = WorkItemStatus.failed }) =
      ground arith in
    rw moved (refl, omega (arith, length-append {0}), IsValid-same q _ refl refl v, (_, refl))
record_outcome-Dispatches q item (finished s r t) v h =
    let moved : transition item WorkItemStatus.completed
        ≡ ok (record item { status = WorkItemStatus.completed }) =
      ground arith in
    rw moved (refl, omega (arith, length-append {0}), IsValid-same q _ refl refl v, (_, refl))

dispatch_one-Dispatches :
    (run : Executor) (now : Text) (q : WorkQueue)
    → IsValid q
    → size q ≢ 0
    → Dispatches q (dispatch_one run now q)
unfolding dispatch_one
dispatch_one-Dispatches run now q v some_left =
    let (p, item, rest, found, first, result, views, smaller) = dequeue_lem now q v some_left in
    let after_ = (dequeue now q).1 in
    let (size_kept, grown, valid, (done, reply)) =
      record_outcome-Dispatches after_ (started now item) (run item.cycle_id)
        (after-IsValid (dequeuing now) q v) refl in
    let (c, f) = logs-dequeue now q in
    record {
      item = done;
      result = rw result reply;
      valid = rw result valid;
      smaller = rw result (omega (arith, size_kept, smaller));
      grown = rw result (omega (arith, grown, ap length c, ap length f));
    }

-- How many rounds are left to run.
abbrev pub rounds : Option ℕ → (cycles pending : ℕ) → ℕ
rounds none cycles pending = pending
rounds (some m) cycles pending = min pending (m - cycles)

rounds-step :
    (m : Option ℕ) (cycles n : ℕ)
    → at_limit m cycles ≡ false
    → rounds m cycles (suc n) ≡ rounds m (cycles + 1) n + 1
rounds-step none cycles n h = omega arith
rounds-step (some m) cycles n h = ground arith

rounds-limit : (m : Option ℕ) (cycles n : ℕ) → at_limit m cycles ≡ true → rounds m cycles n ≡ 0
rounds-limit none cycles n h = cc
rounds-limit (some m) cycles n h = ground arith

rounds-zero : (m : Option ℕ) (cycles : ℕ) → rounds m cycles 0 ≡ 0
rounds-zero none cycles = refl
rounds-zero (some m) cycles = omega arith

dispatch_one-empty :
    (run : Executor) (now : Text) (q : WorkQueue) → size q ≡ 0 → dispatch_one run now q ≡ (idle, q)
unfolding dispatch_one dequeue
dispatch_one-empty run now q h = rw h

drain-stop :
    (run : Executor) (clock : ℕ → Text) (m : Option ℕ) (fuel cycles : ℕ) (q : WorkQueue)
    → size q ≡ 0
    → drain run clock m (suc fuel) cycles q ≡ (cycles_run cycles, q)
unfolding drain
drain-stop run clock m fuel cycles q h = elim (Bool-cases (at_limit m cycles)) [
  | inl over ↦ rw over
  | inr going ↦ rw (going, dispatch_one-empty run (clock cycles) q h)
]

drain-step :
    (run : Executor) (clock : ℕ → Text) (m : Option ℕ) (fuel cycles : ℕ) (q : WorkQueue)
    → at_limit m cycles ≡ false
    → Dispatches q (dispatch_one run (clock cycles) q)
    → drain run clock m (suc fuel) cycles q
      ≡ drain run clock m fuel (cycles + 1) (dispatch_one run (clock cycles) q).1
unfolding drain
drain-step run clock m fuel cycles q going d = rw (going, d.result)

-- On a valid queue, with more fuel than there are pending items, `drain` ends by itself, whatever the
-- cycles do: it runs one cycle for each pending item, or as many as `max_cycles` still allows if those
-- are fewer; each takes one item from the queue and adds it to the completed or the failed ones.
pub drain_total :
    (run : Executor) (clock : ℕ → Text) (max_cycles : Option ℕ) (fuel cycles : ℕ) (q : WorkQueue)
    → IsValid q
    → size q < fuel
    → let n = rounds max_cycles cycles (size q) in
      ((drain run clock max_cycles fuel cycles q).0 ≡ cycles_run (cycles + n))
      × (size (drain run clock max_cycles fuel cycles q).1 + n ≡ size q)
      × (ended (drain run clock max_cycles fuel cycles q).1 ≡ ended q + n)
unfolding drain
drain_total run clock m zero cycles q v h = absurd (omega arith)
drain_total run clock m (suc fuel) cycles q v h = elim (Bool-cases (at_limit m cycles)) [
  | inl over ↦
      rw (over, rounds-limit m cycles (size q) over)
        (ap cycles_run (omega arith), omega arith, omega arith)
  | inr going ↦ elim (Bool-cases (nat_eq (size q) 0)) [
    | inl e ↦
        let none_left : size q ≡ 0 = (nat_eq_iff (size q) 0).0 e in
        rw (drain-stop run clock m fuel cycles q none_left, none_left, rounds-zero m cycles)
          (ap cycles_run (omega arith), omega arith, omega arith)
    | inr e ↦
        let d = dispatch_one-Dispatches run (clock cycles) q v (ground arith) in
        let next = (dispatch_one run (clock cycles) q).1 in
        let (reply, left, ends) =
          drain_total run clock m fuel (cycles + 1) next d.valid (omega (arith, d.smaller)) in
        let n : rounds m cycles (size q) ≡ rounds m (cycles + 1) (size next) + 1 =
          ap (rounds m cycles) (omega (arith, d.smaller))
          ∙ rounds-step m cycles (size next) going in
        rw (drain-step run clock m fuel cycles q going d, n)
          (
            reply ∙ ap cycles_run (omega arith),
            omega (arith, left, d.smaller),
            omega (arith, ends, d.grown),
          )
  ]
]
