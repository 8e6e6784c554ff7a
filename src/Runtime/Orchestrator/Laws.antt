-- ===== src/Runtime/Orchestrator/Laws.antt =====
-- What happens to a failed cycle and to a dead letter.
use signalproject.Prelude.{
  ℕ, ◌≤◌, ◌<◌, ◌≡◌, ◌⊎◌, ◌∙◌, ap, true, false, not, arith, Option, some, List, [], ◌∷◌, ◌++◌, err,
  Bool-cases, Option-cases, inl, inr, if◌then◌else◌, ◌==◌, refl,
}
use signalproject.Prelude.Text.{Text, codes}
use signalproject.Runtime.Queue
use signalproject.Runtime.Queue.{at_capacity}
use signalproject.Runtime.Queue.Items.{
  WorkItem, WorkItemPriority, WorkItemPriority-eq, queue_full, transition,
}
use signalproject.Runtime.Queue.Order.{view, enqueue_lem}
use signalproject.Runtime.DeadLetter
use signalproject.Runtime.DeadLetter.{DeadLetterEntry}
use signalproject.Runtime.Retry.{
  FloatOps, RetryPolicy, RetryContext, RetryDecision, exponential, evaluate,
}
use signalproject.Runtime.Retry.Laws.{
  is_given_up, evaluate-is_given_up, evaluate_total, evaluate_overflow,
}
use signalproject.Runtime.Orchestrator.{
  Queues, raising, act_on, refused, delay_overflow, retry_item, handle_failed_cycle,
  handle_replay_from_dead_letter,
}

buckets-mark_failed :
    (q : Queue.WorkQueue) (item : WorkItem) (reason : Text)
    → (Queue.mark_failed q item reason).1.buckets ≡ q.buckets
unfolding Queue.mark_failed transition
buckets-mark_failed q item reason = ground arith

-- The dead letter of a failed cycle
abbrev pub letter_of : (now : Text) → WorkItem → (reason : Text) → (attempt : ℕ) → DeadLetterEntry
letter_of now item reason attempt = record {
  item = item;
  reason = reason;
  attempt = attempt;
  dead_lettered_at = now;
}

entries-enqueue :
    (now : Text) (d : DeadLetter.DeadLetterQueue) (item : WorkItem) (reason : Text) (attempt : ℕ)
    → at_capacity d.max_size (DeadLetter.size d) ≡ false
    → (DeadLetter.enqueue now d item reason attempt).1.entries
      ≡ d.entries ++ letter_of now item reason attempt ∷ []
unfolding DeadLetter.enqueue
entries-enqueue now d item reason attempt h = rw h refl

module _ {F : Type 0} (ops : FloatOps F) (p : RetryPolicy F) (context : RetryContext F)
    (new_id now : Text) (item : WorkItem) (report_error : Option Text) (attempt : ℕ)
    (priority : WorkItemPriority) (s : Queues) where
  -- What the cycle leaves when it is buried: the item is the last dead letter, and every list of
  -- pending items stays.
  abbrev pub IsBuried : Queues → Type 0
  IsBuried after =
      (reason : Text) × (after.dead_letters.entries
        ≡ s.dead_letters.entries ++ letter_of now item reason attempt ∷ [])
      × ((r : WorkItemPriority) → view after.queue r ≡ view s.queue r)

  -- What it leaves when it is retried: a pending item for the same cycle is the last one of its priority,
  -- and the other lists and the dead letters stay.
  abbrev pub IsRetried : Queues → Type 0
  IsRetried after =
      (after.dead_letters.entries ≡ s.dead_letters.entries)
      × ((r : WorkItemPriority)
          → view after.queue r ≡ (
              if priority == r
              then view s.queue r
                ++ retry_item new_id now item.cycle_id (codes "retry") priority ∷ []
              else view s.queue r))

  handled :
      (d : RetryDecision F)
      → evaluate ops p context report_error attempt ≡ some d
      → handle_failed_cycle ops p context new_id now item report_error attempt priority s
        ≡ raising (act_on new_id now d item attempt priority s)
  unfolding handle_failed_cycle
  handled d e = rw (handle_failed_cycle, e) refl

  buried :
      (d : RetryDecision F)
      → d.route_to_dead_letter ≡ true
      → at_capacity s.dead_letters.max_size (DeadLetter.size s.dead_letters) ≡ false
      → IsBuried (raising (act_on new_id now d item attempt priority s)).1
  buried d route room = rw route (
    d.reason,
    entries-enqueue now s.dead_letters item d.reason attempt room,
    λ r. ap (λ (b : Queue.Buckets). Queue.bucket b r) (buckets-mark_failed s.queue item d.reason),
  )

  retried :
      (d : RetryDecision F)
      → d.route_to_dead_letter ≡ false
      → d.should_retry ≡ true
      → at_capacity s.queue.max_size (Queue.size s.queue) ≡ false
      → IsRetried (raising (act_on new_id now d item attempt priority s)).1
  retried d route again room =
      let added =
        (enqueue_lem s.queue (retry_item new_id now item.cycle_id (codes "retry") priority)).2 refl
          room in
      rw (route, again, added.0) (refl, λ r. added.1 r)

  -- While both queues have room and up to attempt 1024, a failed cycle is never lost. One that is given
  -- up (its report has an error, the caller does not mark it retryable, no attempt is left, or the
  -- policy is manual) becomes the last dead letter, and the pending items stay; any other one is
  -- followed by a pending item for the same cycle at the end of the given priority's list, and the other
  -- lists and the dead letters stay.
  pub failed_cycle_kept :
      attempt ≤ 1024
      → at_capacity s.queue.max_size (Queue.size s.queue) ≡ false
      → at_capacity s.dead_letters.max_size (DeadLetter.size s.dead_letters) ≡ false
      → ((is_given_up p context report_error attempt ≡ true)
          × IsBuried
              (handle_failed_cycle ops p context new_id now item report_error attempt priority s).1)
        ⊎ ((is_given_up p context report_error attempt ≡ false)
            × IsRetried
                (handle_failed_cycle ops p context new_id now item report_error attempt priority
                  s).1)
  failed_cycle_kept early room room' =
      elim (Option-cases (evaluate ops p context report_error attempt)) [
        | inl e ↦ absurd (cc (e, evaluate_total ops p context report_error attempt early))
        | inr (d, e) ↦
            let (route, again) = evaluate-is_given_up ops p context report_error attempt e in
            rw (handled d e) (elim (Bool-cases (is_given_up p context report_error attempt)) [
              | inl g ↦ inl (g, buried d (route ∙ g) room')
              | inr g ↦ inr (g, retried d (route ∙ g) (again ∙ ap not g) room)
            ])
      ]

  -- Past attempt 1024 the exponential policy loses a cycle that it should retry: the computation of the
  -- delay overflows, and both queues stay as they were.
  pub overflow_lost :
      1024 < attempt
      → is_given_up p context report_error attempt ≡ false
      → p.kind ≡ exponential
      → handle_failed_cycle ops p context new_id now item report_error attempt priority s
        ≡ (err delay_overflow, s)
  unfolding handle_failed_cycle
  overflow_lost late g k =
      rw (handle_failed_cycle, evaluate_overflow ops p context report_error attempt late g k) refl

  routed :
      (d : RetryDecision F)
      → evaluate ops p context report_error attempt ≡ some d
      → d.should_retry ≡ true
      → d.route_to_dead_letter ≡ false
  routed d e again =
      let (route, retry) = evaluate-is_given_up ops p context report_error attempt e in
      ground (arith, route, retry, again)

  -- A retry on a full queue raises and leaves both queues as they were: the failed cycle is neither
  -- enqueued nor dead-lettered.
  pub retry_on_full_queue :
      {d : RetryDecision F}
      → evaluate ops p context report_error attempt ≡ some d
      → d.should_retry ≡ true
      → at_capacity s.queue.max_size (Queue.size s.queue) ≡ true
      → handle_failed_cycle ops p context new_id now item report_error attempt priority s
        ≡ (err (refused queue_full), s)
  retry_on_full_queue {d} e again full =
      rw
        (
          handled d e,
          routed d e again,
          again,
          (enqueue_lem s.queue (retry_item new_id now item.cycle_id (codes "retry") priority)).1
              refl full,
        )
        refl

module _ (new_id now : Text) (priority : WorkItemPriority) (s : Queues) (entry : DeadLetterEntry)
    (rest : List DeadLetterEntry) (oldest : s.dead_letters.entries ≡ entry ∷ rest) where
  -- With room in the queue a replay takes the oldest dead letter and puts a pending item for its cycle
  -- at the end of the given priority's list; the other lists stay.
  pub replay_with_room :
      at_capacity s.queue.max_size (Queue.size s.queue) ≡ false
      → ((handle_replay_from_dead_letter new_id now priority s).1.dead_letters.entries ≡ rest)
        × ((r : WorkItemPriority)
            → view (handle_replay_from_dead_letter new_id now priority s).1.queue r ≡ (
                if priority == r
                then view s.queue r
                  ++ retry_item new_id now entry.item.cycle_id (codes "replay") priority ∷ []
                else view s.queue r))
  unfolding handle_replay_from_dead_letter DeadLetter.pop_oldest
  replay_with_room room =
      let item = retry_item new_id now entry.item.cycle_id (codes "replay") priority in
      rw oldest (refl, λ r. ((enqueue_lem s.queue item).2 refl room).1 r)

  -- On a full queue a replay raises after it has taken the oldest dead letter: that entry is removed,
  -- and the queue stays as it was.
  pub replay_on_full_queue :
      at_capacity s.queue.max_size (Queue.size s.queue) ≡ true
      → handle_replay_from_dead_letter new_id now priority s ≡ (
        some (err queue_full),
        record s { dead_letters = record s.dead_letters { entries = rest } },
      )
  unfolding handle_replay_from_dead_letter DeadLetter.pop_oldest
  replay_on_full_queue full =
      let item = retry_item new_id now entry.item.cycle_id (codes "replay") priority in
      rw (oldest, (enqueue_lem s.queue item).1 refl full) refl
