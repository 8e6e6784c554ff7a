-- ===== src/Runtime/Queue/Items.antt =====
-- src/runtime/queue.py: the work item, its statuses, priorities and transitions.
use signalproject.Prelude.{
  ℕ, Bool, true, ◌≡◌, ◌↔◌, arith, Option, none, some, List, [], ◌∷◌, String, Eq, nat_eq, contains,
  Result, ok, err, if◌then◌else◌,
}
use signalproject.Prelude.Text.{Text}
use signalproject.Prelude.Dict.{Dict, lookup}

pub data WorkItemStatus : Type 0 where
  pending running completed failed cancelled : WorkItemStatus

abbrev position : WorkItemStatus → ℕ
position pending = 0
position running = 1
position completed = 2
position failed = 3
position cancelled = 4

abbrev status_beq : WorkItemStatus → WorkItemStatus → Bool
status_beq a b = nat_eq (position a) (position b)

pub status_beq_iff : (a b : WorkItemStatus) → (status_beq a b ≡ true) ↔ (a ≡ b)
status_beq_iff a b = ground arith

instance abbrev pub WorkItemStatus-eq : Eq WorkItemStatus
WorkItemStatus-eq = record { beq = status_beq; beq_iff = status_beq_iff }

pub data WorkItemPriority : Type 0 where
  highest high normal low lowest : WorkItemPriority

-- The member's number: a lower one runs first.
abbrev pub level : WorkItemPriority → ℕ
level highest = 0
level high = 10
level normal = 50
level low = 90
level lowest = 100

abbrev priority_beq : WorkItemPriority → WorkItemPriority → Bool
priority_beq a b = nat_eq (level a) (level b)

pub priority_beq_iff : (a b : WorkItemPriority) → (priority_beq a b ≡ true) ↔ (a ≡ b)
priority_beq_iff a b = ground arith

instance abbrev pub WorkItemPriority-eq : Eq WorkItemPriority
WorkItemPriority-eq = record { beq = priority_beq; beq_iff = priority_beq_iff }

pub data QueueError : Type 0 where
  queue_full queue_empty : QueueError
  invalid_queue_transition : (current target : WorkItemStatus) → QueueError
  value_error : String → QueueError

abbrev pub work_item_transitions : Dict WorkItemStatus (List WorkItemStatus)
work_item_transitions =
    (pending, running ∷ cancelled ∷ [])
    ∷ (running, completed ∷ failed ∷ [])
    ∷ (completed, [])
    ∷ (failed, [])
    ∷ (cancelled, [])
    ∷ []

pub record WorkItem : Type 0 where
  pub id : Text
  pub cycle_id : Text
  pub priority : WorkItemPriority
  pub status : WorkItemStatus
  pub trigger : Text
  pub enqueued_at : Text
  pub started_at : Option Text
  pub completed_at : Option Text
  pub result_summary : Option Text
  pub error : Option Text

abbrev allowed : Option (List WorkItemStatus) → List WorkItemStatus
allowed none = []
allowed (some targets) = targets

unfoldable pub transition : WorkItem → WorkItemStatus → Result QueueError WorkItem
unfolding lookup
transition item target =
    if contains (allowed (lookup item.status work_item_transitions)) target
    then ok (record item { status = target })
    else err (invalid_queue_transition item.status target)
