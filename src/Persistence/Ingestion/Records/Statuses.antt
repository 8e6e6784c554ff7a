-- ===== src/Persistence/Ingestion/Records/Statuses.antt =====
-- src/persistence/ingestion/lifecycle.py: WorkItemStatus.
use signalproject.Prelude.{ℕ, Bool, true, ◌≡◌, ◌↔◌, arith, Eq, nat_eq}

pub data WorkItemStatus : Type 0 where
  pending running retrying completed dead_letter : WorkItemStatus

abbrev position : WorkItemStatus → ℕ
position pending = 0
position running = 1
position retrying = 2
position completed = 3
position dead_letter = 4

abbrev status_beq : WorkItemStatus → WorkItemStatus → Bool
status_beq a b = nat_eq (position a) (position b)

pub status_beq_iff : (a b : WorkItemStatus) → (status_beq a b ≡ true) ↔ (a ≡ b)
status_beq_iff a b = ground arith

instance abbrev pub WorkItemStatus-eq : Eq WorkItemStatus
WorkItemStatus-eq = record { beq = status_beq; beq_iff = status_beq_iff }
