-- ===== src/Core/Lifecycle/Statuses.antt =====
-- src/core/lifecycle.py: the status enums. An enum's equality is that of its members' positions.
use native.Mathlib.Omega.{arith}
use signalproject.Prelude.{ℕ, Bool, true, ◌≡◌, ◌↔◌, Eq, nat_eq}

pub data SignalStatus : Type 0 where
  draft verified active held rejected decayed superseded : SignalStatus

pub data ThesisStatus : Type 0 where
  emerging evolving mature superseded retired : ThesisStatus

pub data ResearchStatus : Type 0 where
  opened ongoing paused concluded : ResearchStatus

pub data SourceStatus : Type 0 where
  active deactivated retired : SourceStatus

abbrev signal_position : SignalStatus → ℕ
signal_position SignalStatus.draft = 0
signal_position SignalStatus.verified = 1
signal_position SignalStatus.active = 2
signal_position SignalStatus.held = 3
signal_position SignalStatus.rejected = 4
signal_position SignalStatus.decayed = 5
signal_position SignalStatus.superseded = 6

abbrev thesis_position : ThesisStatus → ℕ
thesis_position ThesisStatus.emerging = 0
thesis_position ThesisStatus.evolving = 1
thesis_position ThesisStatus.mature = 2
thesis_position ThesisStatus.superseded = 3
thesis_position ThesisStatus.retired = 4

abbrev research_position : ResearchStatus → ℕ
research_position ResearchStatus.opened = 0
research_position ResearchStatus.ongoing = 1
research_position ResearchStatus.paused = 2
research_position ResearchStatus.concluded = 3

abbrev source_position : SourceStatus → ℕ
source_position SourceStatus.active = 0
source_position SourceStatus.deactivated = 1
source_position SourceStatus.retired = 2

abbrev signal_beq : SignalStatus → SignalStatus → Bool
signal_beq a b = nat_eq (signal_position a) (signal_position b)

abbrev thesis_beq : ThesisStatus → ThesisStatus → Bool
thesis_beq a b = nat_eq (thesis_position a) (thesis_position b)

abbrev research_beq : ResearchStatus → ResearchStatus → Bool
research_beq a b = nat_eq (research_position a) (research_position b)

abbrev source_beq : SourceStatus → SourceStatus → Bool
source_beq a b = nat_eq (source_position a) (source_position b)

pub signal_beq_iff : (a b : SignalStatus) → (signal_beq a b ≡ true) ↔ (a ≡ b)
signal_beq_iff a b = ground arith

pub thesis_beq_iff : (a b : ThesisStatus) → (thesis_beq a b ≡ true) ↔ (a ≡ b)
thesis_beq_iff a b = ground arith

pub research_beq_iff : (a b : ResearchStatus) → (research_beq a b ≡ true) ↔ (a ≡ b)
research_beq_iff a b = ground arith

pub source_beq_iff : (a b : SourceStatus) → (source_beq a b ≡ true) ↔ (a ≡ b)
source_beq_iff a b = ground arith

instance abbrev pub SignalStatus-eq : Eq SignalStatus
SignalStatus-eq = record { beq = signal_beq; beq_iff = signal_beq_iff }

instance abbrev pub ThesisStatus-eq : Eq ThesisStatus
ThesisStatus-eq = record { beq = thesis_beq; beq_iff = thesis_beq_iff }

instance abbrev pub ResearchStatus-eq : Eq ResearchStatus
ResearchStatus-eq = record { beq = research_beq; beq_iff = research_beq_iff }

instance abbrev pub SourceStatus-eq : Eq SourceStatus
SourceStatus-eq = record { beq = source_beq; beq_iff = source_beq_iff }
