-- ===== src/Workflow/Context.antt =====
-- src/workflow/events.py and src/workflow/context.py: the events of a cycle, and the state that its
-- stages share.
use signalproject.Prelude.{ℕ, ◌+◌, Bool, Option, List, [], ◌∷◌, ◌++◌, length}
use signalproject.Prelude.Text.{Text}
use signalproject.Core.Entities.{Entity}
use signalproject.Core.Evidence.{Evidence}
use signalproject.Core.Research.{Research}
use signalproject.Core.Signals.{Signal}
use signalproject.Core.Sources.{Source}
use signalproject.Core.Theses.{Thesis}
use signalproject.Workflow.Types.{StageStatus, CandidateObservation}

pub data WorkflowEvent : Type 0 where
  stage_started : (cycle_id stage_name started_at : Text) → WorkflowEvent
  gate_evaluated :
      (cycle_id stage_name gate_id : Text) (passed : Bool) (reason : Option Text)
      (evaluated_at : Text)
      → WorkflowEvent
  stage_completed :
      (cycle_id stage_name : Text) (status : StageStatus) (completed_at : Text) → WorkflowEvent
  object_routed :
      (cycle_id stage_name object_id object_kind destination reason routed_at : Text)
      → WorkflowEvent
  workflow_completed :
      (cycle_id started_at completed_at : Text)
      (signals_emitted research_emitted theses_updated : ℕ)
      → WorkflowEvent
  workflow_aborted : (cycle_id stage_name reason aborted_at : Text) → WorkflowEvent

-- What Stage 3 and Stage 4 put into `rejected_signal_drafts`: a Signal, or a _StubSignalDraft.
pub data RejectedDraft : Type 0 where
  signal : Signal → RejectedDraft
  stub : (evidence_id reason : Text) → RejectedDraft

pub record PipelineContext : Type 0 where
  pub cycle_id : Text
  pub started_at : Text
  pub sources : List Source
  pub entities : List Entity
  pub candidates : List CandidateObservation
  pub flagged_candidates : List CandidateObservation
  pub degraded_sources : List Source
  pub evidences : List Evidence
  pub rejected_evidences : List Evidence
  pub non_retrievable_evidences : List Evidence
  pub signals : List Signal
  pub rejected_signal_drafts : List RejectedDraft
  pub research_list : List Research
  pub held_research : List Research
  pub research_with_traceability_gaps : List Research
  pub theses : List Thesis
  pub held_theses : List Thesis
  pub theses_pending : List Thesis
  pub events : List WorkflowEvent

unfoldable pub emit : WorkflowEvent → PipelineContext → PipelineContext
emit event context = record context { events = context.events ++ event ∷ [] }

abbrev pub signals_emitted : PipelineContext → ℕ
signals_emitted context = length context.signals

abbrev pub research_emitted : PipelineContext → ℕ
research_emitted context = length context.research_list

abbrev pub theses_updated : PipelineContext → ℕ
theses_updated context = length context.theses

abbrev pub evidences_produced : PipelineContext → ℕ
evidences_produced context = length context.evidences + length context.non_retrievable_evidences

-- A cycle's fresh context, with its sources and entities: every other list is empty.
abbrev pub new_context : (new_id now : Text) → List Source → List Entity → PipelineContext
new_context new_id now sources entities = record {
  cycle_id = new_id;
  started_at = now;
  sources = sources;
  entities = entities;
  candidates = [];
  flagged_candidates = [];
  degraded_sources = [];
  evidences = [];
  rejected_evidences = [];
  non_retrievable_evidences = [];
  signals = [];
  rejected_signal_drafts = [];
  research_list = [];
  held_research = [];
  research_with_traceability_gaps = [];
  theses = [];
  held_theses = [];
  theses_pending = [];
  events = [];
}
