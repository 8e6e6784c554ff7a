-- ===== src/Workflow/Stages.antt =====
-- src/workflow/stages.py: what the stages share, and what they call. A call of an interface that
-- raises returns none.
pub mod Observation
pub mod Production
pub mod Extraction
pub mod Synthesis
pub mod Crystallization
pub mod Integration
use signalproject.Prelude.{
  Bool, true, false, ◌&&◌, Option, none, some, List, [], ◌∷◌, if◌then◌else◌,
}
use signalproject.Prelude.Text.{Text, codes, is_empty}
use signalproject.Core.Entities.{Entity}
use signalproject.Core.Evidence.{Evidence}
use signalproject.Core.Research.{Research}
use signalproject.Core.Signals.{Signal, EntityRef}
use signalproject.Core.Sources.{Source}
use signalproject.Core.Theses.{Thesis}
use signalproject.Workflow.Types.{
  StageStatus, advance, FailurePath, path_value, GateResult, StageResult, advanced_result,
  CandidateObservation,
}
use signalproject.Workflow.Context.{
  PipelineContext, emit, stage_started, stage_completed, object_routed,
}
use signalproject.Workflow.Gates.{Platform, Gate, record_evaluation}

-- SourceObserver, EvidenceProducer, SignalExtractor, ResearchSynthesizer, ThesisCrystallizer and
-- KnowledgeIntegrator, and the two callables of the stages: what each of them returns, if it does.
abbrev pub SourceObserver : Type 0
SourceObserver = Source → Option (List CandidateObservation)

abbrev pub EvidenceProducer : Type 0
EvidenceProducer = CandidateObservation → Source → Option Evidence

abbrev pub SignalExtractor : Type 0
SignalExtractor = Evidence → Entity → Option (List Signal)

abbrev pub EntityResolver : Type 0
EntityResolver = EntityRef → Option (Option Entity)

abbrev pub ResearchSynthesizer : Type 0
ResearchSynthesizer = List Signal → Entity → (question : Text) → Option Research

abbrev pub ThesisCrystallizer : Type 0
ThesisCrystallizer = Research → (prior_thesis : Option Thesis) → Option Thesis

abbrev pub ThesesProvider : Type 0
ThesesProvider = (entity_id : Text) → Option (Option Thesis)

abbrev pub KnowledgeIntegrator : Type 0
KnowledgeIntegrator = Thesis → Option (Unit {0})

-- How a call that changes the context ends: it returns, or an exception leaves it. What it had
-- changed before it raised stays changed.
pub data Ran (A : Type 0) : Type 0 where
  returned : PipelineContext → A → Ran A
  raised : PipelineContext → Ran A

abbrev pub context_after : {A : Type 0} → Ran A → PipelineContext
context_after (returned context value) = context
context_after (raised context) = context

-- What runs after a call that returned
abbrev pub and_then : {A B : Type 0} → Ran A → (PipelineContext → A → Ran B) → Ran B
and_then (returned context value) next = next context value
and_then (raised context) next = raised context

-- `for x in xs: body`
unfoldable pub for_each {ℓ} :
    {A : Type ℓ}
    → (body : PipelineContext → A → Ran (Unit {0})) → PipelineContext
    → List A
    → Ran (Unit {0})
for_each body context [] = returned context tt
for_each body context (x ∷ xs) = and_then (body context x) (λ next done. for_each body next xs)

abbrev pub Stage : Type 0
Stage = PipelineContext → Ran StageResult

module _ (p : Platform) where
  -- Stage.run_gates
  unfoldable pub run_gates :
      (name : Text) → List Gate → PipelineContext → PipelineContext × List (Gate × GateResult)
  unfolding record_evaluation
  run_gates name [] context = (context, [])
  run_gates name (gate ∷ gates) context =
      let evaluated = gate.validate context in
      let recorded = record_evaluation p gate (evaluated.0) name (evaluated.1) in
      let rest = run_gates name gates recorded in (rest.0, (gate, evaluated.1) ∷ rest.1)

  -- Stage.route_to_failure_path
  unfoldable pub route_to_failure_path :
      (name : Text)
      → PipelineContext
      → Gate
      → (reason object_id object_kind : Text) → PipelineContext
  route_to_failure_path name context gate reason object_id object_kind =
      emit
        (object_routed context.cycle_id name object_id object_kind (path_value gate.failure_path)
          (if is_empty reason then codes "unknown" else reason) (p.now_utc context))
        context

  -- The first event of every stage
  unfoldable pub start : (name : Text) → PipelineContext → PipelineContext
  start name context = emit (stage_started context.cycle_id name (p.now_utc context)) context

  -- The last event of every stage
  unfoldable pub complete : (name : Text) → StageStatus → PipelineContext → PipelineContext
  complete name status context =
      emit (stage_completed context.cycle_id name status (p.now_utc context)) context

-- Stage.all_gates_passed
unfoldable pub all_gates_passed : List (Gate × GateResult) → Bool
all_gates_passed [] = true
all_gates_passed ((gate, result) ∷ rest) = result.passed && all_gates_passed rest

-- Stage.first_failure
unfoldable pub first_failure : List (Gate × GateResult) → Option (Gate × GateResult)
first_failure [] = none
first_failure ((gate, result) ∷ rest) =
    let later = first_failure rest in if result.passed then later else some (gate, result)

module _ (p : Platform) (name : Text) (status_of : FailurePath → StageStatus) where
  -- The end of a stage after its gates have run: the status of the first failure, or ADVANCE
  unfoldable pub close : PipelineContext → Option (Gate × GateResult) → Ran StageResult
  unfolding complete
  close context none = returned (complete p name advance context) advanced_result
  close context (some (gate, result)) =
      returned (complete p name (status_of gate.failure_path) context) (record {
        status = status_of gate.failure_path;
        failure_path = gate.failure_path;
        failure_reason = result.reason;
        retryable = gate.retryable;
      })

  -- The part of `execute` behind the stage's own loop
  unfoldable pub conclude : List Gate → PipelineContext → Ran StageResult
  unfolding close first_failure run_gates
  conclude gates context =
      let ran = run_gates p name gates context in close (ran.0) (first_failure (ran.1))
