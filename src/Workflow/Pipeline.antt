-- ===== src/Workflow/Pipeline.antt =====
-- src/workflow/pipeline.py: the pipeline that runs the stages, and default_stages.
use signalproject.Prelude.{ℕ, Option, none, List, [], ◌∷◌, length}
use signalproject.Prelude.Text.{Text}
use signalproject.Workflow.Context.{
  PipelineContext, workflow_completed, emit, signals_emitted, research_emitted, theses_updated,
  evidences_produced,
}
use signalproject.Workflow.Gates.{Platform}
use signalproject.Workflow.Stages.{
  SourceObserver, EvidenceProducer, SignalExtractor, EntityResolver, ResearchSynthesizer,
  ThesisCrystallizer, ThesesProvider, KnowledgeIntegrator, Stage, context_after,
}
use signalproject.Workflow.Stages.Observation.{source_observation}
use signalproject.Workflow.Stages.Production.{evidence_production}
use signalproject.Workflow.Stages.Extraction.{signal_extraction, no_entity_resolver}
use signalproject.Workflow.Stages.Synthesis.{research_synthesis, default_question}
use signalproject.Workflow.Stages.Crystallization.{thesis_update, no_existing_theses}
use signalproject.Workflow.Stages.Integration.{knowledge_update}

pub record PipelineResult : Type 0 where
  pub cycle_id : Text
  pub started_at : Text
  pub completed_at : Text
  pub signals_emitted : ℕ
  pub research_emitted : ℕ
  pub theses_updated : ℕ

-- What the six stages are built with
pub record Interfaces : Type 0 where
  pub observer : Option SourceObserver
  pub producer : Option EvidenceProducer
  pub extractor : Option SignalExtractor
  pub entity_resolver : EntityResolver
  pub synthesizer : Option ResearchSynthesizer
  pub question : Text
  pub crystallizer : Option ThesisCrystallizer
  pub existing_theses_provider : ThesesProvider
  pub integrator : Option KnowledgeIntegrator

-- The six stages, in the pipeline's order
unfoldable pub stages : Platform → Interfaces → List Stage
unfolding source_observation evidence_production signal_extraction research_synthesis thesis_update
    knowledge_update
stages p i =
    source_observation p i.observer
    ∷ evidence_production p i.producer
    ∷ signal_extraction p i.extractor i.entity_resolver
    ∷ research_synthesis p i.synthesizer i.question
    ∷ thesis_update p i.crystallizer i.existing_theses_provider
    ∷ knowledge_update p i.integrator
    ∷ []

abbrev pub no_interfaces : Interfaces
no_interfaces = record {
  observer = none;
  producer = none;
  extractor = none;
  entity_resolver = no_entity_resolver;
  synthesizer = none;
  question = default_question;
  crystallizer = none;
  existing_theses_provider = no_existing_theses;
  integrator = none;
}

-- `default_stages()`
abbrev pub default_stages : Platform → List Stage
default_stages p = stages p no_interfaces

-- The loop of Pipeline.run: an exception that leaves a stage is dropped, what it changed stays.
unfoldable pub run_stages : List Stage → PipelineContext → PipelineContext
run_stages [] context = context
run_stages (stage ∷ rest) context = run_stages rest (context_after (stage context))

-- The result that Pipeline.run returns for the context behind the last stage
unfoldable pub result_of : (started_at completed_at : Text) → PipelineContext → PipelineResult
result_of started_at completed_at context = record {
  cycle_id = context.cycle_id;
  started_at = started_at;
  completed_at = completed_at;
  signals_emitted = signals_emitted context;
  research_emitted = research_emitted context;
  theses_updated = theses_updated context;
}

-- Pipeline.run
unfoldable pub run : Platform → List Stage → PipelineContext → PipelineContext × PipelineResult
unfolding run_stages result_of
run p stages context =
    let last = run_stages stages context in
    let result = result_of context.started_at (p.now_utc last) last in
    (
      emit
          (workflow_completed last.cycle_id context.started_at (p.now_utc last)
            (signals_emitted last) (research_emitted last) (theses_updated last))
          last,
      result,
    )

-- Pipeline.cycle_report, a dictionary with these keys
pub record CycleReport : Type 0 where
  pub cycle_id : Text
  pub started_at : Text
  pub completed_at : Text
  pub signals_emitted : ℕ
  pub research_emitted : ℕ
  pub theses_updated : ℕ
  pub evidences_produced : ℕ
  pub degraded_sources : ℕ
  pub rejected_evidences : ℕ
  pub held_research : ℕ
  pub pending_theses : ℕ

unfoldable pub cycle_report : PipelineContext → PipelineResult → CycleReport
cycle_report context result = record {
  cycle_id = result.cycle_id;
  started_at = result.started_at;
  completed_at = result.completed_at;
  signals_emitted = result.signals_emitted;
  research_emitted = result.research_emitted;
  theses_updated = result.theses_updated;
  evidences_produced = evidences_produced context;
  degraded_sources = length context.degraded_sources;
  rejected_evidences = length context.rejected_evidences;
  held_research = length context.held_research;
  pending_theses = length context.theses_pending;
}
