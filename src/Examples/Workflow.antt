-- ===== src/Examples/Workflow.antt =====
-- Runs of the theorems on src/workflow.
use signalproject.Prelude.{
  ◌≡◌, refl, true, false, some, List, [], ◌∷◌, ◌++◌, All, ok, keep, all_distinct, contains,
}
use signalproject.Prelude.Text.{Text-eq, codes}
use signalproject.Prelude.Dict.{keys}
use native.Mathlib.Decide.{ℕ_discrete}
use signalproject.Workflow.Equality.{Thesis-discrete, Thesis-eq}
use signalproject.Core.Lifecycle.Statuses.{ThesisStatus, ThesisStatus-eq}
use signalproject.Core.Evidence.{quality_post_init}
use signalproject.Core.Signals.{Signal}
use signalproject.Core.Sources
use signalproject.Core.Sources.{Source, SourceType}
use signalproject.Workflow.Types.{
  CandidateObservation, strip, StageResult, fail_degraded, advanced_result,
}
use signalproject.Workflow.Context.{PipelineContext, emit}
use signalproject.Workflow.Gates.{record_evaluation}
use signalproject.Workflow.Gates.Early.{s1_g1_validate, s2_g4_validate, is_blank}
use signalproject.Workflow.Gates.Late.{s5_g1_fault, s5_g2_fault, is_short, s5_g3_fault, s5_g4_fault}
use signalproject.Persistence.Ingestion.Messages.{is_space}
use signalproject.Workflow.Stages.{
  returned, context_after, start, conclude, run_gates, first_failure, close, complete,
}
use signalproject.Workflow.Stages.Observation.{source_observation, observe_all}
use signalproject.Workflow.Stages.Production.{evidence_production, produce_all}
use signalproject.Workflow.Stages.Extraction.{signal_extraction, extract_all}
use signalproject.Workflow.Stages.Synthesis.{group_onto, research_synthesis, synthesize_all}
use signalproject.Workflow.Stages.Crystallization.{thesis_update, update_all}
use signalproject.Workflow.Stages.Integration.{knowledge_update}
use signalproject.Workflow.Pipeline.{Interfaces, no_interfaces, stages, run, run_stages}
use signalproject.Workflow.Laws.Retrieval.{is_retrievable, is_lost, add_lost, s2_g4_lem}
use signalproject.Workflow.Laws.Attributed.{IsAttributed}
use signalproject.Workflow.Laws.Produced.{IsProducer, evidence_production_advances}
use signalproject.Workflow.Laws.Extracted.{IsEnd, all_drafts, signal_extraction-IsEnd}
use signalproject.Workflow.Laws.Recorded.{AllConcrete, IsProvider}
use signalproject.Workflow.Laws.Concrete.{IsOutcome, thesis_update-IsOutcome}
use signalproject.Workflow.Laws.Observed.{IsSplit, source_observation_sorts}
use signalproject.Workflow.Laws.Unreachable.{all_down, nothing_new}
use signalproject.Workflow.Laws.Reachability.{s1_g1_inverted}
use signalproject.Workflow.Laws.Grouped.{group_of, is_about, group_onto_lem}
use signalproject.Workflow.Laws.Trail.{cycle_completed, trail}
use signalproject.Workflow.Laws.Segments.{segments}
use signalproject.Workflow.Laws.Cycle.{protocol, run-trail}
use signalproject.Workflow.Laws.Kept.{
  before_integration, is_held, knowledge_update_kept, IsGrown, run-IsGrown,
}
use signalproject.Examples.CycleData.{
  platform, wire, acme, observation, observe, report, produce, draft, extract, resolve, finding,
  view_of, crystallize, provide, integrate, begun, interfaces,
}

run-trail_example :
    trail ((run platform (stages platform interfaces) begun).0)
    ≡ trail begun ++ (segments (protocol platform interfaces) begun ++ cycle_completed ∷ [])
run-trail_example = run-trail platform interfaces begun

-- A cycle whose stages have nothing to call before the last one
abbrev integrating : Interfaces
integrating = record no_interfaces { integrator = some integrate }

abbrev with_emerging : PipelineContext
with_emerging = record begun {
  theses = view_of ThesisStatus.emerging ∷ view_of ThesisStatus.mature ∷ [];
}

emerging_held :
    is_held (before_integration platform integrating with_emerging) (view_of ThesisStatus.emerging)
    ≡ true
unfolding run_stages source_observation evidence_production signal_extraction research_synthesis
    thesis_update observe_all produce_all extract_all synthesize_all update_all start conclude emit
    run_gates record_evaluation first_failure close complete Thesis-discrete ℕ_discrete
    s1_g1_validate s2_g4_validate s5_g1_fault is_blank strip is_space s5_g2_fault is_short
    s5_g3_fault s5_g4_fault
emerging_held = refl

run-IsGrown_example :
    (is_held
        ((run platform (stages platform integrating) with_emerging).0)
        (view_of ThesisStatus.emerging)
      ≡ true)
    × (contains
          ((run platform (stages platform integrating) with_emerging).0).theses_pending
          (view_of ThesisStatus.emerging)
        ≡ true)
    × All IsGrown ((run platform (stages platform integrating) with_emerging).0).theses
run-IsGrown_example =
    run-IsGrown platform integrating with_emerging (view_of ThesisStatus.emerging) emerging_held

abbrev with_theses : PipelineContext
with_theses = record begun {
  theses = view_of ThesisStatus.evolving ∷ view_of ThesisStatus.mature ∷ [];
}

knowledge_update_kept_example :
    is_held
      (context_after (knowledge_update platform (some integrate) with_theses))
      (view_of ThesisStatus.evolving)
    ≡ true
unfolding Thesis-discrete ℕ_discrete
knowledge_update_kept_example =
    knowledge_update_kept platform (some integrate) with_theses (view_of ThesisStatus.evolving) refl

abbrev with_candidates : PipelineContext
with_candidates = record begun {
  candidates = observation (codes "a") ∷ observation (codes "b") ∷ [];
}

produce-IsProducer : IsProducer produce
unfolding quality_post_init
produce-IsProducer = record { quality = λ c s e h. cc h }

evidence_production_advances_example :
    (last : PipelineContext) × (evidence_production platform (some produce) with_candidates
      ≡ returned last advanced_result)
    × (last.candidates ≡ [])
    × (All IsAttributed last.evidences)
    × All (λ e. is_retrievable e ≡ true) last.evidences
evidence_production_advances_example =
    evidence_production_advances platform produce with_candidates produce-IsProducer tt

abbrev with_evidences : PipelineContext
with_evidences = record begun { evidences = report true ∷ report false ∷ [] }

signal_extraction-IsEnd_example :
    IsEnd platform resolve with_evidences
      (all_drafts (some extract) resolve (acme ∷ []) (report true ∷ report false ∷ []))
      (signal_extraction platform (some extract) resolve with_evidences)
signal_extraction-IsEnd_example =
    signal_extraction-IsEnd platform (some extract) resolve with_evidences tt

abbrev with_research : PipelineContext
with_research = record begun { research_list = finding ∷ finding ∷ [] }

provide-IsProvider : IsProvider provide
provide-IsProvider = record { answers = λ id. refl }

thesis_update-IsOutcome_example :
    (last : PipelineContext) × (r : StageResult) × (thesis_update platform
        (some crystallize)
        provide
        with_research
      ≡ returned last r)
    × IsOutcome r
    × AllConcrete last
thesis_update-IsOutcome_example =
    thesis_update-IsOutcome platform (some crystallize) provide with_research provide-IsProvider tt

wire_valid : Sources.post_init wire ≡ ok wire
unfolding Sources.post_init
wire_valid = refl

source_observation_sorts_example :
    (last : PipelineContext) × (r : StageResult) × (admitted : List CandidateObservation)
    × (flagged : List CandidateObservation) × (source_observation platform (some observe) begun
        ≡ returned last r)
    × (last.candidates ≡ admitted)
    × (last.flagged_candidates ≡ flagged)
    × IsSplit platform
        (observation (codes "Acme cuts prices") ∷ observation (codes " ") ∷ [])
        admitted
        flagged
source_observation_sorts_example = source_observation_sorts platform observe begun (wire_valid, tt)

s1_g1_inverted_example :
    ((last : PipelineContext) × (source_observation platform (some all_down) begun
        ≡ returned last advanced_result))
    × ((last : PipelineContext) × (r : StageResult) × (source_observation platform
            (some nothing_new)
            begun
          ≡ returned last r)
        × (r.status ≡ fail_degraded))
s1_g1_inverted_example = s1_g1_inverted platform begun refl ((wire_valid, refl), tt) refl refl

abbrev drafts : List Signal
drafts =
    draft (codes "one")
    ∷ record (draft (codes "two")) {
      entity_ref = record { id = codes "beta"; kind = codes "company" };
    }
    ∷ draft (codes "three")
    ∷ []

group_onto_lem_example :
    (group_of (codes "acme") (group_onto [] drafts) ≡ keep (is_about (codes "acme")) drafts)
    × (all_distinct (keys (group_onto [] drafts)) ≡ true)
group_onto_lem_example = group_onto_lem (codes "acme") drafts

s2_g4_lem_example : (s2_g4_validate with_evidences).0 ≡ record with_evidences {
  evidences = keep is_retrievable with_evidences.evidences;
  non_retrievable_evidences =
      add_lost (keep is_lost with_evidences.evidences) with_evidences.non_retrievable_evidences;
}
s2_g4_lem_example = s2_g4_lem with_evidences
