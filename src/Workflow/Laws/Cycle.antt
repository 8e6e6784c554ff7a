-- ===== src/Workflow/Laws/Cycle.antt =====
-- The audit trail of Pipeline.run: the stages one after the other, cut off where an exception leaves it.
use mathlib.Core.List.{append_assoc}
use signalproject.Prelude.{◌≡◌, refl, ap, ◌∙◌, subst, List, [], ◌∷◌, ◌++◌}
use signalproject.Prelude.Text.{Text, codes}
use signalproject.Workflow.Context.{PipelineContext}
use signalproject.Workflow.Gates.{Platform, Gate}
use signalproject.Workflow.Gates.Late.{
  stage_1_gates, stage_2_gates, stage_3_gates, stage_4_gates, stage_5_gates, stage_6_gates,
}
use signalproject.Workflow.Stages.{Stage, start, first_failure, run_gates}
use signalproject.Workflow.Stages.Observation.{source_observation, observation_status, observe_all}
use signalproject.Workflow.Stages.Production.{evidence_production, production_status, produce_all}
use signalproject.Workflow.Stages.Extraction.{signal_extraction, extraction_status, extract_all}
use signalproject.Workflow.Stages.Synthesis.{research_synthesis, hold_or_reject, synthesize_all}
use signalproject.Workflow.Stages.Crystallization.{thesis_update, update_all}
use signalproject.Workflow.Stages.Integration.{knowledge_update, integrate_all, settle}
use signalproject.Workflow.Pipeline.{Interfaces, stages, run_stages, run}
use signalproject.Workflow.Laws.Trail.{
  Mark, Concludes, completed, cycle_completed, trail, trail-emit, gate_marks, run_gates-trail,
  conclude-trail,
}
use signalproject.Workflow.Laws.Loops.{synthesize_all-trail, update_all-trail, integrate_all-trail}
use signalproject.Workflow.Laws.EarlyLoops.{observe_all-trail, produce_all-trail, extract_all-trail}
use signalproject.Workflow.Laws.Segments.{
  IsStage, segments, run_stages-segments, two_parts, start-trail, settle-trail, s2_g4-trail,
}

module _ (p : Platform) (i : Interfaces) where
  source_observation-IsStage :
      IsStage (codes "S1") (stage_1_gates p) (source_observation p i.observer)
  unfolding source_observation
  source_observation-IsStage c =
      two_parts (codes "S1") (stage_1_gates p) c (observe_all p i.observer (start p (codes "S1") c))
        _ (observe_all-trail p i.observer (start p (codes "S1") c) ∙ start-trail p (codes "S1") c)
        (λ d done.
          conclude-trail p (codes "S1") observation_status (stage_1_gates p) d
            (λ e. refl, (λ e. refl, (λ e. refl, tt))))

  evidence_production-IsStage :
      IsStage (codes "S2") stage_2_gates (evidence_production p i.producer)
  unfolding evidence_production
  evidence_production-IsStage c =
      two_parts (codes "S2") stage_2_gates c (produce_all p i.producer (start p (codes "S2") c)) _
        (produce_all-trail p i.producer (start p (codes "S2") c) ∙ start-trail p (codes "S2") c)
        (λ d done.
          conclude-trail p (codes "S2") production_status stage_2_gates d
            (λ e. refl, (λ e. refl, (λ e. refl, (s2_g4-trail, tt)))))

  signal_extraction-IsStage :
      IsStage (codes "S3") (stage_3_gates p) (signal_extraction p i.extractor i.entity_resolver)
  unfolding signal_extraction
  signal_extraction-IsStage c =
      two_parts (codes "S3") (stage_3_gates p) c
        (extract_all p i.extractor i.entity_resolver (start p (codes "S3") c)) _
        (extract_all-trail p i.extractor i.entity_resolver (start p (codes "S3") c)
          ∙ start-trail p (codes "S3") c)
        (λ d done.
          conclude-trail p (codes "S3") extraction_status (stage_3_gates p) d
            (λ e. refl, (λ e. refl, (λ e. refl, (λ e. refl, tt)))))

  research_synthesis-IsStage :
      IsStage (codes "S4") stage_4_gates (research_synthesis p i.synthesizer i.question)
  unfolding research_synthesis
  research_synthesis-IsStage c =
      two_parts (codes "S4") stage_4_gates c
        (synthesize_all i.synthesizer i.question (start p (codes "S4") c)) _
        (synthesize_all-trail i.synthesizer i.question (start p (codes "S4") c)
          ∙ start-trail p (codes "S4") c)
        (λ d done.
          conclude-trail p (codes "S4") hold_or_reject stage_4_gates d
            (λ e. refl, (λ e. refl, (λ e. refl, (λ e. refl, tt)))))

  thesis_update-IsStage :
      IsStage (codes "S5") stage_5_gates (thesis_update p i.crystallizer i.existing_theses_provider)
  unfolding thesis_update
  thesis_update-IsStage c =
      two_parts (codes "S5") stage_5_gates c
        (update_all p i.crystallizer i.existing_theses_provider (start p (codes "S5") c)) _
        (update_all-trail p i.crystallizer i.existing_theses_provider (start p (codes "S5") c)
          ∙ start-trail p (codes "S5") c)
        (λ d done.
          conclude-trail p (codes "S5") hold_or_reject stage_5_gates d
            (λ e. refl, (λ e. refl, (λ e. refl, (λ e. refl, tt)))))

  knowledge_update-IsStage : IsStage (codes "S6") stage_6_gates (knowledge_update p i.integrator)
  unfolding knowledge_update
  knowledge_update-IsStage c =
      two_parts (codes "S6") stage_6_gates c (integrate_all i.integrator (start p (codes "S6") c)) _
        (integrate_all-trail i.integrator (start p (codes "S6") c) ∙ start-trail p (codes "S6") c)
        (λ d done.
          let ran = run_gates p (codes "S6") stage_6_gates d in
          subst (λ (ms : List Mark). Concludes ms (settle p (ran.0) (first_failure (ran.1))))
            (ap (λ (ns : List Mark). ns ++ completed (codes "S6") ∷ [])
                (run_gates-trail p (codes "S6") stage_6_gates d
                  (λ e. refl, (λ e. refl, (λ e. refl, tt))))
              ∙ append_assoc (trail d) (gate_marks (codes "S6") stage_6_gates)
                  (completed (codes "S6") ∷ []))
            (settle-trail p (ran.0) (first_failure (ran.1))))

-- The six stages of a cycle, each with its name and its gates
abbrev pub protocol : Platform → Interfaces → List (Text × List Gate × Stage)
protocol p i =
    (codes "S1", stage_1_gates p, source_observation p i.observer)
    ∷ (codes "S2", stage_2_gates, evidence_production p i.producer)
    ∷ (codes "S3", stage_3_gates p, signal_extraction p i.extractor i.entity_resolver)
    ∷ (codes "S4", stage_4_gates, research_synthesis p i.synthesizer i.question)
    ∷ (codes "S5", stage_5_gates, thesis_update p i.crystallizer i.existing_theses_provider)
    ∷ (codes "S6", stage_6_gates, knowledge_update p i.integrator)
    ∷ []

-- Whatever the interfaces return and wherever they raise, a cycle runs to its end, and its events,
-- those that route an object left out, extend the ones before by the six stages in their order and
-- one completion of the cycle: a stage that returns leaves its start, one evaluation of each of its
-- gates in their order and its completion, and a stage that an exception leaves its start alone.
pub run-trail :
    (p : Platform) (i : Interfaces) (context : PipelineContext)
    → trail ((run p (stages p i) context).0)
      ≡ trail context ++ (segments (protocol p i) context ++ cycle_completed ∷ [])
unfolding run stages
run-trail p i context =
    trail-emit _ (run_stages (stages p i) context)
    ∙ ap (λ (ns : List Mark). ns ++ cycle_completed ∷ [])
        (run_stages-segments (protocol p i) context (
          source_observation-IsStage p i,
          (
            evidence_production-IsStage p i,
            (
              signal_extraction-IsStage p i,
              (
                research_synthesis-IsStage p i,
                (thesis_update-IsStage p i, (knowledge_update-IsStage p i, tt)),
              ),
            ),
          ),
        ))
    ∙ append_assoc (trail context) (segments (protocol p i) context) (cycle_completed ∷ [])
