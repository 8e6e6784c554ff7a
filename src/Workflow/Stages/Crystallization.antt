-- ===== src/Workflow/Stages/Crystallization.antt =====
-- src/workflow/stages.py: ThesisUpdateStage.
use signalproject.Prelude.{
  not, ◌||◌, Option, none, some, [], ◌∷◌, ◌++◌, ok, err, contains, if◌then◌else◌,
}
use signalproject.Prelude.Text.{Text-eq, codes}
use signalproject.Core.Research.{Research}
use signalproject.Core.Theses.{Thesis, evolve}
use signalproject.Workflow.Context.{PipelineContext}
use signalproject.Workflow.Gates.{Platform}
use signalproject.Workflow.Gates.Early.{is_blank}
use signalproject.Workflow.Gates.Middle.{entity_ids}
use signalproject.Workflow.Gates.Late.{is_short, stage_5_gates}
use signalproject.Workflow.Stages.{
  ThesisCrystallizer, ThesesProvider, Ran, returned, raised, and_then, for_each, Stage, start,
  conclude,
}
use signalproject.Workflow.Stages.Synthesis.{hold_or_reject}

-- What the crystallizer makes of a research: none if there is no crystallizer or it raises
abbrev pub crystallized :
    Option ThesisCrystallizer → Research → (existing : Option Thesis) → Option Thesis
crystallized none research existing = none
crystallized (some crystallize) research existing = crystallize research existing

module _ (p : Platform) where
  -- The thesis that is recorded: the new one, or the existing one evolved; the new one too if
  -- evolving raises.
  unfoldable pub updated : PipelineContext → Research → (existing : Option Thesis) → Thesis → Thesis
  unfolding evolve
  updated context research none thesis = thesis
  updated context research (some prior) thesis =
      elim (evolve (p.now_utc context) prior thesis.interpretation (research.id ∷ []) research.id
        []) [ ok evolved ↦ evolved | err e ↦ thesis ]

  -- What becomes of a thesis that was crystallized
  unfoldable pub file_thesis :
      PipelineContext → Research → (existing : Option Thesis) → Thesis → PipelineContext
  unfolding updated
  file_thesis context research existing thesis =
      if is_blank thesis.interpretation || is_short thesis.interpretation
      then context
      else if not (contains (entity_ids context) thesis.entity_ref.id)
      then record context { held_theses = context.held_theses ++ thesis ∷ [] }
      else record context {
        theses = context.theses ++ updated context research existing thesis ∷ [];
      }

  -- The body of the loop over the research; a provider's exception is not caught.
  unfoldable pub update_thesis :
      Option ThesisCrystallizer → ThesesProvider → PipelineContext → Research → Ran (Unit {0})
  unfolding file_thesis
  update_thesis crystallizer existing_theses_provider context research =
      elim (existing_theses_provider research.entity_ref.id) [
        | none ↦ raised context
        | some existing ↦ elim (crystallized crystallizer research existing) [
          | none ↦ returned context tt
          | some thesis ↦ returned (file_thesis context research existing thesis) tt
        ]
      ]

  unfoldable pub update_all :
      Option ThesisCrystallizer → ThesesProvider → PipelineContext → Ran (Unit {0})
  unfolding update_thesis for_each
  update_all crystallizer existing_theses_provider context =
      for_each (update_thesis crystallizer existing_theses_provider) context context.research_list

  -- ThesisUpdateStage.execute
  unfoldable pub thesis_update : Option ThesisCrystallizer → ThesesProvider → Stage
  unfolding update_all start conclude
  thesis_update crystallizer existing_theses_provider context =
      and_then (update_all crystallizer existing_theses_provider (start p (codes "S5") context))
        (λ filed done. conclude p (codes "S5") hold_or_reject stage_5_gates filed)

-- The provider that a stage without one has: `lambda eid: None`
abbrev pub no_existing_theses : ThesesProvider
no_existing_theses id = some none
