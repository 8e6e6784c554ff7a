-- ===== src/Workflow/Stages/Synthesis.antt =====
-- src/workflow/stages.py: ResearchSynthesisStage.
use signalproject.Prelude.{
  not, ◌&&◌, Option, none, some, List, [], ◌∷◌, ◌++◌, map, if◌then◌else◌, ◌==◌,
}
use signalproject.Prelude.Text.{Text, Text-eq, codes, is_empty}
use signalproject.Core.Entities.{Entity}
use signalproject.Core.Research.{Research}
use signalproject.Core.Signals.{Signal}
use signalproject.Workflow.Types.{StageStatus, fail_hold, fail_reject, FailurePath}
use signalproject.Workflow.Context.{PipelineContext, RejectedDraft}
use signalproject.Workflow.Gates.{Platform}
use signalproject.Workflow.Gates.Early.{is_nil}
use signalproject.Workflow.Gates.Late.{stage_4_gates}
use signalproject.Workflow.Stages.{
  ResearchSynthesizer, Ran, returned, and_then, for_each, Stage, start, conclude,
}

-- `FAIL_HOLD if gate.failure_path == HOLD else FAIL_REJECT`
abbrev pub hold_or_reject : FailurePath → StageStatus
hold_or_reject FailurePath.hold = fail_hold
hold_or_reject _ = fail_reject

-- `groups.setdefault(id, []).append(s)`: a dict keeps the order in which its keys came.
unfoldable pub add_to_group :
    (id : Text) → Signal → List (Text × List Signal) → List (Text × List Signal)
add_to_group id s [] = (id, s ∷ []) ∷ []
add_to_group id s ((key, group) ∷ groups) =
    let rest = add_to_group id s groups in
    if key == id then (key, group ++ s ∷ []) ∷ groups else (key, group) ∷ rest

-- The loop that groups the signals, with the groups so far
unfoldable pub group_onto : List (Text × List Signal) → List Signal → List (Text × List Signal)
unfolding add_to_group
group_onto groups [] = groups
group_onto groups (s ∷ ss) = group_onto (add_to_group s.entity_ref.id s groups) ss

-- `next((e for e in context.entities if e.id == id), None)`
unfoldable pub find_entity : (id : Text) → List Entity → Option Entity
find_entity id [] = none
find_entity id (e ∷ es) = let later = find_entity id es in if e.id == id then some e else later

-- What becomes of a research that was synthesized
unfoldable pub file_research : PipelineContext → List Signal → Research → PipelineContext
file_research context entity_signals r =
    if not (is_nil r.signal_ids) && not (is_empty r.question)
    then record context { research_list = context.research_list ++ r ∷ [] }
    else record context {
      rejected_signal_drafts =
          context.rejected_signal_drafts ++ map RejectedDraft.signal entity_signals;
    }

-- What the synthesizer makes of a group: none if the entity is unknown or the synthesizer raises
abbrev pub synthesized :
    ResearchSynthesizer
    → (question : Text) → (entity : Option Entity) → List Signal
    → Option Research
synthesized synthesize question none group = none
synthesized synthesize question (some entity) group = synthesize group entity question

-- The body of the loop over the groups
unfoldable pub synthesize_group :
    ResearchSynthesizer → (question : Text) → PipelineContext → Text × List Signal → Ran (Unit {0})
unfolding find_entity file_research
synthesize_group synthesize question context (id, group) =
    elim (synthesized synthesize question (find_entity id context.entities) group) [
      | none ↦ returned context tt
      | some r ↦ returned (file_research context group r) tt
    ]

-- Without signals there are no groups, as the source's test `and context.signals` has it.
unfoldable pub synthesize_all :
    Option ResearchSynthesizer → (question : Text) → PipelineContext → Ran (Unit {0})
unfolding synthesize_group for_each group_onto
synthesize_all none question context = returned context tt
synthesize_all (some synthesize) question context =
    if is_nil context.signals
    then returned context tt
    else for_each (synthesize_group synthesize question) context (group_onto [] context.signals)

-- The default of the stage's `question`
abbrev pub default_question : Text
default_question = codes "What does this Signal mean?"

-- ResearchSynthesisStage.execute
unfoldable pub research_synthesis :
    Platform → Option ResearchSynthesizer → (question : Text) → Stage
unfolding synthesize_all start conclude
research_synthesis p synthesizer question context =
    and_then (synthesize_all synthesizer question (start p (codes "S4") context))
      (λ done_context done. conclude p (codes "S4") hold_or_reject stage_4_gates done_context)
