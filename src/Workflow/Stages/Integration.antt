-- ===== src/Workflow/Stages/Integration.antt =====
-- src/workflow/stages.py: KnowledgeUpdateStage.
use signalproject.Prelude.{
  Bool, ◌||◌, Option, none, some, List, [], ◌∷◌, ◌++◌, remove, add_new, if◌then◌else◌, ◌==◌,
  is_none,
}
use signalproject.Prelude.Text.{codes}
use signalproject.Core.Lifecycle.Statuses.{ThesisStatus, ThesisStatus-eq}
use signalproject.Core.Theses.{Thesis}
use signalproject.Workflow.Types.{
  advance, fail_pending, FailurePath, GateResult, StageResult, advanced_result,
}
use signalproject.Workflow.Equality.{Thesis-eq}
use signalproject.Workflow.Context.{PipelineContext}
use signalproject.Workflow.Gates.{Platform, Gate}
use signalproject.Workflow.Gates.Late.{stage_6_gates}
use signalproject.Workflow.Stages.{
  KnowledgeIntegrator, Ran, returned, raised, and_then, for_each, Stage, start, complete, run_gates,
  first_failure,
}

-- `theses_pending.append(thesis)` and `theses.remove(thesis)`
unfoldable pub postpone : PipelineContext → Thesis → Ran (Unit {0})
postpone context t = elim (remove t context.theses) [
  | none ↦ raised (record context { theses_pending = context.theses_pending ++ t ∷ [] })
  | some rest ↦
      returned (record context { theses = rest; theses_pending = context.theses_pending ++ t ∷ [] })
        tt
]

-- A thesis that is not mature, or that the integrator raises on, is postponed.
unfoldable pub is_postponed : Option KnowledgeIntegrator → Thesis → Bool
is_postponed none t = t.status == ThesisStatus.emerging
is_postponed (some integrate) t = t.status == ThesisStatus.emerging || is_none (integrate t)

-- The body of the loop over the theses
unfoldable pub integrate_thesis :
    Option KnowledgeIntegrator → PipelineContext → Thesis → Ran (Unit {0})
unfolding postpone is_postponed
integrate_thesis integrator context t =
    if is_postponed integrator t then postpone context t else returned context tt

unfoldable pub integrate_all : Option KnowledgeIntegrator → PipelineContext → Ran (Unit {0})
unfolding integrate_thesis for_each
integrate_all integrator context = for_each (integrate_thesis integrator) context context.theses

-- The loop of a failed stage: each thesis that is not pending is added to the pending ones.
unfoldable pub add_all_new : List Thesis → List Thesis → List Thesis
add_all_new [] pending = pending
add_all_new (t ∷ ts) pending = add_all_new ts (add_new t pending)

-- The theses of a failed stage all become pending.
unfoldable pub postpone_rest : PipelineContext → PipelineContext
unfolding add_all_new
postpone_rest context = record context {
  theses = [];
  theses_pending = add_all_new context.theses context.theses_pending;
}

-- The end of the stage after its gates have run
unfoldable pub settle : Platform → PipelineContext → Option (Gate × GateResult) → Ran StageResult
unfolding complete postpone_rest
settle p context none = returned (complete p (codes "S6") advance context) advanced_result
settle p context (some (gate, result)) =
    returned (postpone_rest (complete p (codes "S6") fail_pending context)) (record {
      status = fail_pending;
      failure_path = FailurePath.pending;
      failure_reason = result.reason;
      retryable = gate.retryable;
    })

-- KnowledgeUpdateStage.execute
unfoldable pub knowledge_update : Platform → Option KnowledgeIntegrator → Stage
unfolding integrate_all start run_gates first_failure settle
knowledge_update p integrator context =
    and_then (integrate_all integrator (start p (codes "S6") context)) (λ integrated done.
      let ran = run_gates p (codes "S6") stage_6_gates integrated in
      settle p (ran.0) (first_failure (ran.1)))
