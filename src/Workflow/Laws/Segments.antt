-- ===== src/Workflow/Laws/Segments.antt =====
-- The trail of a list of stages: whole for one that returns, cut off for one that an exception leaves.
use mathlib.Core.List.{append_assoc, append-nil}
use signalproject.Prelude.{◌≡◌, sym, ap, ◌∙◌, subst, Option, none, some, List, [], ◌∷◌, ◌++◌}
use signalproject.Prelude.Text.{Text, codes}
use signalproject.Workflow.Types.{GateResult, StageResult}
use signalproject.Workflow.Context.{PipelineContext}
use signalproject.Workflow.Gates.{Platform, Gate}
use signalproject.Workflow.Gates.Early.{s2_g4_validate}
use signalproject.Workflow.Stages.{
  Ran, returned, raised, context_after, and_then, Stage, start, complete,
}
use signalproject.Workflow.Stages.Integration.{settle, postpone_rest}
use signalproject.Workflow.Pipeline.{run_stages}
use signalproject.Workflow.Laws.Trail.{
  Mark, started, completed, Concludes, trail, trail-emit, gate_marks, stage_marks,
}
use signalproject.Workflow.Laws.Retrieval.{s2_g4_lem}

-- What a stage leaves: its whole trail if it returns, and its start alone if an exception leaves it
abbrev pub segment : (name : Text) → List Gate → Ran StageResult → List Mark
segment name gates (returned c result) = stage_marks name gates
segment name gates (raised c) = started name ∷ []

abbrev pub IsStage : (name : Text) → List Gate → Stage → Type 0
IsStage name gates stage =
    (c : PipelineContext)
    → trail (context_after (stage c)) ≡ trail c ++ segment name gates (stage c)

-- The trail of a list of stages, each with its name and its gates, one after the other from a context
abbrev pub segments : List (Text × List Gate × Stage) → PipelineContext → List Mark
segments [] c = []
segments ((name, gates, stage) ∷ rest) c =
    segment name gates (stage c) ++ segments rest (context_after (stage c))

abbrev pub stages_of : List (Text × List Gate × Stage) → List Stage
stages_of [] = []
stages_of ((name, gates, stage) ∷ rest) = stage ∷ stages_of rest

abbrev pub AreStages : List (Text × List Gate × Stage) → Type 0
AreStages [] = Unit
AreStages ((name, gates, stage) ∷ rest) = IsStage name gates stage × AreStages rest

pub run_stages-segments :
    (ss : List (Text × List Gate × Stage)) (c : PipelineContext)
    → AreStages ss
    → trail (run_stages (stages_of ss) c) ≡ trail c ++ segments ss c
unfolding run_stages
run_stages-segments [] c h = sym (append-nil (trail c))
run_stages-segments ((name, gates, stage) ∷ rest) c h =
    run_stages-segments rest (context_after (stage c)) h.1
    ∙ ap (λ (ms : List Mark). ms ++ segments rest (context_after (stage c))) (h.0 c)
    ∙ append_assoc (trail c) (segment name gates (stage c))
        (segments rest (context_after (stage c)))

concluded :
    (name : Text) (gates : List Gate) (c : PipelineContext) (r : Ran StageResult)
    → Concludes (trail c ++ stage_marks name gates) r
    → trail (context_after r) ≡ trail c ++ segment name gates r
concluded name gates c (returned d result) h = h
concluded name gates c (raised d) h = absurd h

-- A stage that runs its loop and, if the loop returns, its gates
pub two_parts :
    (name : Text) (gates : List Gate) (c : PipelineContext) (loop : Ran (Unit {0}))
    (next : PipelineContext → Unit {0} → Ran StageResult)
    → trail (context_after loop) ≡ trail c ++ started name ∷ []
    → ((d : PipelineContext) (done : Unit {0})
        → Concludes (trail d ++ (gate_marks name gates ++ completed name ∷ [])) (next d done))
    → trail (context_after (and_then loop next))
      ≡ trail c ++ segment name gates (and_then loop next)
two_parts name gates c (returned d done) next h k = concluded name gates c (next d done) (
    subst (λ (ms : List Mark). Concludes ms (next d done))
      (ap (λ (ns : List Mark). ns ++ (gate_marks name gates ++ completed name ∷ [])) h
        ∙ append_assoc (trail c) (started name ∷ []) (gate_marks name gates ++ completed name ∷ []))
      (k d done))
two_parts name gates c (raised d) next h k = h

pub start-trail :
    (p : Platform) (name : Text) (c : PipelineContext)
    → trail (start p name c) ≡ trail c ++ started name ∷ []
unfolding start
start-trail p name c = trail-emit _ c

pub settle-trail :
    (p : Platform) (c : PipelineContext) (o : Option (Gate × GateResult))
    → Concludes (trail c ++ completed (codes "S6") ∷ []) (settle p c o)
unfolding settle complete postpone_rest
settle-trail p c none = trail-emit _ c
settle-trail p c (some (gate, result)) = trail-emit _ c

pub s2_g4-trail : (c : PipelineContext) → trail ((s2_g4_validate c).0) ≡ trail c
s2_g4-trail c = ap trail (s2_g4_lem c)
