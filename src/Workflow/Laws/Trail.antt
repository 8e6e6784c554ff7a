-- ===== src/Workflow/Laws/Trail.antt =====
-- The audit trail of a cycle: which events the stages leave, and in which order.
use mathlib.Core.List.{append_assoc, append-nil}
use signalproject.Prelude.{
  ◌≡◌, refl, sym, ap, ◌∙◌, subst, Option, none, some, List, [], ◌∷◌, ◌++◌, map, All,
}
use signalproject.Prelude.Text.{Text}
use signalproject.Workflow.Types.{StageStatus, FailurePath, GateResult, StageResult}
use signalproject.Workflow.Context.{
  WorkflowEvent, stage_started, gate_evaluated, stage_completed, object_routed, workflow_completed,
  workflow_aborted, PipelineContext, emit,
}
use signalproject.Workflow.Gates.{Platform, Gate, record_evaluation}
use signalproject.Workflow.Stages.{
  Ran, returned, raised, context_after, and_then, for_each, run_gates, complete, close, conclude,
  route_to_failure_path,
}

-- What the trail shows of an event: its kind, and the stage and gate it names
pub data Mark : Type 0 where
  started completed : (stage_name : Text) → Mark
  evaluated : (stage_name gate_id : Text) → Mark
  cycle_completed : Mark

abbrev pub mark_of : WorkflowEvent → List Mark
mark_of (stage_started cycle_id stage_name started_at) = started stage_name ∷ []
mark_of (gate_evaluated cycle_id stage_name gate_id passed reason evaluated_at) =
    evaluated stage_name gate_id ∷ []
mark_of (stage_completed cycle_id stage_name status completed_at) = completed stage_name ∷ []
mark_of (object_routed cycle_id stage_name object_id object_kind destination reason routed_at) = []
mark_of (workflow_completed cycle_id started_at completed_at signals research theses) =
    cycle_completed ∷ []
mark_of (workflow_aborted cycle_id stage_name reason aborted_at) = []

-- The trail of a list of events, without those that route an object
abbrev pub marks : List WorkflowEvent → List Mark
marks [] = []
marks (e ∷ es) = mark_of e ++ marks es

-- The trail of a context
abbrev pub trail : PipelineContext → List Mark
trail c = marks c.events

marks-append : (es fs : List WorkflowEvent) → marks (es ++ fs) ≡ marks es ++ marks fs
marks-append [] fs = refl
marks-append (e ∷ es) fs =
    ap (λ (ms : List Mark). mark_of e ++ ms) (marks-append es fs)
    ∙ sym (append_assoc (mark_of e) (marks es) (marks fs))

pub trail-emit : (e : WorkflowEvent) (c : PipelineContext) → trail (emit e c) ≡ trail c ++ mark_of e
unfolding emit
trail-emit e c =
    marks-append c.events (e ∷ []) ∙ ap (λ (ms : List Mark). trail c ++ ms) (append-nil (mark_of e))

abbrev pub KeepsTrail : {X : Type 0} → (PipelineContext → X → PipelineContext) → Type 0
KeepsTrail {X} step = (c : PipelineContext) (x : X) → trail (step c x) ≡ trail c

abbrev pub gate_marks : (name : Text) → List Gate → List Mark
gate_marks name gates = map (λ (g : Gate). evaluated name g.id) gates

-- The marks of a whole stage
abbrev pub stage_marks : (name : Text) → List Gate → List Mark
stage_marks name gates = started name ∷ (gate_marks name gates ++ completed name ∷ [])

-- A call that returns, and leaves a trail
abbrev pub Concludes : List Mark → Ran StageResult → Type 0
Concludes ms (returned c result) = trail c ≡ ms
Concludes ms (raised c) = ⊥

module _ (p : Platform) (name : Text) where
  pub run_gates-trail :
      (gates : List Gate) (c : PipelineContext)
      → All (λ g. (d : PipelineContext) → trail ((g.validate d).0) ≡ trail d) gates
      → trail ((run_gates p name gates c).0) ≡ trail c ++ gate_marks name gates
  unfolding run_gates record_evaluation
  run_gates-trail [] c h = sym (append-nil (trail c))
  run_gates-trail (g ∷ gates) c h =
      run_gates-trail gates (record_evaluation p g ((g.validate c).0) name ((g.validate c).1)) h.1
      ∙ ap (λ (ms : List Mark). ms ++ gate_marks name gates)
          (trail-emit _ ((g.validate c).0)
            ∙ ap (λ (ms : List Mark). ms ++ evaluated name g.id ∷ []) (h.0 c))
      ∙ append_assoc (trail c) (evaluated name g.id ∷ []) (gate_marks name gates)

  close-trail :
      (status_of : FailurePath → StageStatus) (c : PipelineContext) (o : Option (Gate × GateResult))
      → Concludes (trail c ++ completed name ∷ []) (close p name status_of c o)
  unfolding close complete
  close-trail status_of c none = trail-emit _ c
  close-trail status_of c (some (gate, result)) = trail-emit _ c

  pub conclude-trail :
      (status_of : FailurePath → StageStatus) (gates : List Gate) (c : PipelineContext)
      → All (λ g. (d : PipelineContext) → trail ((g.validate d).0) ≡ trail d) gates
      → Concludes
          (trail c ++ (gate_marks name gates ++ completed name ∷ []))
          (conclude p name status_of gates c)
  unfolding conclude
  conclude-trail status_of gates c h =
      subst (λ (ms : List Mark). Concludes ms (conclude p name status_of gates c))
        (ap (λ (ms : List Mark). ms ++ completed name ∷ []) (run_gates-trail gates c h)
          ∙ append_assoc (trail c) (gate_marks name gates) (completed name ∷ []))
        (close-trail status_of _ _)

-- A call and what follows it keep the trail, if both do.
pub and_then-trail :
    {A B : Type 0} (r : Ran A) (next : PipelineContext → A → Ran B) (ms : List Mark)
    → trail (context_after r) ≡ ms
    → ((c : PipelineContext) (a : A) → trail (context_after (next c a)) ≡ trail c)
    → trail (context_after (and_then r next)) ≡ ms
and_then-trail (returned c a) next ms h k = k c a ∙ h
and_then-trail (raised c) next ms h k = h

pub for_each-trail :
    {X : Type 0} (body : PipelineContext → X → Ran (Unit {0}))
    → KeepsTrail (λ c x. context_after (body c x))
    → KeepsTrail (λ c xs. context_after (for_each body c xs))
unfolding for_each
for_each-trail body k c [] = refl
for_each-trail body k c (x ∷ xs) =
    and_then-trail (body c x) (λ next done. for_each body next xs) (trail c) (k c x)
      (λ next done. for_each-trail body k next xs)

pub route_to_failure_path-trail :
    (p : Platform) (name : Text) (c : PipelineContext) (g : Gate) (reason object_id kind : Text)
    → trail (route_to_failure_path p name c g reason object_id kind) ≡ trail c
unfolding route_to_failure_path
route_to_failure_path-trail p name c g reason object_id kind = trail-emit _ c ∙ append-nil (trail c)
