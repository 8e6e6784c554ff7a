-- ===== src/Workflow/Laws/Kept.antt =====
-- Stage 6 as a whole: it loses no thesis, and keeps none that is emerging.
use signalproject.Workflow.Pipeline.{Interfaces, run, run_stages, stages}
use signalproject.Prelude.{
  All-map, not-true, subst, contains-append, contains-keep, contains-add_new, ◌≡◌, refl, sym, ap,
  ◌∙◌, Bool, true, false, ◌||◌, List, [], ◌∷◌, arith, keep, keep-All, contains, All, some, Option,
  ◌==◌, add_new, none, Bool-cases, inl, inr, if◌then◌else◌,
}
use signalproject.Prelude.Text.{codes}
use signalproject.Core.Lifecycle.Statuses.{ThesisStatus, ThesisStatus-eq}
use signalproject.Core.Theses.{Thesis}
use signalproject.Workflow.Equality.{Thesis-eq}
use signalproject.Workflow.Context.{PipelineContext, emit}
use signalproject.Workflow.Gates.{Platform, Gate}
use signalproject.Workflow.Types.{GateResult}
use signalproject.Workflow.Gates.Late.{stage_6_gates}
use signalproject.Workflow.Stages.{
  KnowledgeIntegrator, Ran, and_then, context_after, start, run_gates, first_failure, complete,
}
use signalproject.Workflow.Stages.Observation.{source_observation}
use signalproject.Workflow.Stages.Production.{evidence_production}
use signalproject.Workflow.Stages.Extraction.{signal_extraction}
use signalproject.Workflow.Stages.Synthesis.{research_synthesis}
use signalproject.Workflow.Stages.Crystallization.{thesis_update}
use signalproject.Workflow.Stages.Integration.{
  is_postponed, add_all_new, postpone_rest, settle, knowledge_update,
}
use signalproject.Workflow.Laws.Running.{run_gates_keep}
use signalproject.Workflow.Laws.Postponing.{integrated, sorted, integrate_all_lem}

contains-add_all_new :
    (t : Thesis) (ts pending : List Thesis)
    → contains (add_all_new ts pending) t ≡ (contains ts t || contains pending t)
unfolding add_all_new
contains-add_all_new t [] pending = refl
contains-add_all_new t (x ∷ ts) pending =
    ground (arith, contains-add_all_new t ts (add_new x pending), contains-add_new t x pending)

-- Where a thesis of Stage 6 can be
abbrev pub is_held : PipelineContext → Thesis → Bool
is_held c t = contains c.theses t || contains c.theses_pending t

settle-is_held :
    (p : Platform) (c : PipelineContext) (o : Option (Gate × GateResult)) (t : Thesis)
    → is_held (context_after (settle p c o)) t ≡ is_held c t
unfolding settle complete emit postpone_rest
settle-is_held p c none t = refl
settle-is_held p c (some (gate, result)) t = contains-add_all_new t c.theses c.theses_pending

sorted-is_held :
    (i : Option KnowledgeIntegrator) (c : PipelineContext) (t : Thesis)
    → is_held c t ≡ true
    → is_held (sorted i c) t ≡ true
sorted-is_held i c t h = ground (
  arith,
  contains-keep (is_postponed i) t c.theses,
  contains-append t c.theses_pending (keep (is_postponed i) c.theses),
)

-- The whole stage, its loop computed
knowledge_update_lem :
    (p : Platform) (i : Option KnowledgeIntegrator) (context : PipelineContext)
    → knowledge_update p i context ≡ (
        let ran =
          run_gates p (codes "S6") stage_6_gates (sorted i (start p (codes "S6") context)) in
        settle p (ran.0) (first_failure (ran.1)))
unfolding knowledge_update
knowledge_update_lem p i context =
    ap
      (λ (r : Ran (Unit {0})). and_then r (λ integrated done.
        let ran = run_gates p (codes "S6") stage_6_gates integrated in
        settle p (ran.0) (first_failure (ran.1))))
      (integrate_all_lem i (start p (codes "S6") context))

gates-is_held :
    (p : Platform) (c : PipelineContext) (t : Thesis)
    → is_held ((run_gates p (codes "S6") stage_6_gates c).0) t ≡ is_held c t
unfolding emit
gates-is_held p c t =
    run_gates_keep p (codes "S6") (λ d. is_held d t) (λ e d. refl) stage_6_gates c
      (λ d. refl, (λ d. refl, (λ d. refl, tt)))

-- Stage 6 loses no thesis: one that is among the theses or the pending ones before it is so after it,
-- whatever the integrator and the gates do.
pub knowledge_update_kept :
    (p : Platform) (i : Option KnowledgeIntegrator) (context : PipelineContext) (t : Thesis)
    → is_held context t ≡ true
    → is_held (context_after (knowledge_update p i context)) t ≡ true
unfolding start emit
knowledge_update_kept p i context t h = rw (knowledge_update_lem p i context) (
    settle-is_held p _ _ t
    ∙ gates-is_held p (sorted i (start p (codes "S6") context)) t
    ∙ sorted-is_held i (start p (codes "S6") context) t h)

abbrev pub IsGrown : Thesis → Type 0
IsGrown t = (t.status == ThesisStatus.emerging) ≡ false

integrated-IsGrown :
    (i : Option KnowledgeIntegrator) (t : Thesis) → integrated i t ≡ true → IsGrown t
unfolding is_postponed
integrated-IsGrown none t h = not-true _ h
integrated-IsGrown (some integrate) t h = ground arith

settle-IsGrown :
    (p : Platform) (c : PipelineContext) (o : Option (Gate × GateResult))
    → All IsGrown c.theses
    → All IsGrown (context_after (settle p c o)).theses
unfolding settle complete emit postpone_rest
settle-IsGrown p c none h = h
settle-IsGrown p c (some (gate, result)) h = tt

-- Behind Stage 6 no thesis of the context is emerging.
pub knowledge_update-IsGrown :
    (p : Platform) (i : Option KnowledgeIntegrator) (context : PipelineContext)
    → All IsGrown (context_after (knowledge_update p i context)).theses
unfolding start emit
knowledge_update-IsGrown p i context = rw (knowledge_update_lem p i context) (
    settle-IsGrown p _ _ (
      subst (All IsGrown)
        (sym (
          run_gates_keep p (codes "S6") (λ d. d.theses) (λ e d. refl) stage_6_gates
            (sorted i (start p (codes "S6") context)) (λ d. refl, (λ d. refl, (λ d. refl, tt)))))
        (All-map (integrated-IsGrown i) (keep (integrated i) context.theses)
          (keep-All (integrated i) context.theses))))

All-IsGrown : (t : Thesis) (ts : List Thesis) → All IsGrown ts → contains ts t ≡ true → IsGrown t
All-IsGrown t [] h k = absurd (cc k)
All-IsGrown t (x ∷ xs) h k = elim (Bool-cases (x == t)) [
  | inl e ↦ subst IsGrown ((Thesis-eq.beq_iff x t).0 e) (h.0)
  | inr e ↦ All-IsGrown t xs (h.1) (ground arith)
]

-- A held thesis that is emerging is among the pending ones, when no thesis of the context is.
pending_or_grown :
    (c : PipelineContext) (t : Thesis)
    → All IsGrown c.theses
    → is_held c t ≡ true
    → (if t.status == ThesisStatus.emerging then contains c.theses_pending t else true) ≡ true
pending_or_grown c t grown held = elim (Bool-cases (contains c.theses t)) [
  | inl k ↦ rw (All-IsGrown t c.theses grown k) refl
  | inr k ↦ ground (arith, held, k)
]

-- The context that the first five stages leave
abbrev pub before_integration : Platform → Interfaces → PipelineContext → PipelineContext
before_integration p i context =
    run_stages
      (source_observation p i.observer
        ∷ evidence_production p i.producer
        ∷ signal_extraction p i.extractor i.entity_resolver
        ∷ research_synthesis p i.synthesizer i.question
        ∷ thesis_update p i.crystallizer i.existing_theses_provider
        ∷ [])
      context

-- For a thesis that the first five stages of a cycle leave among the theses or the pending ones,
-- whatever the interfaces return and wherever they raise: behind the cycle it is still among them, and
-- if it is emerging it is among the pending ones; and no thesis of the context is emerging.
pub run-IsGrown :
    (p : Platform) (i : Interfaces) (context : PipelineContext) (t : Thesis)
    → is_held (before_integration p i context) t ≡ true
    → (is_held ((run p (stages p i) context).0) t ≡ true)
      × ((if t.status == ThesisStatus.emerging
            then contains ((run p (stages p i) context).0).theses_pending t
            else true)
          ≡ true)
      × All IsGrown ((run p (stages p i) context).0).theses
unfolding run run_stages stages emit
run-IsGrown p i context t h =
    let before = before_integration p i context in
    let grown = knowledge_update-IsGrown p i.integrator before in
    let held = knowledge_update_kept p i.integrator before t h in
    (
      held,
      pending_or_grown (context_after (knowledge_update p i.integrator before)) t grown held,
      grown,
    )
