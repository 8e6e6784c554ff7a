-- ===== src/Workflow/Laws/Concrete.antt =====
-- Stage 5 records concrete theses, and how it can end.
use signalproject.Prelude.{
  subst, ◌≡◌, refl, sym, ap, ◌∙◌, inl, inr, Bool, true, false, Option, none, List, [], ◌∷◌, All,
  All-map, Bool-cases,
}
use signalproject.Prelude.Text.{Text, Text-eq, codes}
use signalproject.Core.Theses.{Thesis}
use signalproject.Workflow.Types.{
  advanced_result, pass_, StageStatus, advance, fail_hold, fail_reject, FailurePath, GateResult,
  StageResult,
}
use signalproject.Workflow.Context.{PipelineContext, emit}
use signalproject.Workflow.Gates.{Platform, Gate, check_all, record_evaluation}
use signalproject.Workflow.Gates.Middle.{entity_ids}
use signalproject.Workflow.Gates.Late.{
  s5_g1, s5_g2, s5_g3, s5_g4, s5_g1_fault, s5_g2_fault, s5_g3_fault, s5_g4_fault, stage_5_gates,
}
use signalproject.Workflow.Stages.{
  ThesisCrystallizer, ThesesProvider, returned, start, complete, close, conclude, run_gates,
  first_failure,
}
use signalproject.Workflow.Stages.Synthesis.{hold_or_reject}
use signalproject.Workflow.Stages.Crystallization.{update_all, thesis_update}
use signalproject.Workflow.Laws.Running.{run_gates_keep, IgnoresEvents, check_all_passes}
use signalproject.Workflow.Laws.Recorded.{
  IsConcrete, AllConcrete, IsProvider, update_rest-AllConcrete,
}

concrete_passes :
    (fault : Thesis → Option Text)
    → ((t : Thesis) → IsConcrete t → fault t ≡ none)
    → (ts : List Thesis) → All IsConcrete ts
    → check_all fault ts ≡ pass_
concrete_passes fault f ts h = check_all_passes fault ts (All-map f ts h)

IsConcrete-s5_g1 : (t : Thesis) → IsConcrete t → s5_g1_fault t ≡ none
unfolding s5_g1_fault
IsConcrete-s5_g1 t h = rw h.written refl

IsConcrete-s5_g2 : (t : Thesis) → IsConcrete t → s5_g2_fault t ≡ none
unfolding s5_g2_fault
IsConcrete-s5_g2 t h = rw h.long refl

-- How Stage 5 ends: it advances, it holds for an unknown entity, or it rejects for good for want of
-- research.
pub data IsOutcome : StageResult → Type 0 where
  advances : {r : StageResult} → r.status ≡ advance → IsOutcome r
  holds : {r : StageResult} → r.status ≡ fail_hold → r.retryable ≡ true → IsOutcome r
  rejects : {r : StageResult} → r.status ≡ fail_reject → r.retryable ≡ false → IsOutcome r

theses-emit : IgnoresEvents (λ d. d.theses)
unfolding emit
theses-emit e d = refl

start-AllConcrete :
    (p : Platform) (c : PipelineContext) → AllConcrete c → AllConcrete (start p (codes "S5") c)
unfolding start emit
start-AllConcrete p c h = h

abbrev failure : StageStatus → FailurePath → Option Text → Bool → StageResult
failure status path reason retryable = record {
  status = status;
  failure_path = path;
  failure_reason = reason;
  retryable = retryable;
}

close-IsOutcome :
    (p : Platform) (c : PipelineContext) (registered grounded : GateResult)
    → (last : PipelineContext) × (r : StageResult) × (close p (codes "S5") hold_or_reject c (
          first_failure
            ((s5_g1, pass_) ∷ (s5_g2, pass_) ∷ (s5_g3, registered) ∷ (s5_g4, grounded) ∷ []))
        ≡ returned last r)
      × IsOutcome r
      × (last.theses ≡ c.theses)
unfolding close first_failure complete emit
close-IsOutcome p c registered grounded = elim (Bool-cases registered.passed) [
  | inl a ↦ elim (Bool-cases grounded.passed) [
    | inl b ↦
        (complete p (codes "S5") advance c, advanced_result, rw (a, b) refl, advances refl, refl)
    | inr b ↦ (
      complete p (codes "S5") fail_reject c,
      failure fail_reject FailurePath.reject grounded.reason false,
      rw (a, b) refl,
      rejects refl refl,
      refl,
    )
  ]
  | inr a ↦ (
    complete p (codes "S5") fail_hold c,
    failure fail_hold FailurePath.hold registered.reason true,
    rw a refl,
    holds refl refl,
    refl,
  )
]

run_gates-concrete :
    (p : Platform) (c : PipelineContext)
    → AllConcrete c
    → (run_gates p (codes "S5") stage_5_gates c).1
      ≡ (s5_g1, pass_)
        ∷ (s5_g2, pass_)
        ∷ (s5_g3, check_all (s5_g3_fault (entity_ids c)) c.theses)
        ∷ (s5_g4, check_all s5_g4_fault c.theses)
        ∷ []
unfolding run_gates record_evaluation emit
run_gates-concrete p c h =
    rw
      (
        concrete_passes s5_g1_fault IsConcrete-s5_g1 c.theses h,
        concrete_passes s5_g2_fault IsConcrete-s5_g2 c.theses h,
      )
      refl

conclude-IsOutcome :
    (p : Platform) (c : PipelineContext)
    → AllConcrete c
    → (last : PipelineContext) × (r : StageResult) × (conclude p
          (codes "S5")
          hold_or_reject
          stage_5_gates
          c
        ≡ returned last r)
      × IsOutcome r
      × AllConcrete last
unfolding conclude
conclude-IsOutcome p c h =
    let (last, r, e, o, k) =
      close-IsOutcome p ((run_gates p (codes "S5") stage_5_gates c).0)
        (check_all (s5_g3_fault (entity_ids c)) c.theses) (check_all s5_g4_fault c.theses) in
    (
      last,
      r,
      ap
            (λ (rs : List (Gate × GateResult)).
              close p (codes "S5") hold_or_reject ((run_gates p (codes "S5") stage_5_gates c).0)
                (first_failure rs))
            (run_gates-concrete p c h)
          ∙ e,
      o,
      subst (All IsConcrete)
          (sym (
            k
            ∙ run_gates_keep p (codes "S5") (λ d. d.theses) theses-emit stage_5_gates c
                (λ d. refl, (λ d. refl, (λ d. refl, (λ d. refl, tt))))))
          h,
    )

update_all_lem :
    (p : Platform) (crystallizer : Option ThesisCrystallizer) (provider : ThesesProvider)
    (c : PipelineContext)
    → IsProvider provider
    → AllConcrete c
    → (next : PipelineContext) × (update_all p crystallizer provider c ≡ returned next tt)
      × AllConcrete next
unfolding update_all
update_all_lem p crystallizer provider c q h =
    update_rest-AllConcrete p crystallizer provider q c.research_list c h

-- From theses that are concrete, and with a provider that answers, Stage 5 returns, whatever the
-- crystallizer returns and wherever it raises, and every thesis then in the context is concrete: its
-- interpretation is not blank and has at least 20 characters without the spaces around it. The stage
-- advances, or holds, or rejects in a way that is not retryable: its first two gates never fail.
pub thesis_update-IsOutcome :
    (p : Platform) (crystallizer : Option ThesisCrystallizer) (provider : ThesesProvider)
    (context : PipelineContext)
    → IsProvider provider
    → AllConcrete context
    → (last : PipelineContext) × (r : StageResult) × (thesis_update p crystallizer provider context
        ≡ returned last r)
      × IsOutcome r
      × AllConcrete last
unfolding thesis_update
thesis_update-IsOutcome p crystallizer provider context q h =
    let (mid, e, m) =
      update_all_lem p crystallizer provider (start p (codes "S5") context) q
        (start-AllConcrete p context h) in
    let (last, r, f, o, l) = conclude-IsOutcome p mid m in (last, r, rw (e, f) refl, o, l)
