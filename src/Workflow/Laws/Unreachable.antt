-- ===== src/Workflow/Laws/Unreachable.antt =====
-- Stage 1 with sources that cannot be reached.
use signalproject.Prelude.{
  ◌≡◌, refl, ap, true, false, Option, none, some, List, [], ◌∷◌, All, ok, add_new, contains,
  Bool-cases, inl, inr,
}
use signalproject.Prelude.Text.{Text, codes}
use signalproject.Core.Lifecycle.Statuses.{SourceStatus, SourceStatus-eq}
use signalproject.Core.Sources.{Source, post_init}
use signalproject.Core.Sources.Laws.{deactivate_total}
use signalproject.Workflow.Types.{CandidateObservation, GateResult, pass_, advanced_result}
use signalproject.Workflow.Equality.{Source-eq}
use signalproject.Workflow.Context.{PipelineContext, emit}
use signalproject.Workflow.Gates.{Platform, check_all}
use signalproject.Workflow.Gates.Early.{s1_g1_validate, is_nil}
use signalproject.Workflow.Gates.Late.{stage_1_gates}
use signalproject.Workflow.Stages.{SourceObserver, returned, for_each, start}
use signalproject.Workflow.Stages.Observation.{
  observation_status, degrade, observe_source, observe_all, source_observation,
}
use signalproject.Workflow.Laws.Running.{Passes, EventsKeep, conclude_pass}

-- An active source that its validation accepts
abbrev pub IsActive : Source → Type 0
IsActive s = (post_init s ≡ ok s) × (s.status ≡ SourceStatus.active)

-- The observer that raises on every source, and the one that finds nothing new
abbrev pub all_down : SourceObserver
all_down s = none

abbrev pub nothing_new : SourceObserver
nothing_new s = some []

abbrev pub IsDown : PipelineContext → Type 0
IsDown c = (c.candidates ≡ []) × (is_nil c.degraded_sources ≡ false)

pub add_new_full : (s : Source) (ss : List Source) → is_nil (add_new s ss) ≡ false
add_new_full s [] = refl
add_new_full s (t ∷ ts) = elim (Bool-cases (contains (t ∷ ts) s)) [
  | inl e ↦ rw e refl
  | inr e ↦ rw e refl
]

pub down : PipelineContext → Source → PipelineContext
down c s = record c {
  degraded_sources = add_new (record s { status = SourceStatus.deactivated }) c.degraded_sources;
}

pub degrade-down :
    (c : PipelineContext) (s : Source) → IsActive s → degrade c s ≡ returned (down c s) tt
unfolding degrade down
degrade-down c s a = rw (degrade, deactivate_total s a.0 a.1) refl

pub observe_down :
    (p : Platform) (c : PipelineContext) (s : Source)
    → IsActive s
    → observe_source p all_down c s ≡ returned (down c s) tt
unfolding observe_source
observe_down p c s a =
    rw ((SourceStatus-eq.beq_iff s.status SourceStatus.active).1 a.1) (degrade-down c s a)

pub down-IsDown : (c : PipelineContext) (s : Source) → c.candidates ≡ [] → IsDown (down c s)
unfolding down
down-IsDown c s h = (h, add_new_full _ c.degraded_sources)

pub observe_rest-IsDown :
    (p : Platform) (ss : List Source) (c : PipelineContext)
    → All IsActive ss
    → IsDown c
    → (next : PipelineContext) × (for_each (observe_source p all_down) c ss ≡ returned next tt)
      × IsDown next
unfolding for_each
observe_rest-IsDown p [] c a h = (c, refl, h)
observe_rest-IsDown p (s ∷ ss) c a h =
    let (last, f, l) = observe_rest-IsDown p ss (down c s) a.1 (down-IsDown c s h.0) in
    (last, rw (observe_down p c s a.0) f, l)

pub observe_some-IsDown :
    (p : Platform) (ss : List Source) (c : PipelineContext)
    → is_nil ss ≡ false
    → All IsActive ss
    → c.candidates ≡ []
    → (next : PipelineContext) × (for_each (observe_source p all_down) c ss ≡ returned next tt)
      × IsDown next
unfolding for_each
observe_some-IsDown p [] c n a h = cc
observe_some-IsDown p (s ∷ ss) c n a h =
    let (last, f, l) = observe_rest-IsDown p ss (down c s) a.1 (down-IsDown c s h) in
    (last, rw (observe_down p c s a.0) f, l)

pub observe_all-IsDown :
    (p : Platform) (c : PipelineContext)
    → is_nil c.sources ≡ false
    → All IsActive c.sources
    → c.candidates ≡ []
    → (next : PipelineContext) × (observe_all p (some all_down) c ≡ returned next tt) × IsDown next
unfolding observe_all
observe_all-IsDown p c n a h = observe_some-IsDown p c.sources c n a h

pub s1_g1_down : (c : PipelineContext) → IsDown c → s1_g1_validate c ≡ pass_
unfolding s1_g1_validate
s1_g1_down c h = elim (Bool-cases (is_nil c.sources)) [
  | inl e ↦ rw (e) refl
  | inr e ↦ rw (e, h.0, h.1) refl
]

pub check_nothing :
    (fault : CandidateObservation → Option Text) (c : PipelineContext)
    → IsDown c
    → (check_all fault c.candidates).passed ≡ true
check_nothing fault c h = ap (λ (xs : List CandidateObservation). (check_all fault xs).passed) h.0

pub stage_1-Passes : (p : Platform) → All (Passes IsDown) (stage_1_gates p)
stage_1-Passes p = (
  λ c h. (ap (λ (r : GateResult). r.passed) (s1_g1_down c h), h),
  (λ c h. (check_nothing _ c h, h), (λ c h. (check_nothing _ c h, h), tt)),
)

pub IsDown-emit : EventsKeep IsDown
unfolding emit
IsDown-emit e c h = h

pub start-observe_all :
    (p : Platform) (c : PipelineContext)
    → is_nil c.sources ≡ false
    → All IsActive c.sources
    → c.candidates ≡ []
    → (next : PipelineContext) × (observe_all p (some all_down) (start p (codes "S1") c)
        ≡ returned next tt)
      × IsDown next
unfolding start emit
start-observe_all p c n a h = observe_all-IsDown p (start p (codes "S1") c) n a h

pub source_observation-all_down :
    (p : Platform) (context : PipelineContext)
    → is_nil context.sources ≡ false
    → All IsActive context.sources
    → context.candidates ≡ []
    → (last : PipelineContext) × (source_observation p (some all_down) context
        ≡ returned last advanced_result)
      × (last.candidates ≡ [])
unfolding source_observation
source_observation-all_down p context n a h =
    let (mid, e, m) = start-observe_all p context n a h in
    let (last, f, l) =
      conclude_pass p (codes "S1") observation_status IsDown IsDown-emit (stage_1_gates p) mid
        (stage_1-Passes p) m in
    (last, rw (e, f) refl, l.0)
