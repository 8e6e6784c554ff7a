-- ===== src/Workflow/Laws/Reachability.antt =====
-- What S1-G1 says of sources that cannot be reached, and of those that have nothing new.
use signalproject.Prelude.{
  ◌≡◌, refl, true, false, some, List, [], ◌∷◌, All, ◌==◌, Bool-cases, inl, inr,
}
use signalproject.Prelude.Text.{Text, codes}
use signalproject.Core.Lifecycle.Statuses.{SourceStatus, SourceStatus-eq}
use signalproject.Core.Sources.{Source}
use signalproject.Workflow.Types.{
  FailurePath, fail_degraded, GateResult, StageResult, fail, advanced_result,
}
use signalproject.Workflow.Equality.{Source-eq}
use signalproject.Workflow.Context.{PipelineContext, emit}
use signalproject.Workflow.Gates.{Platform, Gate}
use signalproject.Workflow.Gates.Early.{s1_g1_validate, is_nil}
use signalproject.Workflow.Gates.Late.{stage_1_gates}
use signalproject.Workflow.Stages.{
  returned, for_each, start, complete, close, conclude, run_gates, first_failure,
}
use signalproject.Workflow.Stages.Observation.{
  observation_status, observe_source, observe_all, source_observation,
}
use signalproject.Workflow.Laws.Unreachable.{
  IsActive, all_down, nothing_new, down, source_observation-all_down,
}

IsQuiet : PipelineContext → Type 0
IsQuiet c = (is_nil c.sources ≡ false) × (c.candidates ≡ []) × (c.degraded_sources ≡ [])

observe_quiet :
    (p : Platform) (c : PipelineContext) (s : Source)
    → observe_source p nothing_new c s ≡ returned c tt
unfolding observe_source for_each
observe_quiet p c s = elim (Bool-cases (s.status == SourceStatus.active)) [
  | inl e ↦ rw e refl
  | inr e ↦ rw e refl
]

observe_rest_quiet :
    (p : Platform) (ss : List Source) (c : PipelineContext)
    → for_each (observe_source p nothing_new) c ss ≡ returned c tt
unfolding for_each
observe_rest_quiet p [] c = refl
observe_rest_quiet p (s ∷ ss) c = rw (observe_quiet p c s) (observe_rest_quiet p ss c)

abbrev nothing_produced : StageResult
nothing_produced = record {
  status = fail_degraded;
  failure_path = FailurePath.degraded;
  failure_reason = some (codes "S1-G1: no candidates produced and no degraded sources");
  retryable = true;
}

s1_g1_quiet :
    (c : PipelineContext)
    → IsQuiet c
    → s1_g1_validate c ≡ fail (codes "S1-G1: no candidates produced and no degraded sources")
unfolding s1_g1_validate IsQuiet
s1_g1_quiet c h = rw (h.0, h.1, h.2) refl

first_failure_quiet :
    (g : Gate) (reason : Text) (rest : List (Gate × GateResult))
    → first_failure ((g, fail reason) ∷ rest) ≡ some (g, fail reason)
unfolding first_failure
first_failure_quiet g reason rest = refl

conclude_quiet :
    (p : Platform) (c : PipelineContext)
    → IsQuiet c
    → (last : PipelineContext) × (conclude p (codes "S1") observation_status (stage_1_gates p) c
        ≡ returned last nothing_produced)
unfolding conclude run_gates first_failure close
conclude_quiet p c h = (
  complete p (codes "S1") fail_degraded ((run_gates p (codes "S1") (stage_1_gates p) c).0),
  rw (s1_g1_quiet c h) refl,
)

start-IsQuiet : (p : Platform) (c : PipelineContext) → IsQuiet c → IsQuiet (start p (codes "S1") c)
unfolding start emit IsQuiet
start-IsQuiet p c h = h

source_observation-nothing_new :
    (p : Platform) (context : PipelineContext)
    → IsQuiet context
    → (last : PipelineContext) × (source_observation p (some nothing_new) context
        ≡ returned last nothing_produced)
unfolding source_observation observe_all
source_observation-nothing_new p context h =
    let begun = start p (codes "S1") context in
    let (last, e) = conclude_quiet p begun (start-IsQuiet p context h) in
    (last, rw (observe_rest_quiet p begun.sources begun, e) refl)

-- S1-G1 takes degraded sources for a success. With at least one source, all of them active, and with
-- no candidate and no degraded source from before: if the observer raises on every source, Stage 1
-- advances; if it reaches every source and finds nothing new, Stage 1 fails as degraded.
pub s1_g1_inverted :
    (p : Platform) (context : PipelineContext)
    → is_nil context.sources ≡ false
    → All IsActive context.sources
    → context.candidates ≡ []
    → context.degraded_sources ≡ []
    → ((last : PipelineContext) × (source_observation p (some all_down) context
          ≡ returned last advanced_result))
      × ((last : PipelineContext) × (r : StageResult) × (source_observation p
              (some nothing_new)
              context
            ≡ returned last r)
          × (r.status ≡ fail_degraded))
unfolding IsQuiet
s1_g1_inverted p context n a h d =
    let (down, e, _) = source_observation-all_down p context n a h in
    let (quiet, f) = source_observation-nothing_new p context (n, h, d) in
    ((down, e), (quiet, nothing_produced, f, refl))
