-- ===== src/Workflow/Stages/Observation.antt =====
-- src/workflow/stages.py: SourceObservationStage.
use signalproject.Prelude.{
  ℕ, Bool, false, not, ◌&&◌, Option, none, some, [], ◌∷◌, ◌++◌, ltb, ok, err, if◌then◌else◌, ◌==◌,
  add_new,
}
use signalproject.Prelude.Text.{codes}
use signalproject.Persistence.Ingestion.Times.{Stamp, naive, aware}
use signalproject.Core.Lifecycle.Statuses.{SourceStatus, SourceStatus-eq}
use signalproject.Core.Sources.{Source, transition}
use signalproject.Workflow.Types.{
  StageStatus, fail_degraded, fail_flag, FailurePath, CandidateObservation,
}
use signalproject.Workflow.Equality.{Source-eq}
use signalproject.Workflow.Context.{PipelineContext}
use signalproject.Workflow.Gates.{Platform}
use signalproject.Workflow.Gates.Early.{is_blank, age_days}
use signalproject.Workflow.Gates.Late.{stage_1_gates}
use signalproject.Workflow.Stages.{
  SourceObserver, Ran, returned, raised, and_then, for_each, Stage, start, conclude,
}

-- `FAIL_DEGRADED if gate.failure_path == DEGRADED else FAIL_FLAG`
abbrev pub observation_status : FailurePath → StageStatus
observation_status FailurePath.degraded = fail_degraded
observation_status _ = fail_flag

-- The tests on a candidate's timestamp; the clock is read twice.
abbrev pub is_plausible : (compared aged : ℕ) → Option Stamp → Bool
is_plausible compared aged none = false
is_plausible compared aged (some (naive t)) = false
is_plausible compared aged (some (aware utcoffset t)) =
    not (ltb compared t) && not (ltb 30 (age_days aged t))

-- The handler of an observer's exception
unfoldable pub degrade : PipelineContext → Source → Ran (Unit {0})
unfolding transition
degrade context source = elim (transition source SourceStatus.deactivated) [
  | ok deactivated ↦
      returned (record context { degraded_sources = add_new deactivated context.degraded_sources })
        tt
  | err e ↦ raised context
]

module _ (p : Platform) where
  unfoldable pub admits : PipelineContext → CandidateObservation → Bool
  admits context c =
      not (is_blank c.content)
      && is_plausible (p.now 0 context) (p.now 1 context) (p.fromisoformat c.source_timestamp)

  -- The body of the loop over one source's candidates
  unfoldable pub sort_candidate : PipelineContext → CandidateObservation → Ran (Unit {0})
  unfolding admits
  sort_candidate context c =
      if admits context c
      then returned (record context { candidates = context.candidates ++ c ∷ [] }) tt
      else returned (record context { flagged_candidates = context.flagged_candidates ++ c ∷ [] })
          tt

  -- The body of the loop over the sources
  unfoldable pub observe_source : SourceObserver → PipelineContext → Source → Ran (Unit {0})
  unfolding sort_candidate degrade for_each
  observe_source observe context source =
      if not (source.status == SourceStatus.active)
      then returned context tt
      else elim (observe source) [
        | none ↦ degrade context source
        | some candidates ↦ for_each sort_candidate context candidates
      ]

  unfoldable pub observe_all : Option SourceObserver → PipelineContext → Ran (Unit {0})
  unfolding observe_source for_each
  observe_all none context = returned context tt
  observe_all (some observe) context = for_each (observe_source observe) context context.sources

  -- SourceObservationStage.execute
  unfoldable pub source_observation : Option SourceObserver → Stage
  unfolding observe_all start conclude
  source_observation observer context =
      and_then (observe_all observer (start p (codes "S1") context))
        (λ observed done. conclude p (codes "S1") observation_status (stage_1_gates p) observed)
