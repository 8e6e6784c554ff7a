-- ===== src/Workflow/Laws/Attributed.antt =====
-- The gates of Stage 2 pass on evidences that are attributed.
use signalproject.Prelude.{◌≡◌, refl, ap, true, Option, none, [], arith, All-keep, All, All-map, ok}
use signalproject.Prelude.Text.{Text}
use signalproject.Core.Evidence.{Evidence, quality_post_init}
use signalproject.Workflow.Types.{GateResult}
use signalproject.Workflow.Equality.{CandidateObservation-eq}
use signalproject.Workflow.Context.{PipelineContext}
use signalproject.Workflow.Gates.{check_all}
use signalproject.Workflow.Gates.Early.{s2_g1_fault, s2_g2_fault, s2_g3_fault, s2_g4_validate}
use signalproject.Workflow.Gates.Late.{stage_2_gates}
use signalproject.Workflow.Stages.Production.{is_attributed}
use signalproject.Workflow.Laws.Retrieval.{is_retrievable, s2_g4_lem}
use signalproject.Workflow.Laws.Running.{Passes, check_all_passes}

-- An evidence that the first three gates let pass
abbrev pub IsAttributed : Evidence → Type 0
IsAttributed e = (is_attributed e ≡ true) × (quality_post_init e.quality ≡ ok e.quality)

pub IsAttributed-s2_g1 : (e : Evidence) → IsAttributed e → s2_g1_fault e ≡ none
unfolding s2_g1_fault is_attributed
IsAttributed-s2_g1 e h = ground arith

pub IsAttributed-s2_g2 : (e : Evidence) → IsAttributed e → s2_g2_fault e ≡ none
unfolding s2_g2_fault is_attributed
IsAttributed-s2_g2 e h = ground arith

pub IsAttributed-s2_g3 : (e : Evidence) → IsAttributed e → s2_g3_fault e ≡ none
unfolding s2_g3_fault quality_post_init
IsAttributed-s2_g3 e h = ground arith

abbrev pub AllAttributed : PipelineContext → Type 0
AllAttributed c = All IsAttributed c.evidences

-- What Stage 2's gates find behind its loop
abbrev pub IsConsumed : PipelineContext → Type 0
IsConsumed c = (c.candidates ≡ []) × AllAttributed c

pub gate_passes :
    (fault : Evidence → Option Text)
    → ((e : Evidence) → IsAttributed e → fault e ≡ none)
    → (c : PipelineContext) → IsConsumed c
    → ((check_all fault c.evidences).passed ≡ true) × IsConsumed c
gate_passes fault f c h = (
  ap (λ (r : GateResult). r.passed)
      (check_all_passes fault c.evidences (All-map f c.evidences h.1)),
  h,
)

pub s2_g4-IsConsumed : (c : PipelineContext) → IsConsumed c → IsConsumed ((s2_g4_validate c).0)
s2_g4-IsConsumed c h = rw (s2_g4_lem c) (h.0, All-keep IsAttributed is_retrievable c.evidences h.1)

pub stage_2-Passes : All (Passes IsConsumed) stage_2_gates
unfolding s2_g4_validate
stage_2-Passes = (
  gate_passes s2_g1_fault IsAttributed-s2_g1,
  (
    gate_passes s2_g2_fault IsAttributed-s2_g2,
    (gate_passes s2_g3_fault IsAttributed-s2_g3, (λ c h. (refl, s2_g4-IsConsumed c h), tt)),
  ),
)
