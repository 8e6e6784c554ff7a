-- ===== src/Workflow/Gates.antt =====
-- src/workflow/gates.py: the base class of the gates, and what they use of Python's library.
pub mod Early
pub mod Middle
pub mod Late
use signalproject.Prelude.{ℕ, Bool, Option, none, some, List, [], ◌∷◌}
use signalproject.Prelude.Text.{Text}
use signalproject.Persistence.Ingestion.Times.{Stamp}
use signalproject.Workflow.Types.{FailurePath, GateResult, pass_, fail}
use signalproject.Workflow.Context.{PipelineContext, gate_evaluated, emit}

-- The clock and the library. A reading of the clock may depend on the state it is read in, so two
-- readings may differ: the context changes between them, and `now` counts those in one state.
-- A stamp's instant is in microseconds since the year 1 in UTC, as in Persistence.Ingestion.Times.
pub record Platform : Type 0 where
  -- `now_utc()`
  pub now_utc : PipelineContext → Text
  -- `datetime.now(timezone.utc)`
  pub now : (reading : ℕ) → PipelineContext → ℕ
  -- `datetime.fromisoformat`; none is its ValueError
  pub fromisoformat : Text → Option Stamp
  -- `str.lower`
  pub lower : Text → Text

-- One gate; `validate` returns the context too, since S2-G4 changes it.
pub record Gate : Type 0 where
  pub id : Text
  pub validate : PipelineContext → PipelineContext × GateResult
  pub failure_path : FailurePath
  pub retryable : Bool

-- A gate that only looks
abbrev pub inspecting :
    (PipelineContext → GateResult) → PipelineContext → PipelineContext × GateResult
inspecting verdict context = (context, verdict context)

-- `for x in xs: if bad(x): return fail(reason)`, and after the loop `return pass_()`
abbrev pub check_all {ℓ} : {A : Type ℓ} → (fault : A → Option Text) → List A → GateResult
check_all fault [] = pass_
check_all fault (x ∷ xs) = elim (fault x) [ none ↦ check_all fault xs | some reason ↦ fail reason ]

-- Gate.record_evaluation
unfoldable pub record_evaluation :
    Platform → Gate → PipelineContext → (stage_name : Text) → GateResult → PipelineContext
record_evaluation p gate context stage_name result =
    emit
      (gate_evaluated context.cycle_id stage_name gate.id result.passed result.reason
        (p.now_utc context))
      context
