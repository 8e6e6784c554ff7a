-- ===== src/Workflow/Types.antt =====
-- src/workflow/types.py: the outcomes of gates and stages, and a candidate observation.
use signalproject.Prelude.{
  Bool, true, false, not, Option, Result, ok, ◌>>◌, raise_if, Fault, value_error, [], ◌∷◌,
  if◌then◌else◌, ◌&&◌,
}
use signalproject.Prelude.Text.{Text, codes, is_empty}
use signalproject.Persistence.Ingestion.Messages.{is_space}

pub data StageStatus : Type 0 where
  advance fail_reject fail_hold fail_pending fail_degraded fail_flag : StageStatus

pub data FailurePath : Type 0 where
  reject hold pending degraded flag none : FailurePath

-- `FailurePath.value`
abbrev pub path_value : FailurePath → Text
path_value FailurePath.reject = codes "reject"
path_value FailurePath.hold = codes "hold"
path_value FailurePath.pending = codes "pending"
path_value FailurePath.degraded = codes "degraded"
path_value FailurePath.flag = codes "flag"
path_value FailurePath.none = codes "none"

pub record GateResult : Type 0 where
  pub passed : Bool
  pub reason : Option Text

abbrev pub pass_ : GateResult
pass_ = record { passed = true; reason = Option.none }

abbrev pub fail : (reason : Text) → GateResult
fail reason = record { passed = false; reason = Option.some reason }

-- The `output` dictionary is left out: no stage sets it and nothing reads it.
pub record StageResult : Type 0 where
  pub status : StageStatus
  pub failure_path : FailurePath
  pub failure_reason : Option Text
  pub retryable : Bool

-- `StageResult(status=StageStatus.ADVANCE)`
abbrev pub advanced_result : StageResult
advanced_result = record {
  status = advance;
  failure_path = FailurePath.none;
  failure_reason = Option.none;
  retryable = false;
}

abbrev is_advance : StageStatus → Bool
is_advance advance = true
is_advance _ = false

unfoldable pub advanced : StageResult → Bool
advanced r = is_advance r.status

unfoldable pub failed : StageResult → Bool
failed r = not (is_advance r.status)

pub record CandidateObservation : Type 0 where
  pub source_id : Text
  pub content : Text
  pub source_timestamp : Text
  pub retrieved_at : Text
  pub url : Text

-- CandidateObservation.__post_init__
unfoldable pub candidate_post_init : CandidateObservation → Result Fault CandidateObservation
candidate_post_init c = do
  raise_if (is_empty c.content) (value_error "CandidateObservation.content is required")
  raise_if (is_empty c.source_id) (value_error "CandidateObservation.source_id is required")
  ok c

-- `str.strip()`
abbrev lstrip : Text → Text
lstrip [] = []
lstrip (c ∷ cs) = if is_space c then lstrip cs else c ∷ cs

abbrev rstrip : Text → Text
rstrip [] = []
rstrip (c ∷ cs) = let rest = rstrip cs in if is_space c && is_empty rest then [] else c ∷ rest

unfoldable pub strip : Text → Text
strip t = rstrip (lstrip t)
