-- ===== src/Workflow/Gates/Early.antt =====
-- src/workflow/gates.py: the gates of Stages 1 and 2.
use signalproject.Prelude.{
  keep, remove, add_new, ℕ, ◌/◌, ◌-◌, Bool, true, false, not, ◌&&◌, Option, none, some, List, [],
  ◌∷◌, ◌++◌, ltb, if◌then◌else◌, given_or,
}
use signalproject.Prelude.Text.{Text, codes, is_empty, decimal}
use signalproject.Prelude.Float.{in_unit_interval}
use signalproject.Persistence.Ingestion.Times.{Stamp, naive, aware}
use signalproject.Core.Evidence.{Evidence}
use signalproject.Workflow.Types.{FailurePath, GateResult, pass_, fail, CandidateObservation, strip}
use signalproject.Workflow.Equality.{Evidence-eq}
use signalproject.Workflow.Context.{PipelineContext}
use signalproject.Workflow.Gates.{Platform, Gate, inspecting, check_all}

-- `not text.strip()`
unfoldable pub is_blank : Text → Bool
is_blank t = is_empty (strip t)

abbrev pub is_nil {ℓ} : {A : Type ℓ} → List A → Bool
is_nil [] = true
is_nil (x ∷ xs) = false

-- If there are sources, neither candidates nor degraded sources is a failure.
unfoldable pub s1_g1_validate : PipelineContext → GateResult
s1_g1_validate context =
    if is_nil context.sources
    then pass_
    else if is_nil context.candidates && is_nil context.degraded_sources
    then fail (codes "S1-G1: no candidates produced and no degraded sources")
    else pass_

abbrev pub s1_g1 : Gate
s1_g1 = record {
  id = codes "S1-G1";
  validate = inspecting s1_g1_validate;
  failure_path = FailurePath.degraded;
  retryable = true;
}

unfoldable pub s1_g2_fault : CandidateObservation → Option Text
s1_g2_fault c =
    if is_blank c.content
    then some (codes "S1-G2: candidate from " ++ c.source_id ++ codes " has empty content")
    else none

abbrev pub s1_g2 : Gate
s1_g2 = record {
  id = codes "S1-G2";
  validate = inspecting (λ context. check_all s1_g2_fault context.candidates);
  failure_path = FailurePath.degraded;
  retryable = true;
}

-- A day in microseconds
abbrev pub day : ℕ
day = 86_400_000_000

-- `(now - ts).days`, where `ts` is not later than `now`
abbrev pub age_days : (now ts : ℕ) → ℕ
age_days now ts = (now - ts) / day

-- The tests on a timestamp that was read; what is said follows the candidate's source in the reason.
abbrev pub stamp_fault : (now : ℕ) → Option Stamp → Option Text
stamp_fault now none = some (codes " has invalid timestamp")
stamp_fault now (some (naive t)) = some (codes " timestamp not tz-aware")
stamp_fault now (some (aware utcoffset t)) =
    if ltb now t
    then some (codes " timestamp in the future")
    else if ltb 30 (age_days now t)
    then some (codes " timestamp is " ++ decimal (age_days now t) ++ codes " days old")
    else none

abbrev s1_g3_reason : Text → Option Text → Option Text
s1_g3_reason source_id none = none
s1_g3_reason source_id (some fault) = some (codes "S1-G3: candidate " ++ source_id ++ fault)

unfoldable pub s1_g3_fault : Platform → (now : ℕ) → CandidateObservation → Option Text
s1_g3_fault p now c =
    s1_g3_reason c.source_id (stamp_fault now (p.fromisoformat c.source_timestamp))

abbrev pub s1_g3 : Platform → Gate
s1_g3 p = record {
  id = codes "S1-G3";
  validate = inspecting (λ context. check_all (s1_g3_fault p (p.now 0 context)) context.candidates);
  failure_path = FailurePath.flag;
  retryable = true;
}

unfoldable pub s2_g1_fault : Evidence → Option Text
s2_g1_fault e =
    if is_nil e.source_ids
    then some (codes "S2-G1: evidence " ++ e.id ++ codes " has no source attribution")
    else none

abbrev pub s2_g1 : Gate
s2_g1 = record {
  id = codes "S2-G1";
  validate = inspecting (λ context. check_all s2_g1_fault context.evidences);
  failure_path = FailurePath.reject;
  retryable = true;
}

unfoldable pub s2_g2_fault : Evidence → Option Text
s2_g2_fault e =
    if is_blank e.content
    then some (codes "S2-G2: evidence " ++ e.id ++ codes " has empty content")
    else none

abbrev pub s2_g2 : Gate
s2_g2 = record {
  id = codes "S2-G2";
  validate = inspecting (λ context. check_all s2_g2_fault context.evidences);
  failure_path = FailurePath.reject;
  retryable = true;
}

abbrev out_of_range : Evidence → (field : Text) → Option Text
out_of_range e field = some (codes "S2-G3: evidence " ++ e.id ++ field ++ codes " out of [0,1]")

unfoldable pub s2_g3_fault : Evidence → Option Text
s2_g3_fault e =
    if not (in_unit_interval e.quality.source_reliability)
    then out_of_range e (codes " source_reliability")
    else if not (in_unit_interval e.quality.content_completeness)
    then out_of_range e (codes " content_completeness")
    else if not (in_unit_interval e.quality.retrieval_confidence)
    then out_of_range e (codes " retrieval_confidence")
    else none

abbrev pub s2_g3 : Gate
s2_g3 = record {
  id = codes "S2-G3";
  validate = inspecting (λ context. check_all s2_g3_fault context.evidences);
  failure_path = FailurePath.reject;
  retryable = true;
}

-- `[e for e in context.evidences if not e.retrievable]`
unfoldable pub non_retrievable : List Evidence → List Evidence
non_retrievable es = keep (λ e. not e.retrievable) es

-- One turn of S2-G4's loop: `if e in context.evidences: context.evidences.remove(e)`
unfoldable pub exclude : Evidence → PipelineContext → PipelineContext
exclude e context = record context {
  non_retrievable_evidences = add_new e context.non_retrievable_evidences;
  evidences = given_or (remove e context.evidences) context.evidences;
}

unfoldable pub exclude_all : List Evidence → PipelineContext → PipelineContext
unfolding exclude
exclude_all [] context = context
exclude_all (e ∷ es) context = exclude_all es (exclude e context)

unfoldable pub s2_g4_validate : PipelineContext → PipelineContext × GateResult
unfolding non_retrievable exclude_all
s2_g4_validate context = (exclude_all (non_retrievable context.evidences) context, pass_)

abbrev pub s2_g4 : Gate
s2_g4 = record {
  id = codes "S2-G4";
  validate = s2_g4_validate;
  failure_path = FailurePath.reject;
  retryable = true;
}
