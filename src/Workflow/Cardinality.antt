-- ===== src/Workflow/Cardinality.antt =====
-- src/workflow/cardinality.py: how many objects each stage may make of how many.
use signalproject.Prelude.{
  ℕ, ◌≡◌, arith, Bool, true, false, not, ◌&&◌, ◌||◌, List, [], ◌∷◌, length, leb, ltb, nat_eq,
  if◌then◌else◌,
}
use signalproject.Prelude.Text.{Text, is_empty}
use signalproject.Core.Evidence.{Evidence}
use signalproject.Core.Signals.{Signal}
use signalproject.Workflow.Types.{CandidateObservation}
use signalproject.Workflow.Context.{PipelineContext}

abbrev all_of : {A : Type 0} → (A → Bool) → List A → Bool
all_of p [] = true
all_of p (x ∷ xs) = p x && all_of p xs

abbrev has_any : List Text → Bool
has_any ids = not (nat_eq (length ids) 0)

unfoldable pub stage1_cardinality : PipelineContext → Bool
stage1_cardinality context = all_of (λ c. not (is_empty c.source_id)) context.candidates

unfoldable pub stage2_cardinality : List CandidateObservation → List Evidence → Bool
stage2_cardinality candidates evidences =
    if ltb (length candidates) (length evidences)
    then false
    else all_of (λ e. has_any e.source_ids) evidences

unfoldable pub stage3_cardinality : List Evidence → List Signal → Bool
stage3_cardinality evidences signals =
    if ltb (length evidences) (length signals)
    then false
    else all_of (λ s. has_any s.evidence_ids) signals

unfoldable pub stage4_cardinality : List Signal → Bool
stage4_cardinality signals = leb 0 (length signals)

unfoldable pub stage5_cardinality : (research_count thesis_count : ℕ) → Bool
stage5_cardinality research_count thesis_count =
    leb thesis_count research_count || nat_eq thesis_count 0

unfoldable pub stage6_cardinality : (thesis_count : ℕ) → Bool
stage6_cardinality thesis_count = leb 0 thesis_count

-- No research allows no thesis, so the second test of Stage 5 adds nothing.
stage5_cardinality_lem :
    (research_count thesis_count : ℕ)
    → stage5_cardinality research_count thesis_count ≡ leb thesis_count research_count
unfolding stage5_cardinality
stage5_cardinality_lem research_count thesis_count = ground arith
