-- ===== src/Workflow/Gates/Late.antt =====
-- src/workflow/gates.py: the gates of Stages 5 and 6, and the list of each stage's gates.
use signalproject.Prelude.{
  Bool, true, false, ◌||◌, Option, none, some, List, [], ◌∷◌, ◌++◌, ltb, length, contains,
  if◌then◌else◌, ◌==◌,
}
use signalproject.Prelude.Text.{Text, Text-eq, codes}
use signalproject.Core.Theses.{Thesis, ThesisEvolution}
use signalproject.Core.Lifecycle.Statuses.{ThesisStatus, ThesisStatus-eq}
use signalproject.Workflow.Types.{FailurePath, pass_, strip}
use signalproject.Workflow.Gates.{Platform, Gate, inspecting, check_all}
use signalproject.Workflow.Gates.Middle.{
  entity_ids, not_registered, s3_g1, s3_g2, s3_g3, s3_g4, s4_g1, s4_g2, s4_g3, s4_g4,
}
use signalproject.Workflow.Gates.Early.{is_blank, s1_g1, s1_g2, s1_g3, s2_g1, s2_g2, s2_g3, s2_g4}

unfoldable pub s5_g1_fault : Thesis → Option Text
s5_g1_fault t =
    if is_blank t.interpretation
    then some (codes "S5-G1: thesis " ++ t.id ++ codes " has empty interpretation")
    else none

abbrev pub s5_g1 : Gate
s5_g1 = record {
  id = codes "S5-G1";
  validate = inspecting (λ context. check_all s5_g1_fault context.theses);
  failure_path = FailurePath.reject;
  retryable = true;
}

-- `len(t.interpretation.strip()) < 20`
unfoldable pub is_short : (interpretation : Text) → Bool
is_short interpretation = ltb (length (strip interpretation)) 20

unfoldable pub s5_g2_fault : Thesis → Option Text
s5_g2_fault t =
    if is_short t.interpretation
    then some
        (codes "S5-G2: thesis " ++ t.id ++ codes " interpretation too vague to be falsifiable")
    else none

abbrev pub s5_g2 : Gate
s5_g2 = record {
  id = codes "S5-G2";
  validate = inspecting (λ context. check_all s5_g2_fault context.theses);
  failure_path = FailurePath.reject;
  retryable = true;
}

unfoldable pub s5_g3_fault : (ids : List Text) → Thesis → Option Text
s5_g3_fault ids t =
    if contains ids t.entity_ref.id
    then none
    else not_registered (codes "S5-G3") (codes "thesis ") t.id t.entity_ref.id

abbrev pub s5_g3 : Gate
s5_g3 = record {
  id = codes "S5-G3";
  validate = inspecting (λ context. check_all (s5_g3_fault (entity_ids context)) context.theses);
  failure_path = FailurePath.hold;
  retryable = true;
}

unfoldable pub s5_g4_fault : Thesis → Option Text
s5_g4_fault t =
    if ltb (length t.supporting_research_ids) 1
    then some (codes "S5-G4: thesis " ++ t.id ++ codes " has no supporting Research")
    else none

abbrev pub s5_g4 : Gate
s5_g4 = record {
  id = codes "S5-G4";
  validate = inspecting (λ context. check_all s5_g4_fault context.theses);
  failure_path = FailurePath.reject;
  retryable = false;
}

-- `status.value` of the status that the gate refuses is "emerging".
unfoldable pub s6_g1_fault : Thesis → Option Text
s6_g1_fault t =
    if t.status == ThesisStatus.emerging
    then some (codes "S6-G1: thesis " ++ t.id ++ codes " not mature (status=emerging)")
    else none

abbrev pub s6_g1 : Gate
s6_g1 = record {
  id = codes "S6-G1";
  validate = inspecting (λ context. check_all s6_g1_fault context.theses);
  failure_path = FailurePath.pending;
  retryable = true;
}

-- Its loops do nothing.
abbrev pub s6_g2 : Gate
s6_g2 = record {
  id = codes "S6-G2";
  validate = inspecting (λ context. pass_);
  failure_path = FailurePath.pending;
  retryable = true;
}

-- The loop over the history, with the times seen so far: a time comes twice.
unfoldable pub has_duplicate : (seen : List Text) → List ThesisEvolution → Bool
has_duplicate seen [] = false
has_duplicate seen (evo ∷ evos) = contains seen evo.at || has_duplicate (evo.at ∷ seen) evos

unfoldable pub s6_g3_fault : Thesis → Option Text
s6_g3_fault t =
    if has_duplicate [] t.evolution_history
    then some (codes "S6-G3: thesis " ++ t.id ++ codes " has duplicate evolution timestamp")
    else none

abbrev pub s6_g3 : Gate
s6_g3 = record {
  id = codes "S6-G3";
  validate = inspecting (λ context. check_all s6_g3_fault context.theses);
  failure_path = FailurePath.pending;
  retryable = true;
}

abbrev pub stage_1_gates : Platform → List Gate
stage_1_gates p = s1_g1 ∷ s1_g2 ∷ s1_g3 p ∷ []

abbrev pub stage_2_gates : List Gate
stage_2_gates = s2_g1 ∷ s2_g2 ∷ s2_g3 ∷ s2_g4 ∷ []

abbrev pub stage_3_gates : Platform → List Gate
stage_3_gates p = s3_g1 ∷ s3_g2 ∷ s3_g3 ∷ s3_g4 p ∷ []

abbrev pub stage_4_gates : List Gate
stage_4_gates = s4_g1 ∷ s4_g2 ∷ s4_g3 ∷ s4_g4 ∷ []

abbrev pub stage_5_gates : List Gate
stage_5_gates = s5_g1 ∷ s5_g2 ∷ s5_g3 ∷ s5_g4 ∷ []

abbrev pub stage_6_gates : List Gate
stage_6_gates = s6_g1 ∷ s6_g2 ∷ s6_g3 ∷ []

abbrev pub all_gates : Platform → List Gate
all_gates p =
    stage_1_gates p
    ++ stage_2_gates
    ++ stage_3_gates p
    ++ stage_4_gates
    ++ stage_5_gates
    ++ stage_6_gates
