-- ===== src/Workflow/Gates/Middle.antt =====
-- src/workflow/gates.py: the gates of Stages 3 and 4.
use signalproject.Prelude.{
  Bool, true, false, ◌||◌, Option, none, some, List, [], ◌∷◌, ◌++◌, map, ltb, length, contains,
  if◌then◌else◌,
}
use signalproject.Prelude.Text.{Text, Text-eq, codes, is_empty, is_substring}
use signalproject.Core.Entities.{Entity}
use signalproject.Core.Research.{Research}
use signalproject.Core.Signals.{Signal}
use signalproject.Core.Lifecycle.Statuses.{ThesisStatus-eq}
use signalproject.Workflow.Types.{FailurePath, pass_, strip}
use signalproject.Workflow.Context.{PipelineContext}
use signalproject.Workflow.Gates.{Platform, Gate, inspecting, check_all}
use signalproject.Workflow.Gates.Early.{is_blank}

-- `{e.id for e in context.entities}`
abbrev pub entity_ids : PipelineContext → List Text
entity_ids context = map (λ (e : Entity). e.id) context.entities

-- The reason of S3-G1, S4-G3 and S5-G3
abbrev pub not_registered : (gate kind id entity_id : Text) → Option Text
not_registered gate kind id entity_id = some (
    gate
    ++ codes ": "
    ++ kind
    ++ id
    ++ codes " entity_ref "
    ++ entity_id
    ++ codes " not in entity registry")

unfoldable pub s3_g1_fault : (ids : List Text) → Signal → Option Text
s3_g1_fault ids s =
    if contains ids s.entity_ref.id
    then none
    else not_registered (codes "S3-G1") (codes "signal ") s.id s.entity_ref.id

abbrev pub s3_g1 : Gate
s3_g1 = record {
  id = codes "S3-G1";
  validate = inspecting (λ context. check_all (s3_g1_fault (entity_ids context)) context.signals);
  failure_path = FailurePath.reject;
  retryable = true;
}

unfoldable pub s3_g2_fault : Signal → Option Text
s3_g2_fault s =
    if ltb (length s.evidence_ids) 1
    then some (codes "S3-G2: signal " ++ s.id ++ codes " has no Evidence grounding (INV-1)")
    else none

abbrev pub s3_g2 : Gate
s3_g2 = record {
  id = codes "S3-G2";
  validate = inspecting (λ context. check_all s3_g2_fault context.signals);
  failure_path = FailurePath.reject;
  retryable = false;
}

-- `not claim or len(claim.strip()) < 10`
unfoldable pub is_vague : (claim : Text) → Bool
is_vague claim = is_empty claim || ltb (length (strip claim)) 10

unfoldable pub s3_g3_fault : Signal → Option Text
s3_g3_fault s =
    if is_vague s.claim
    then some (codes "S3-G3: signal " ++ s.id ++ codes " claim too vague to be falsifiable")
    else none

abbrev pub s3_g3 : Gate
s3_g3 = record {
  id = codes "S3-G3";
  validate = inspecting (λ context. check_all s3_g3_fault context.signals);
  failure_path = FailurePath.reject;
  retryable = true;
}

abbrev pub vague_keywords : List Text
vague_keywords = codes "generally" ∷ codes "possibly" ∷ codes "maybe" ∷ codes "could be" ∷ []

-- The first keyword in the claim
unfoldable pub first_keyword : (keywords : List Text) → (claim : Text) → Option Text
first_keyword [] claim = none
first_keyword (kw ∷ kws) claim =
    let rest = first_keyword kws claim in if is_substring kw claim then some kw else rest

abbrev s3_g4_reason : (id : Text) → Option Text → Option Text
s3_g4_reason id none = none
s3_g4_reason id (some kw) =
    some
      (codes "S3-G4: signal " ++ id ++ codes " claim contains vague keyword '" ++ kw ++ codes "'")

unfoldable pub s3_g4_fault : Platform → Signal → Option Text
s3_g4_fault p s = s3_g4_reason s.id (first_keyword vague_keywords (p.lower s.claim))

abbrev pub s3_g4 : Platform → Gate
s3_g4 p = record {
  id = codes "S3-G4";
  validate = inspecting (λ context. check_all (s3_g4_fault p) context.signals);
  failure_path = FailurePath.reject;
  retryable = true;
}

unfoldable pub s4_g1_fault : Research → Option Text
s4_g1_fault r =
    if is_blank r.question
    then some (codes "S4-G1: research " ++ r.id ++ codes " has empty question")
    else none

abbrev pub s4_g1 : Gate
s4_g1 = record {
  id = codes "S4-G1";
  validate = inspecting (λ context. check_all s4_g1_fault context.research_list);
  failure_path = FailurePath.reject;
  retryable = true;
}

unfoldable pub s4_g2_fault : Research → Option Text
s4_g2_fault r =
    if ltb (length r.signal_ids) 1
    then some (codes "S4-G2: research " ++ r.id ++ codes " has no signals")
    else none

abbrev pub s4_g2 : Gate
s4_g2 = record {
  id = codes "S4-G2";
  validate = inspecting (λ context. check_all s4_g2_fault context.research_list);
  failure_path = FailurePath.reject;
  retryable = true;
}

unfoldable pub s4_g3_fault : (ids : List Text) → Research → Option Text
s4_g3_fault ids r =
    if contains ids r.entity_ref.id
    then none
    else not_registered (codes "S4-G3") (codes "research ") r.id r.entity_ref.id

abbrev pub s4_g3 : Gate
s4_g3 = record {
  id = codes "S4-G3";
  validate =
      inspecting (λ context. check_all (s4_g3_fault (entity_ids context)) context.research_list);
  failure_path = FailurePath.hold;
  retryable = true;
}

-- Its loop does nothing.
abbrev pub s4_g4 : Gate
s4_g4 = record {
  id = codes "S4-G4";
  validate = inspecting (λ context. pass_);
  failure_path = FailurePath.reject;
  retryable = true;
}
