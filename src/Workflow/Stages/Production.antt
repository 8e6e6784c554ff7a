-- ===== src/Workflow/Stages/Production.antt =====
-- src/workflow/stages.py: EvidenceProductionStage.
use signalproject.Prelude.{
  Bool, not, ◌&&◌, Option, none, some, List, [], ◌∷◌, ◌++◌, if◌then◌else◌, ◌==◌, remove,
}
use signalproject.Prelude.Text.{Text, Text-eq, codes}
use signalproject.Core.Evidence.{Evidence}
use signalproject.Core.Sources.{Source}
use signalproject.Workflow.Types.{StageStatus, fail_reject, FailurePath, CandidateObservation}
use signalproject.Workflow.Equality.{CandidateObservation-eq}
use signalproject.Workflow.Context.{PipelineContext}
use signalproject.Workflow.Gates.{Platform}
use signalproject.Workflow.Gates.Early.{is_blank, is_nil, s2_g1}
use signalproject.Workflow.Gates.Late.{stage_2_gates}
use signalproject.Workflow.Stages.{
  EvidenceProducer, Ran, returned, raised, and_then, for_each, Stage, start, conclude,
  route_to_failure_path,
}

-- `next((s for s in context.sources if s.id == id), None)`
unfoldable pub find_source : (id : Text) → List Source → Option Source
find_source id [] = none
find_source id (s ∷ ss) = let later = find_source id ss in if s.id == id then some s else later

-- `context.candidates.remove(candidate)`
unfoldable pub consume : PipelineContext → CandidateObservation → Ran (Unit {0})
consume context c = elim (remove c context.candidates) [
  | none ↦ raised context
  | some rest ↦ returned (record context { candidates = rest }) tt
]

-- `evidence.source_ids and evidence.content.strip()`
unfoldable pub is_attributed : Evidence → Bool
is_attributed e = not (is_nil e.source_ids) && not (is_blank e.content)

-- Every failure of Stage 2 is FAIL_REJECT.
abbrev pub production_status : FailurePath → StageStatus
production_status path = fail_reject

-- What the producer makes of a candidate: none if its source is unknown or the producer raises
abbrev pub made :
    EvidenceProducer → (source : Option Source) → CandidateObservation → Option Evidence
made produce none c = none
made produce (some source) c = produce c source

module _ (p : Platform) where
  -- What becomes of an evidence that was produced
  unfoldable pub file_evidence : PipelineContext → Evidence → PipelineContext
  unfolding is_attributed route_to_failure_path
  file_evidence context e =
      if is_attributed e
      then record context { evidences = context.evidences ++ e ∷ [] }
      else route_to_failure_path p (codes "S2")
          (record context { rejected_evidences = context.rejected_evidences ++ e ∷ [] }) s2_g1
          (codes "evidence production failed") e.id (codes "candidate")

  -- The body of the loop over the candidates; the candidate is removed on every path.
  unfoldable pub produce_evidence :
      EvidenceProducer → PipelineContext → CandidateObservation → Ran (Unit {0})
  unfolding consume file_evidence find_source
  produce_evidence produce context c = and_then (consume context c) (λ consumed done.
      elim (made produce (find_source c.source_id context.sources) c) [
        | none ↦ returned consumed tt
        | some e ↦ returned (file_evidence consumed e) tt
      ])

  unfoldable pub produce_all : Option EvidenceProducer → PipelineContext → Ran (Unit {0})
  unfolding produce_evidence for_each
  produce_all none context = returned context tt
  produce_all (some produce) context =
      for_each (produce_evidence produce) context context.candidates

  -- EvidenceProductionStage.execute
  unfoldable pub evidence_production : Option EvidenceProducer → Stage
  unfolding produce_all start conclude
  evidence_production producer context =
      and_then (produce_all producer (start p (codes "S2") context))
        (λ produced done. conclude p (codes "S2") production_status stage_2_gates produced)
