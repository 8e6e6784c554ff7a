-- ===== src/Workflow/Stages/Extraction.antt =====
-- src/workflow/stages.py: SignalExtractionStage.
use signalproject.Prelude.{
  Bool, not, ◌&&◌, Option, none, some, List, [], ◌∷◌, ◌++◌, ok, err, if◌then◌else◌, is_some,
}
use signalproject.Prelude.Text.{Text, codes}
use signalproject.Core.Entities.{Entity, EntityKind}
use signalproject.Core.Evidence.{Evidence}
use signalproject.Core.Signals.{Signal, EntityRef, verify}
use signalproject.Workflow.Types.{StageStatus, fail_reject, FailurePath}
use signalproject.Workflow.Context.{PipelineContext, RejectedDraft, stub}
use signalproject.Workflow.Gates.{Platform}
use signalproject.Workflow.Gates.Middle.{is_vague, first_keyword, vague_keywords, s3_g1}
use signalproject.Workflow.Gates.Late.{stage_3_gates}
use signalproject.Workflow.Stages.{
  SignalExtractor, EntityResolver, Ran, returned, raised, and_then, for_each, Stage, start,
  conclude, route_to_failure_path,
}

-- `EntityKind.value`
abbrev pub kind_value : EntityKind → Text
kind_value EntityKind.company = codes "company"
kind_value EntityKind.industry = codes "industry"
kind_value EntityKind.macro_variable = codes "macro_variable"
kind_value EntityKind.sector = codes "sector"

abbrev pub entity_ref_of : Entity → EntityRef
entity_ref_of e = record { id = e.id; kind = kind_value e.kind }

-- SignalExtractionStage._infer_entity_ref: the first entity of the context; the evidence is not read.
abbrev pub infer_entity_ref : List Entity → Option EntityRef
infer_entity_ref [] = none
infer_entity_ref (e ∷ es) = some (entity_ref_of e)

unfoldable pub reject_draft : PipelineContext → RejectedDraft → PipelineContext
reject_draft context d = record context {
  rejected_signal_drafts = context.rejected_signal_drafts ++ d ∷ [];
}

-- Every failure of Stage 3 is FAIL_REJECT, whether or not its gate is retryable.
abbrev pub extraction_status : FailurePath → StageStatus
extraction_status path = fail_reject

-- A draft becomes a verified signal, or is rejected.
unfoldable pub promote : PipelineContext → Signal → PipelineContext
unfolding reject_draft verify
promote context draft = elim (verify draft) [
  | ok verified ↦ record context { signals = context.signals ++ verified ∷ [] }
  | err e ↦ reject_draft context (RejectedDraft.signal draft)
]

module _ (p : Platform) where
  -- The tests on a draft's claim
  unfoldable pub is_claim : Text → Bool
  is_claim claim =
      not (is_vague claim) && not (is_some (first_keyword vague_keywords (p.lower claim)))

  -- The body of the loop over one evidence's drafts
  unfoldable pub sort_draft : PipelineContext → Signal → Ran (Unit {0})
  unfolding is_claim promote reject_draft
  sort_draft context draft =
      if is_claim draft.claim
      then returned (promote context draft) tt
      else returned (reject_draft context (RejectedDraft.signal draft)) tt

  -- What follows when the reference is resolved; a resolver's exception is not caught.
  unfoldable pub extract_resolved :
      SignalExtractor → PipelineContext → Evidence → Option (Option Entity) → Ran (Unit {0})
  unfolding route_to_failure_path for_each sort_draft
  extract_resolved extract context evidence none = raised context
  extract_resolved extract context evidence (some none) =
      returned
        (route_to_failure_path p (codes "S3") context s3_g1 (codes "entity unresolved") evidence.id
          (codes "evidence"))
        tt
  extract_resolved extract context evidence (some (some entity)) = elim (extract evidence entity) [
    | none ↦ returned context tt
    | some drafts ↦ for_each sort_draft context drafts
  ]

  -- The body of the loop over the evidences
  unfoldable pub extract_signals :
      SignalExtractor → EntityResolver → PipelineContext → Evidence → Ran (Unit {0})
  unfolding extract_resolved reject_draft
  extract_signals extract resolve context evidence = elim (infer_entity_ref context.entities) [
    | none ↦ returned (reject_draft context (stub evidence.id (codes "no entity reference"))) tt
    | some ref ↦ extract_resolved extract context evidence (resolve ref)
  ]

  unfoldable pub extract_all :
      Option SignalExtractor → EntityResolver → PipelineContext → Ran (Unit {0})
  unfolding extract_signals for_each
  extract_all none resolve context = returned context tt
  extract_all (some extract) resolve context =
      for_each (extract_signals extract resolve) context context.evidences

  -- SignalExtractionStage.execute
  unfoldable pub signal_extraction : Option SignalExtractor → EntityResolver → Stage
  unfolding extract_all start conclude
  signal_extraction extractor resolve context =
      and_then (extract_all extractor resolve (start p (codes "S3") context))
        (λ extracted done. conclude p (codes "S3") extraction_status (stage_3_gates p) extracted)

-- The resolver that a stage without one has: `lambda ref: None`
abbrev pub no_entity_resolver : EntityResolver
no_entity_resolver ref = some none
