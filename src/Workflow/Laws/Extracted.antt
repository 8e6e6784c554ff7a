-- ===== src/Workflow/Laws/Extracted.antt =====
-- Stage 3 as a whole: what it emits, and how it ends.
use signalproject.Prelude.{
  ◌≡◌, refl, sym, subst, ap, ◌∙◌, Option, none, some, List, [], ◌∷◌, ◌++◌, map, All, All-append,
  Option-cases, inl, inr, if◌then◌else◌,
}
use signalproject.Prelude.Text.{Text, Text-eq, codes}
use signalproject.Core.Entities.{Entity}
use signalproject.Core.Evidence.{Evidence}
use signalproject.Core.Signals.{Signal, EntityRef}
use signalproject.Workflow.Types.{StageResult, advance, fail_reject}
use signalproject.Workflow.Context.{PipelineContext, RejectedDraft, stub, emit}
use signalproject.Workflow.Gates.{Platform}
use signalproject.Workflow.Gates.Middle.{entity_ids, s3_g1}
use signalproject.Workflow.Gates.Late.{stage_3_gates}
use signalproject.Workflow.Stages.{
  SignalExtractor, EntityResolver, Ran, returned, raised, and_then, for_each, conclude, start,
  route_to_failure_path,
}
use signalproject.Workflow.Stages.Extraction.{
  infer_entity_ref, extraction_status, extract_resolved, extract_signals, extract_all,
  signal_extraction,
}
use signalproject.Workflow.Laws.Emitted.{IsEmitted, AllEmitted, all_registered, conclude-emitted}
use signalproject.Workflow.Laws.Promoted.{
  IsSifted, Sifts, Sifts-nothing, Sifts-rejecting, and_then-Sifts, sort_drafts-Sifts,
  sifted-AllEmitted,
}

-- The drafts of one evidence, for a context with these entities: those that the extractor returns for
-- the entity that is resolved, or what stands for the evidence if there is no entity to ask for
abbrev pub drafts_about : SignalExtractor → Evidence → Option (Option Entity) → List RejectedDraft
drafts_about extract evidence (some (some entity)) = elim (extract evidence entity) [
  | none ↦ []
  | some drafts ↦ map RejectedDraft.signal drafts
]
drafts_about extract evidence _ = []

abbrev pub drafts_of :
    SignalExtractor → EntityResolver → List Entity → Evidence → List RejectedDraft
drafts_of extract resolve es evidence = elim (infer_entity_ref es) [
  | none ↦ stub evidence.id (codes "no entity reference") ∷ []
  | some ref ↦ drafts_about extract evidence (resolve ref)
]

-- The drafts of a list of evidences, in order
abbrev pub all_drafts :
    Option SignalExtractor → EntityResolver → List Entity → List Evidence → List RejectedDraft
all_drafts none resolve es evidences = []
all_drafts (some extract) resolve es [] = []
all_drafts (some extract) resolve es (evidence ∷ rest) =
    drafts_of extract resolve es evidence ++ all_drafts (some extract) resolve es rest

module _ (p : Platform) (resolve : EntityResolver) where
  extract_resolved-Sifts :
      (extract : SignalExtractor) (c : PipelineContext) (evidence : Evidence) (ref : EntityRef)
      (found : Option (Option Entity))
      → resolve ref ≡ found
      → Sifts p resolve c
          (drafts_about extract evidence found)
          (extract_resolved p extract c evidence found)
  unfolding extract_resolved route_to_failure_path emit
  extract_resolved-Sifts extract c evidence ref none e = (ref, e)
  extract_resolved-Sifts extract c evidence ref (some none) e =
      Sifts-nothing p resolve c
        (route_to_failure_path p (codes "S3") c s3_g1 (codes "entity unresolved") evidence.id
          (codes "evidence"))
        refl refl refl
  extract_resolved-Sifts extract c evidence ref (some (some entity)) e =
      elim (Option-cases (extract evidence entity)) [
        | inl n ↦
            rw (extract_resolved, drafts_about, n) (Sifts-nothing p resolve c c refl refl refl)
        | inr (drafts, n) ↦
            rw (extract_resolved, drafts_about, n) (sort_drafts-Sifts p resolve drafts c)
      ]

  extract_signals-Sifts :
      (extract : SignalExtractor) (c : PipelineContext) (evidence : Evidence)
      → Sifts p resolve c
          (drafts_of extract resolve c.entities evidence)
          (extract_signals p extract resolve c evidence)
  unfolding extract_signals
  extract_signals-Sifts extract c evidence = elim (Option-cases (infer_entity_ref c.entities)) [
    | inl e ↦
        rw (extract_signals, drafts_of, e)
          (Sifts-rejecting p resolve c (stub evidence.id (codes "no entity reference")) tt)
    | inr (ref, e) ↦
        rw (extract_signals, drafts_of, e)
          (extract_resolved-Sifts extract c evidence ref (resolve ref) refl)
  ]

  extract_rest-Sifts :
      (extract : SignalExtractor) (es : List Entity) (evidences : List Evidence)
      (c : PipelineContext)
      → c.entities ≡ es
      → Sifts p resolve c
          (all_drafts (some extract) resolve es evidences)
          (for_each (extract_signals p extract resolve) c evidences)
  unfolding for_each
  extract_rest-Sifts extract es [] c h = Sifts-nothing p resolve c c refl refl refl
  extract_rest-Sifts extract es (e ∷ rest) c h =
      and_then-Sifts p resolve c (drafts_of extract resolve es e)
        (all_drafts (some extract) resolve es rest) (extract_signals p extract resolve c e)
        (λ next done. for_each (extract_signals p extract resolve) next rest)
        (subst
          (λ (fs : List Entity).
            Sifts p resolve c (drafts_of extract resolve fs e)
              (extract_signals p extract resolve c e))
          h (extract_signals-Sifts extract c e))
        (λ mid done k. extract_rest-Sifts extract es rest mid (k ∙ h))

  extract_all-Sifts :
      (extractor : Option SignalExtractor) (c : PipelineContext)
      → Sifts p resolve c
          (all_drafts extractor resolve c.entities c.evidences)
          (extract_all p extractor resolve c)
  unfolding extract_all
  extract_all-Sifts none c = Sifts-nothing p resolve c c refl refl refl
  extract_all-Sifts (some extract) c = extract_rest-Sifts extract c.entities c.evidences c refl

  -- How Stage 3 ends from a context, with these drafts: it returns, has sifted them, and advances or
  -- rejects by whether every signal is about one of the entities; or the resolver raised.
  abbrev pub IsEnd : PipelineContext → List RejectedDraft → Ran StageResult → Type 0
  IsEnd c xs (returned last r) =
      (ts : List Signal) × (rs : List RejectedDraft) × (last.signals ≡ c.signals ++ ts)
      × (last.rejected_signal_drafts ≡ c.rejected_signal_drafts ++ rs)
      × IsSifted p xs ts rs
      × AllEmitted p last
      × (r.status
          ≡ (if all_registered (entity_ids last) last.signals then advance else fail_reject))
  IsEnd c xs (raised last) = (ref : EntityRef) × (resolve ref ≡ none)

  conclude-IsEnd :
      (c d : PipelineContext) (xs : List RejectedDraft)
      → AllEmitted p c
      → Sifts {A = Unit {0}} p resolve c xs (returned d tt)
      → IsEnd c xs (conclude p (codes "S3") extraction_status (stage_3_gates p) d)
  conclude-IsEnd c d xs h (ts, rs, _, f, g, sifted) =
      let emitted =
        subst (All (IsEmitted p)) (sym f)
          (All-append (IsEmitted p) c.signals ts h (sifted-AllEmitted p sifted)) in
      let (last, r, e, status, same) = conclude-emitted p d emitted in
      let signals_kept = ap (λ (v : List Signal × List Text × List RejectedDraft). v.0) same in
      subst (IsEnd c xs) (sym e) (
        ts,
        rs,
        signals_kept ∙ f,
        ap (λ (v : List Signal × List Text × List RejectedDraft). v.2) same ∙ g,
        sifted,
        subst (All (IsEmitted p)) (sym signals_kept) emitted,
        status,
      )

  and_then-IsEnd :
      (c : PipelineContext) (xs : List RejectedDraft) (loop : Ran (Unit {0}))
      → AllEmitted p c
      → Sifts p resolve c xs loop
      → IsEnd c xs (
          and_then loop (λ extracted done.
            conclude p (codes "S3") extraction_status (stage_3_gates p) extracted))
  and_then-IsEnd c xs (returned d done) h k = conclude-IsEnd c d xs h k
  and_then-IsEnd c xs (raised d) h k = k

-- From signals that are emitted ones, Stage 3 raises only if the resolver does; otherwise it returns,
-- whatever the extractor returns and wherever it raises. Its drafts are then sifted in their order: one
-- whose claim is neither vague nor hedged and whose verification succeeds is appended, verified, to the
-- signals, and any other one to the rejected drafts. Every signal is then verified, on an evidence, and
-- of such a claim; and the stage advances if every signal is about one of the entities and rejects if
-- not: its other gates never fail.
pub signal_extraction-IsEnd :
    (p : Platform) (extractor : Option SignalExtractor) (resolve : EntityResolver)
    (context : PipelineContext)
    → AllEmitted p context
    → IsEnd p resolve context
        (all_drafts extractor resolve context.entities context.evidences)
        (signal_extraction p extractor resolve context)
unfolding signal_extraction start emit
signal_extraction-IsEnd p extractor resolve context h =
    and_then-IsEnd p resolve (start p (codes "S3") context)
      (all_drafts extractor resolve context.entities context.evidences)
      (extract_all p extractor resolve (start p (codes "S3") context)) h
      (extract_all-Sifts p resolve extractor (start p (codes "S3") context))
