-- ===== src/Workflow/Laws/Emitted.antt =====
-- The gates of Stage 3 on the signals that the stage emits: all but S3-G1 pass.
use signalproject.Prelude.{
  ◌≡◌, refl, sym, ap, ◌∙◌, Bool, true, false, ◌&&◌, Option, none, List, [], ◌∷◌, arith, All,
  All-map, contains, ltb, length, Bool-cases, inl, inr, if◌then◌else◌,
}
use signalproject.Prelude.Text.{Text, Text-eq, codes}
use signalproject.Core.Lifecycle.Statuses.{SignalStatus}
use signalproject.Core.Signals.{Signal}
use signalproject.Workflow.Types.{
  GateResult, StageResult, pass_, advance, fail_reject, advanced_result, FailurePath,
}
use signalproject.Workflow.Context.{PipelineContext, RejectedDraft, emit}
use signalproject.Workflow.Gates.{Platform, Gate, check_all, record_evaluation}
use signalproject.Workflow.Gates.Middle.{
  entity_ids, s3_g1, s3_g2, s3_g3, s3_g4, s3_g1_fault, s3_g2_fault, s3_g3_fault, s3_g4_fault,
}
use signalproject.Workflow.Gates.Late.{stage_3_gates}
use signalproject.Workflow.Stages.{returned, run_gates, first_failure, close, complete, conclude}
use signalproject.Workflow.Stages.Extraction.{is_claim, extraction_status}
use signalproject.Workflow.Laws.Running.{IgnoresEvents, check_all_passes, run_gates_keep}

-- A signal that Stage 3 emits: verified, on evidence, with a claim that is neither vague nor hedged
pub record IsEmitted (p : Platform) (s : Signal) : Type 0 where
  pub verified : s.status ≡ SignalStatus.verified
  pub grounded : ltb (length s.evidence_ids) 1 ≡ false
  pub claims : is_claim p s.claim ≡ true

-- Every signal is about one of the entities.
abbrev pub all_registered : (ids : List Text) → List Signal → Bool
all_registered ids [] = true
all_registered ids (s ∷ ss) = contains ids s.entity_ref.id && all_registered ids ss

module _ (p : Platform) (s : Signal) where
  IsEmitted-s3_g2 : IsEmitted p s → s3_g2_fault s ≡ none
  unfolding s3_g2_fault
  IsEmitted-s3_g2 h = rw h.grounded refl

  IsEmitted-s3_g3 : IsEmitted p s → s3_g3_fault s ≡ none
  unfolding s3_g3_fault is_claim
  IsEmitted-s3_g3 h = ground (arith, h.claims)

  IsEmitted-s3_g4 : IsEmitted p s → s3_g4_fault p s ≡ none
  unfolding s3_g4_fault is_claim
  IsEmitted-s3_g4 h = ground (arith, h.claims)

s3_g1-all_registered :
    (ids : List Text) (ss : List Signal)
    → (check_all (s3_g1_fault ids) ss).passed ≡ all_registered ids ss
unfolding s3_g1_fault
s3_g1-all_registered ids [] = refl
s3_g1-all_registered ids (s ∷ ss) = elim (Bool-cases (contains ids s.entity_ref.id)) [
  | inl e ↦ rw (check_all, e) (s3_g1-all_registered ids ss)
  | inr e ↦ rw (check_all, e) refl
]

-- The signals of a context are ones that Stage 3 emits.
abbrev pub AllEmitted : Platform → PipelineContext → Type 0
AllEmitted p c = All (IsEmitted p) c.signals

-- What the gates and the events of Stage 3 leave alone
abbrev pub drafts_and_ids : PipelineContext → List Signal × List Text × List RejectedDraft
drafts_and_ids c = (c.signals, entity_ids c, c.rejected_signal_drafts)

drafts_and_ids-emit : IgnoresEvents drafts_and_ids
unfolding emit
drafts_and_ids-emit e c = refl

module _ (p : Platform) where
  emitted_passes :
      (fault : Signal → Option Text)
      → ((s : Signal) → IsEmitted p s → fault s ≡ none)
      → (ss : List Signal) → All (IsEmitted p) ss
      → check_all fault ss ≡ pass_
  emitted_passes fault f ss h = check_all_passes fault ss (All-map f ss h)

  run_gates-emitted :
      (c : PipelineContext)
      → AllEmitted p c
      → (run_gates p (codes "S3") (stage_3_gates p) c).1
        ≡ (s3_g1, check_all (s3_g1_fault (entity_ids c)) c.signals)
          ∷ (s3_g2, pass_)
          ∷ (s3_g3, pass_)
          ∷ (s3_g4 p, pass_)
          ∷ []
  unfolding run_gates record_evaluation emit
  run_gates-emitted c h =
      rw
        (
          emitted_passes s3_g2_fault (IsEmitted-s3_g2 p) c.signals h,
          emitted_passes s3_g3_fault (IsEmitted-s3_g3 p) c.signals h,
          emitted_passes (s3_g4_fault p) (IsEmitted-s3_g4 p) c.signals h,
        )
        refl

  close-registered :
      (c : PipelineContext) (registered : GateResult)
      → (last : PipelineContext) × (r : StageResult) × (close p (codes "S3") extraction_status c (
            first_failure
              ((s3_g1, registered) ∷ (s3_g2, pass_) ∷ (s3_g3, pass_) ∷ (s3_g4 p, pass_) ∷ []))
          ≡ returned last r)
        × (r.status ≡ (if registered.passed then advance else fail_reject))
        × (drafts_and_ids last ≡ drafts_and_ids c)
  unfolding close first_failure complete emit
  close-registered c registered = elim (Bool-cases registered.passed) [
    | inl a ↦ (complete p (codes "S3") advance c, advanced_result, rw a refl, rw a refl, refl)
    | inr a ↦ (
      complete p (codes "S3") fail_reject c,
      record {
        status = fail_reject;
        failure_path = FailurePath.reject;
        failure_reason = registered.reason;
        retryable = true;
      },
      rw a refl,
      rw a refl,
      refl,
    )
  ]

  -- What follows the loop, on signals that Stage 3 emits
  pub conclude-emitted :
      (c : PipelineContext)
      → AllEmitted p c
      → (last : PipelineContext) × (r : StageResult) × (conclude p
            (codes "S3")
            extraction_status
            (stage_3_gates p)
            c
          ≡ returned last r)
        × (r.status
            ≡ (if all_registered (entity_ids last) last.signals then advance else fail_reject))
        × (drafts_and_ids last ≡ drafts_and_ids c)
  unfolding conclude
  conclude-emitted c h =
      let ran = run_gates p (codes "S3") (stage_3_gates p) c in
      let (last, r, e, status, k) =
        close-registered (ran.0) (check_all (s3_g1_fault (entity_ids c)) c.signals) in
      let same =
        k
        ∙ run_gates_keep p (codes "S3") drafts_and_ids drafts_and_ids-emit (stage_3_gates p) c
            (λ d. refl, (λ d. refl, (λ d. refl, (λ d. refl, tt)))) in
      (
        last,
        r,
        ap
              (λ (rs : List (Gate × GateResult)).
                close p (codes "S3") extraction_status (ran.0) (first_failure rs))
              (run_gates-emitted c h)
            ∙ e,
        status
            ∙ ap (λ (b : Bool). if b then advance else fail_reject)
                (s3_g1-all_registered (entity_ids c) c.signals)
            ∙ ap
                (λ (v : List Signal × List Text × List RejectedDraft).
                  if all_registered (v.1) (v.0) then advance else fail_reject)
                (sym same),
        same,
      )
