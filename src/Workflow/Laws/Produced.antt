-- ===== src/Workflow/Laws/Produced.antt =====
-- Stage 2 consumes its candidates, and what it makes of them passes its gates.
use signalproject.Prelude.{
  ◌≡◌, refl, sym, ap, ◌∙◌, subst, true, Option, none, some, List, [], ◌∷◌, keep-All, remove,
  remove_behind, All, All-append, Bool-cases, Option-cases, inl, inr, ok,
}
use signalproject.Prelude.Text.{Text, codes}
use signalproject.Core.Evidence.{Evidence, quality_post_init}
use signalproject.Core.Sources.{Source}
use signalproject.Workflow.Types.{
  StageStatus, FailurePath, CandidateObservation, GateResult, StageResult, advanced_result,
}
use signalproject.Workflow.Equality.{CandidateObservation-eq}
use signalproject.Workflow.Context.{PipelineContext, emit}
use signalproject.Workflow.Gates.{record_evaluation, Platform, Gate}
use signalproject.Workflow.Gates.Early.{s2_g4_validate}
use signalproject.Workflow.Gates.Late.{stage_2_gates}
use signalproject.Workflow.Stages.{
  close, complete, EvidenceProducer, Ran, returned, for_each, context_after, start, conclude,
  run_gates, route_to_failure_path,
}
use signalproject.Workflow.Stages.Production.{
  find_source, consume, is_attributed, production_status, file_evidence, made, produce_evidence,
  produce_all, evidence_production,
}
use signalproject.Workflow.Laws.Retrieval.{is_retrievable, s2_g4_lem}
use signalproject.Workflow.Laws.Running.{EventsKeep, conclude_pass}
use signalproject.Workflow.Laws.Attributed.{IsAttributed, AllAttributed, IsConsumed, stage_2-Passes}

-- What an EvidenceProducer promises: the quality that it records is one that Quality's own
-- validation accepts.
pub record IsProducer (produce : EvidenceProducer) : Type 0 where
  pub quality :
      (c : CandidateObservation) (s : Source) (e : Evidence)
      → produce c s ≡ some e
      → quality_post_init e.quality ≡ ok e.quality

file_evidence-AllAttributed :
    (p : Platform) (context : PipelineContext) (e : Evidence)
    → quality_post_init e.quality ≡ ok e.quality
    → AllAttributed context
    → AllAttributed (file_evidence p context e)
unfolding file_evidence route_to_failure_path emit
file_evidence-AllAttributed p context e q h = elim (Bool-cases (is_attributed e)) [
  | inl a ↦ rw a (All-append IsAttributed context.evidences (e ∷ []) h ((a, q), tt))
  | inr a ↦ rw a h
]

file_evidence-candidates :
    (p : Platform) (context : PipelineContext) (e : Evidence)
    → (file_evidence p context e).candidates ≡ context.candidates
unfolding file_evidence route_to_failure_path emit
file_evidence-candidates p context e = elim (Bool-cases (is_attributed e)) [
  | inl a ↦ rw a refl
  | inr a ↦ rw a refl
]

consume_head :
    (context : PipelineContext) (c : CandidateObservation) (cs : List CandidateObservation)
    → context.candidates ≡ c ∷ cs
    → consume context c ≡ returned (record context { candidates = cs }) tt
unfolding consume
consume_head context c cs h = consumed (ap (remove c) h ∙ remove_behind (λ x. true) c [] cs tt refl)
  where
    consumed :
        remove c context.candidates ≡ some cs
        → consume context c ≡ returned (record context { candidates = cs }) tt
    consumed e = rw (consume, e) refl

made-IsSome :
    (produce : EvidenceProducer) (s : Option Source) (c : CandidateObservation) {e : Evidence}
    → IsProducer produce
    → made produce s c ≡ some e
    → quality_post_init e.quality ≡ ok e.quality
made-IsSome produce none c q h = cc
made-IsSome produce (some s) c {e} q h = q.quality c s e h

-- One turn of the loop: it returns, takes the candidate out, and keeps the evidences attributed.
produce_evidence_lem :
    (p : Platform) (produce : EvidenceProducer) (context : PipelineContext)
    (c : CandidateObservation) (cs : List CandidateObservation)
    → IsProducer produce
    → context.candidates ≡ c ∷ cs
    → AllAttributed context
    → (next : PipelineContext) × (produce_evidence p produce context c ≡ returned next tt)
      × (next.candidates ≡ cs)
      × AllAttributed next
unfolding produce_evidence
produce_evidence_lem p produce context c cs q at h =
    elim (Option-cases (made produce (find_source c.source_id context.sources) c)) [
      | inl m ↦
          (record context { candidates = cs }, rw (consume_head context c cs at, m) refl, refl, h)
      | inr (e, m) ↦ (
        file_evidence p (record context { candidates = cs }) e,
        rw (consume_head context c cs at, m) refl,
        file_evidence-candidates p (record context { candidates = cs }) e,
        file_evidence-AllAttributed p (record context { candidates = cs }) e
            (made-IsSome produce _ c q m) h,
      )
    ]

produce_rest :
    (p : Platform) (produce : EvidenceProducer)
    → IsProducer produce
    → (cs : List CandidateObservation) (context : PipelineContext) → context.candidates ≡ cs
    → AllAttributed context
    → (next : PipelineContext) × (for_each (produce_evidence p produce) context cs
        ≡ returned next tt)
      × (next.candidates ≡ [])
      × AllAttributed next
unfolding for_each
produce_rest p produce q [] context at h = (context, refl, at, h)
produce_rest p produce q (c ∷ cs) context at h =
    let (mid, e, mid_at, mid_h) = produce_evidence_lem p produce context c cs q at h in
    let (last, f, last_at, last_h) = produce_rest p produce q cs mid mid_at mid_h in
    (last, rw e f, last_at, last_h)

produce_all_lem :
    (p : Platform) (produce : EvidenceProducer) (context : PipelineContext)
    → IsProducer produce
    → AllAttributed context
    → (next : PipelineContext) × (produce_all p (some produce) context ≡ returned next tt)
      × (next.candidates ≡ [])
      × AllAttributed next
unfolding produce_all
produce_all_lem p produce context q h = produce_rest p produce q context.candidates context refl h

start-AllAttributed :
    (p : Platform) (context : PipelineContext)
    → AllAttributed context
    → AllAttributed (start p (codes "S2") context)
unfolding start emit
start-AllAttributed p context h = h

IsConsumed-emit : EventsKeep IsConsumed
unfolding emit
IsConsumed-emit e c h = h

abbrev IsKept : Evidence → Type 0
IsKept e = is_retrievable e ≡ true

s2_g4-IsKept : (c : PipelineContext) → All IsKept ((s2_g4_validate c).0).evidences
s2_g4-IsKept c = rw (s2_g4_lem c) (keep-All is_retrievable c.evidences)

gates-IsKept :
    (p : Platform) (name : Text) (c : PipelineContext)
    → All IsKept ((run_gates p name stage_2_gates c).0).evidences
unfolding run_gates record_evaluation emit
gates-IsKept p name c = s2_g4-IsKept _

close-evidences :
    (p : Platform) (name : Text) (status_of : FailurePath → StageStatus) (c : PipelineContext)
    (o : Option (Gate × GateResult))
    → (context_after (close p name status_of c o)).evidences ≡ c.evidences
unfolding close complete emit
close-evidences p name status_of c none = refl
close-evidences p name status_of c (some (gate, result)) = refl

conclude-IsKept :
    (p : Platform) (name : Text) (status_of : FailurePath → StageStatus) (c : PipelineContext)
    → All IsKept (context_after (conclude p name status_of stage_2_gates c)).evidences
unfolding conclude
conclude-IsKept p name status_of c =
    subst (All IsKept) (sym (close-evidences p name status_of _ _)) (gates-IsKept p name c)

-- From a context whose evidences are attributed and of valid quality, with a producer that records
-- valid qualities, Stage 2 returns and advances, whichever candidates the producer raises on: no
-- candidate is left, and each evidence then in the context has a source, a text that is not blank,
-- a valid quality, and is retrievable.
pub evidence_production_advances :
    (p : Platform) (produce : EvidenceProducer) (context : PipelineContext)
    → IsProducer produce
    → AllAttributed context
    → (last : PipelineContext) × (evidence_production p (some produce) context
        ≡ returned last advanced_result)
      × (last.candidates ≡ [])
      × (All IsAttributed last.evidences)
      × All (λ e. is_retrievable e ≡ true) last.evidences
unfolding evidence_production
evidence_production_advances p produce context q h =
    let (mid, e, at, k) =
      produce_all_lem p produce (start p (codes "S2") context) q
        (start-AllAttributed p context h) in
    let (last, f, consumed) =
      conclude_pass p (codes "S2") production_status IsConsumed IsConsumed-emit stage_2_gates mid
        stage_2-Passes (at, k) in
    (
      last,
      rw (e, f) refl,
      consumed.0,
      consumed.1,
      subst (λ (r : Ran StageResult). All IsKept (context_after r).evidences) f
          (conclude-IsKept p (codes "S2") production_status mid),
    )
