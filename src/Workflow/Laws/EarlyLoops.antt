-- ===== src/Workflow/Laws/EarlyLoops.antt =====
-- The loops of Stages 1 to 3 route objects, and leave no other event.
use signalproject.Core.Entities.{Entity}
use signalproject.Prelude.{
  ◌≡◌, refl, Option, none, some, [], ◌∷◌, ◌++◌, Bool-cases, Option-cases, Result-cases, inl, inr,
  remove, ◌==◌,
}
use signalproject.Prelude.Text.{Text-eq, codes}
use signalproject.Core.Evidence.{Evidence}
use signalproject.Core.Lifecycle.Statuses.{SourceStatus, SourceStatus-eq}
use signalproject.Core.Signals.{Signal, verify}
use signalproject.Core.Sources.{transition}
use signalproject.Workflow.Equality.{CandidateObservation-eq, Thesis-eq}
use signalproject.Workflow.Context.{PipelineContext}
use signalproject.Workflow.Gates.{Platform}
use signalproject.Workflow.Gates.Early.{s2_g1}
use signalproject.Workflow.Gates.Middle.{s3_g1}
use signalproject.Workflow.Stages.{
  SourceObserver, EvidenceProducer, SignalExtractor, EntityResolver, context_after,
}
use signalproject.Workflow.Stages.Observation.{
  admits, sort_candidate, degrade, observe_source, observe_all,
}
use signalproject.Workflow.Stages.Production.{
  find_source, consume, is_attributed, file_evidence, made, produce_evidence, produce_all,
}
use signalproject.Workflow.Stages.Extraction.{
  infer_entity_ref, reject_draft, is_claim, promote, sort_draft, extract_resolved, extract_signals,
  extract_all,
}
use signalproject.Workflow.Laws.Trail.{
  trail, KeepsTrail, and_then-trail, for_each-trail, route_to_failure_path-trail,
}

module _ (p : Platform) where
  pub sort_candidate-trail : KeepsTrail (λ c x. context_after (sort_candidate p c x))
  unfolding sort_candidate
  sort_candidate-trail c x = elim (Bool-cases (admits p c x)) [
    | inl e ↦ rw e refl
    | inr e ↦ rw e refl
  ]

pub degrade-trail : KeepsTrail (λ c s. context_after (degrade c s))
unfolding degrade
degrade-trail c s = elim (Result-cases (transition s SourceStatus.deactivated)) [
  | inl (t, e) ↦ rw (degrade, e) refl
  | inr (f, e) ↦ rw (degrade, e) refl
]

pub observe_source-trail :
    (p : Platform) (observe : SourceObserver)
    → KeepsTrail (λ c s. context_after (observe_source p observe c s))
unfolding observe_source
observe_source-trail p observe c s = elim (Bool-cases (s.status == SourceStatus.active)) [
  | inl e ↦ elim (Option-cases (observe s)) [
    | inl o ↦ rw (e, o) (degrade-trail c s)
    | inr (cs, o) ↦ rw (e, o) (for_each-trail (sort_candidate p) (sort_candidate-trail p) c cs)
  ]
  | inr e ↦ rw e refl
]

pub observe_all-trail :
    (p : Platform) (observer : Option SourceObserver) (c : PipelineContext)
    → trail (context_after (observe_all p observer c)) ≡ trail c
unfolding observe_all
observe_all-trail p none c = refl
observe_all-trail p (some observe) c =
    for_each-trail (observe_source p observe) (observe_source-trail p observe) c c.sources

pub consume-trail : KeepsTrail (λ c x. context_after (consume c x))
unfolding consume
consume-trail c x = elim (Option-cases (remove x c.candidates)) [
  | inl e ↦ rw (consume, e) refl
  | inr (rest, e) ↦ rw (consume, e) refl
]

pub file_evidence-trail :
    (p : Platform) (c : PipelineContext) (e : Evidence) → trail (file_evidence p c e) ≡ trail c
unfolding file_evidence
file_evidence-trail p c e = elim (Bool-cases (is_attributed e)) [
  | inl h ↦ rw h refl
  | inr h ↦ rw h (
      route_to_failure_path-trail p (codes "S2")
        (record c { rejected_evidences = c.rejected_evidences ++ e ∷ [] }) s2_g1
        (codes "evidence production failed") e.id (codes "candidate"))
]

pub produce_evidence-trail :
    (p : Platform) (produce : EvidenceProducer)
    → KeepsTrail (λ c x. context_after (produce_evidence p produce c x))
unfolding produce_evidence
produce_evidence-trail p produce c x =
    and_then-trail (consume c x) _ (trail c) (consume-trail c x) (λ d done.
      elim (Option-cases (made produce (find_source x.source_id c.sources) x)) [
        | inl e ↦ rw e refl
        | inr (evidence, e) ↦ rw e (file_evidence-trail p d evidence)
      ])

pub produce_all-trail :
    (p : Platform) (producer : Option EvidenceProducer) (c : PipelineContext)
    → trail (context_after (produce_all p producer c)) ≡ trail c
unfolding produce_all
produce_all-trail p none c = refl
produce_all-trail p (some produce) c =
    for_each-trail (produce_evidence p produce) (produce_evidence-trail p produce) c c.candidates

pub promote-trail : (c : PipelineContext) (s : Signal) → trail (promote c s) ≡ trail c
unfolding promote reject_draft
promote-trail c s = elim (Result-cases (verify s)) [
  | inl (t, e) ↦ rw (promote, e) refl
  | inr (f, e) ↦ rw (promote, e) refl
]

pub sort_draft-trail : (p : Platform) → KeepsTrail (λ c s. context_after (sort_draft p c s))
unfolding sort_draft reject_draft
sort_draft-trail p c s = elim (Bool-cases (is_claim p s.claim)) [
  | inl e ↦ rw e (promote-trail c s)
  | inr e ↦ rw e refl
]

pub extract_signals-trail :
    (p : Platform) (extract : SignalExtractor) (resolve : EntityResolver)
    → KeepsTrail (λ c e. context_after (extract_signals p extract resolve c e))
unfolding extract_signals extract_resolved reject_draft
extract_signals-trail p extract resolve c evidence =
    elim (Option-cases (infer_entity_ref c.entities)) [
      | inl e ↦ rw (extract_signals, e) refl
      | inr (ref, e) ↦ elim (Option-cases (resolve ref)) [
        | inl r ↦ rw (extract_signals, e, r) refl
        | inr (found, r) ↦ rw (extract_signals, e, r) (resolved found)
      ]
    ]
  where
    resolved :
        (found : Option Entity)
        → trail (context_after (extract_resolved p extract c evidence (some found))) ≡ trail c
    resolved none =
        route_to_failure_path-trail p (codes "S3") c s3_g1 (codes "entity unresolved") evidence.id
          (codes "evidence")
    resolved (some entity) = elim (Option-cases (extract evidence entity)) [
      | inl e ↦ rw (extract_resolved, e) refl
      | inr (drafts, e) ↦
          rw (extract_resolved, e) (for_each-trail (sort_draft p) (sort_draft-trail p) c drafts)
    ]

pub extract_all-trail :
    (p : Platform) (extractor : Option SignalExtractor) (resolve : EntityResolver)
    (c : PipelineContext)
    → trail (context_after (extract_all p extractor resolve c)) ≡ trail c
unfolding extract_all
extract_all-trail p none resolve c = refl
extract_all-trail p (some extract) resolve c =
    for_each-trail (extract_signals p extract resolve) (extract_signals-trail p extract resolve) c
      c.evidences
