-- ===== src/Workflow/Laws/Loops.antt =====
-- The loops of Stages 4 to 6 route objects, and leave no other event.
use signalproject.Prelude.{
  ◌≡◌, refl, not, ◌||◌, Option, none, some, List, [], Bool-cases, Option-cases, inl, inr, remove,
  contains, ◌&&◌,
}
use signalproject.Prelude.Text.{Text, Text-eq, is_empty}
use signalproject.Core.Lifecycle.Statuses.{SourceStatus-eq}
use signalproject.Core.Research.{Research}
use signalproject.Core.Signals.{Signal}
use signalproject.Core.Theses.{Thesis}
use signalproject.Workflow.Equality.{CandidateObservation-eq, Thesis-eq}
use signalproject.Workflow.Context.{PipelineContext}
use signalproject.Workflow.Gates.{Platform}
use signalproject.Workflow.Gates.Early.{is_nil, is_blank}
use signalproject.Workflow.Gates.Middle.{entity_ids}
use signalproject.Workflow.Gates.Late.{is_short}
use signalproject.Workflow.Stages.{
  ResearchSynthesizer, ThesisCrystallizer, ThesesProvider, KnowledgeIntegrator, context_after,
}
use signalproject.Workflow.Stages.Synthesis.{
  synthesized, find_entity, file_research, synthesize_group, synthesize_all, group_onto,
}
use signalproject.Workflow.Stages.Crystallization.{
  file_thesis, crystallized, update_thesis, update_all,
}
use signalproject.Workflow.Stages.Integration.{
  postpone, is_postponed, integrate_thesis, integrate_all,
}
use signalproject.Workflow.Laws.Trail.{trail, KeepsTrail, for_each-trail}

file_research-trail :
    (c : PipelineContext) (group : List Signal) (r : Research)
    → trail (file_research c group r) ≡ trail c
unfolding file_research
file_research-trail c group r =
    elim (Bool-cases (not (is_nil r.signal_ids) && not (is_empty r.question))) [
      | inl e ↦ rw e refl
      | inr e ↦ rw e refl
    ]

synthesize_group-trail :
    (synthesize : ResearchSynthesizer) (question : Text)
    → KeepsTrail (λ c g. context_after (synthesize_group synthesize question c g))
unfolding synthesize_group
synthesize_group-trail synthesize question c (id, group) =
    elim (Option-cases (synthesized synthesize question (find_entity id c.entities) group)) [
      | inl e ↦ rw (synthesize_group, e) refl
      | inr (r, e) ↦ rw (synthesize_group, e) (file_research-trail c group r)
    ]

pub synthesize_all-trail :
    (synthesizer : Option ResearchSynthesizer) (question : Text) (c : PipelineContext)
    → trail (context_after (synthesize_all synthesizer question c)) ≡ trail c
unfolding synthesize_all
synthesize_all-trail none question c = refl
synthesize_all-trail (some synthesize) question c = elim (Bool-cases (is_nil c.signals)) [
  | inl e ↦ rw e refl
  | inr e ↦ rw e (
      for_each-trail (synthesize_group synthesize question)
        (synthesize_group-trail synthesize question) c (group_onto [] c.signals))
]

file_thesis-trail :
    (p : Platform) (c : PipelineContext) (r : Research) (existing : Option Thesis) (t : Thesis)
    → trail (file_thesis p c r existing t) ≡ trail c
unfolding file_thesis
file_thesis-trail p c r existing t =
    elim (Bool-cases (is_blank t.interpretation || is_short t.interpretation)) [
      | inl e ↦ rw e refl
      | inr e ↦ elim (Bool-cases (contains (entity_ids c) t.entity_ref.id)) [
        | inl k ↦ rw (e, k) refl
        | inr k ↦ rw (e, k) refl
      ]
    ]

update_thesis-trail :
    (p : Platform) (crystallizer : Option ThesisCrystallizer) (provider : ThesesProvider)
    → KeepsTrail (λ c r. context_after (update_thesis p crystallizer provider c r))
unfolding update_thesis
update_thesis-trail p crystallizer provider c r = elim (Option-cases (provider r.entity_ref.id)) [
  | inl e ↦ rw (update_thesis, e) refl
  | inr (existing, e) ↦ elim (Option-cases (crystallized crystallizer r existing)) [
    | inl k ↦ rw (update_thesis, e, k) refl
    | inr (t, k) ↦ rw (update_thesis, e, k) (file_thesis-trail p c r existing t)
  ]
]

pub update_all-trail :
    (p : Platform) (crystallizer : Option ThesisCrystallizer) (provider : ThesesProvider)
    (c : PipelineContext)
    → trail (context_after (update_all p crystallizer provider c)) ≡ trail c
unfolding update_all
update_all-trail p crystallizer provider c =
    for_each-trail (update_thesis p crystallizer provider)
      (update_thesis-trail p crystallizer provider) c c.research_list

postpone-trail : KeepsTrail (λ c t. context_after (postpone c t))
unfolding postpone
postpone-trail c t = elim (Option-cases (remove t c.theses)) [
  | inl e ↦ rw (postpone, e) refl
  | inr (rest, e) ↦ rw (postpone, e) refl
]

integrate_thesis-trail :
    (integrator : Option KnowledgeIntegrator)
    → KeepsTrail (λ c t. context_after (integrate_thesis integrator c t))
unfolding integrate_thesis
integrate_thesis-trail integrator c t = elim (Bool-cases (is_postponed integrator t)) [
  | inl e ↦ rw e (postpone-trail c t)
  | inr e ↦ rw e refl
]

pub integrate_all-trail :
    (integrator : Option KnowledgeIntegrator) (c : PipelineContext)
    → trail (context_after (integrate_all integrator c)) ≡ trail c
unfolding integrate_all
integrate_all-trail integrator c =
    for_each-trail (integrate_thesis integrator) (integrate_thesis-trail integrator) c c.theses
