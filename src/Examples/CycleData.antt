-- ===== src/Examples/CycleData.antt =====
-- What the runs of the theorems on src/workflow are about: a source, an entity, and the interfaces of a cycle.
use signalproject.Prelude.{Bool, true, false, none, some, [], ◌∷◌}
use signalproject.Prelude.Text.{Text-eq, Text, codes}
use signalproject.Prelude.Float.{pos, one}
use signalproject.Persistence.Ingestion.Times.{aware}
use signalproject.Workflow.Equality.{Thesis-eq}
use signalproject.Core.Lifecycle.Statuses.{
  SignalStatus, ThesisStatus, ThesisStatus-eq, SourceStatus, ResearchStatus,
}
use signalproject.Core.Entities.{Entity, EntityKind, EntityStatus}
use signalproject.Core.Evidence.{Evidence}
use signalproject.Core.Research.{Research}
use signalproject.Core.Signals.{Signal, EntityRef, SignalDirection, SignalHorizon, empty_metadata}
use signalproject.Core.Sources.{Source, SourceType}
use signalproject.Core.Theses.{Thesis}
use signalproject.Workflow.Types.{CandidateObservation}
use signalproject.Workflow.Context.{PipelineContext, new_context}
use signalproject.Workflow.Gates.{Platform}
use signalproject.Workflow.Stages.{
  SourceObserver, EvidenceProducer, SignalExtractor, EntityResolver, ThesisCrystallizer,
  ThesesProvider, KnowledgeIntegrator,
}
use signalproject.Workflow.Stages.Synthesis.{default_question}
use signalproject.Workflow.Pipeline.{Interfaces}

-- A clock that stands still, a day after every timestamp
abbrev pub platform : Platform
platform = record {
  now_utc = λ c. codes "2026-01-02T00:00:00+00:00";
  now = λ reading c. 186_400_000_000;
  fromisoformat = λ t. some (aware (pos 0) 100_000_000_000);
  lower = λ t. t;
}

abbrev pub wire : Source
wire = record {
  id = codes "wire";
  type = SourceType.news_article;
  url = codes "https://wire.example";
  name = codes "Wire";
  status = SourceStatus.active;
  reliability_score = one;
  activated_at = codes "2026-01-01";
  last_observed_at = none;
  health_notes = [];
}

abbrev pub acme : Entity
acme = record {
  id = codes "acme";
  kind = EntityKind.company;
  name = codes "Acme";
  aliases = [];
  status = EntityStatus.active;
  classification = [];
}

abbrev pub acme_ref : EntityRef
acme_ref = record { id = codes "acme"; kind = codes "company" }

abbrev pub observation : (content : Text) → CandidateObservation
observation content = record {
  source_id = codes "wire";
  content = content;
  source_timestamp = codes "2026-01-01T00:00:00+00:00";
  retrieved_at = codes "2026-01-02";
  url = codes "https://wire.example/1";
}

abbrev pub observe : SourceObserver
observe s = some (observation (codes "Acme cuts prices") ∷ observation (codes " ") ∷ [])

abbrev pub report : (retrievable : Bool) → Evidence
report retrievable = record {
  id = codes "report";
  source_ids = codes "wire" ∷ [];
  content = codes "Acme cuts prices";
  quality = record {
    source_reliability = one;
    content_completeness = one;
    retrieval_confidence = one;
  };
  retrieved_at = codes "2026-01-02";
  retrievable = retrievable;
  source_type = none;
  char_offset = none;
  excerpt = none;
  document_hash = none;
}

abbrev pub produce : EvidenceProducer
produce c s = some (report true)

abbrev pub draft : (claim : Text) → Signal
draft claim = record {
  id = codes "sig";
  entity_ref = acme_ref;
  type = codes "pricing";
  claim = claim;
  evidence_ids = codes "report" ∷ [];
  direction = SignalDirection.bearish;
  horizon = SignalHorizon.short;
  score = record {
    magnitude = one;
    confidence = one;
    timeliness = one;
    novelty = one;
    actionability = one;
  };
  status = SignalStatus.draft;
  timestamp = codes "2026-01-01";
  detected_at = codes "2026-01-02";
  cluster_id = none;
  metadata = empty_metadata;
  provenance_present = true;
}

-- The extractor writes about the entity that it is given: one claim that holds, and one hedged one.
abbrev pub about : Entity → Signal → Signal
about e s = record s { entity_ref = record { id = e.id; kind = codes "company" } }

abbrev pub extract : SignalExtractor
extract evidence e = some (
    about e (draft (codes "Acme cuts prices by 10%"))
    ∷ about e (draft (codes "Acme may possibly cut"))
    ∷ [])

abbrev pub resolve : EntityResolver
resolve ref = some (some (record acme { id = ref.id }))

abbrev pub finding : Research
finding = record {
  id = codes "finding";
  entity_ref = acme_ref;
  question = default_question;
  signal_ids = codes "sig" ∷ [];
  status = ResearchStatus.opened;
  opened_at = codes "2026-01-02";
  concluded_at = none;
  reasoning = none;
  traceability_gaps = false;
  held_reason = none;
}

abbrev pub view_of : ThesisStatus → Thesis
view_of status = record {
  id = codes "view";
  entity_ref = acme_ref;
  interpretation = codes "Acme gives up margin to win share";
  status = status;
  supporting_research_ids = codes "finding" ∷ [];
  evolution_history = [];
  created_at = codes "2026-01-01";
  open_questions = [];
}

abbrev pub crystallize : ThesisCrystallizer
crystallize r prior = some (view_of ThesisStatus.emerging)

abbrev pub provide : ThesesProvider
provide id = some (some (view_of ThesisStatus.mature))

-- The integrator raises on a thesis that is not mature.
abbrev pub integrate : KnowledgeIntegrator
integrate t = elim t.status [ ThesisStatus.mature ↦ some tt | _ ↦ none ]

abbrev pub begun : PipelineContext
begun = new_context (codes "cycle") (codes "2026-01-02") (wire ∷ []) (acme ∷ [])

abbrev pub interfaces : Interfaces
interfaces = record {
  observer = some observe;
  producer = some produce;
  extractor = some extract;
  entity_resolver = resolve;
  synthesizer = some (λ group e question. some finding);
  question = default_question;
  crystallizer = some crystallize;
  existing_theses_provider = provide;
  integrator = some integrate;
}
