-- ===== src/Examples/Persistence.antt =====
-- Runs of the theorems on src/persistence/in_memory.py and src/persistence/lifecycle.py.
use signalproject.Prelude.{
  ◌≡◌, ◌≢◌, refl, true, none, some, List, [], ◌∷◌, ok, ◌==◌, if◌then◌else◌, is_ok, arith,
}
use signalproject.Prelude.Text.{Text, Text-eq, codes}
use signalproject.Prelude.Float.{one}
use signalproject.Core.Lifecycle.{assert_transition}
use signalproject.Core.Lifecycle.Statuses.{ThesisStatus}
use signalproject.Core.Evidence.{Evidence}
use signalproject.Core.Theses
use signalproject.Core.Theses.{Thesis, ThesisEvolution}
use signalproject.Persistence.Override.{OverrideRecord, OverrideAction}
use signalproject.Persistence.Store.{Store, empty, get_evidence, get_thesis, put_thesis}
use signalproject.Persistence.Store.Laws.{
  Write, evidence, override, apply_all, evidence_immutable, overrides_append_only,
}
use signalproject.Persistence.Lifecycle.{supersede_thesis}
use signalproject.Persistence.Lifecycle.Laws.{supersede_thesis_pair, supersede_thesis_total}

abbrev filing : Text → Evidence
filing content = record {
  id = codes "e1";
  source_ids = codes "src1" ∷ [];
  content = content;
  quality = record {
    source_reliability = one;
    content_completeness = one;
    retrieval_confidence = one;
  };
  retrieved_at = codes "2026-01-01";
  retrievable = true;
  source_type = none;
  char_offset = none;
  excerpt = none;
  document_hash = none;
}

abbrev filed : Store
filed = record empty { evidence = (codes "e1", filing (codes "first")) ∷ [] }

abbrev note : OverrideRecord
note = record {
  id = codes "o1";
  target_id = codes "e1";
  action = OverrideAction.update_notes;
  rationale = codes "checked";
  actor = codes "curator";
  at = codes "2026-01-02";
  payload = none;
}

abbrev writes : List Write
writes = evidence (filing (codes "second")) ∷ override note ∷ []

filed-has : get_evidence filed (codes "e1") ≡ some (filing (codes "first"))
unfolding get_evidence
filed-has = refl

evidence_immutable_example :
    get_evidence (apply_all filed writes) (codes "e1") ≡ some (filing (codes "first"))
evidence_immutable_example = evidence_immutable writes filed (codes "e1") filed-has

overrides_append_only_example : (apply_all filed writes).overrides ≡ note ∷ []
overrides_append_only_example = overrides_append_only writes filed

abbrev prior : Thesis
prior = record {
  id = codes "t1";
  entity_ref = record { id = codes "acme"; kind = codes "company" };
  interpretation = codes "demand grows";
  status = ThesisStatus.mature;
  supporting_research_ids = [];
  evolution_history = [];
  created_at = codes "2026-01-01";
  open_questions = [];
}

abbrev entry : (at new_interpretation rationale : Text) → ThesisEvolution
entry at new_interpretation rationale = record {
  at = at;
  by = codes "ana";
  kind = codes "supersede";
  prior_interpretation = codes "demand grows";
  new_interpretation = new_interpretation;
  contributing_research_ids = [];
  rationale = rationale;
}

abbrev successor : Thesis
successor = record prior {
  id = codes "t2";
  interpretation = codes "demand falls";
  status = ThesisStatus.emerging;
  evolution_history =
      entry (codes "2026-02-01") (codes "demand falls") (codes "Supersedes Thesis t1") ∷ [];
  created_at = codes "2026-02-02";
}

abbrev marked_prior : Thesis
marked_prior = record prior {
  status = ThesisStatus.superseded;
  evolution_history = entry (codes "2026-02-03") (codes "(superseded)") [] ∷ [];
}

abbrev after : Store
after = record empty { theses = (codes "t1", marked_prior) ∷ (codes "t2", successor) ∷ [] }

superseding :
    supersede_thesis
      (codes "2026-02-01")
      (codes "2026-02-02")
      (codes "t2")
      (codes "2026-02-03")
      empty
      prior
      (codes "demand falls")
      (codes "ana")
    ≡ ok (successor, after)
unfolding supersede_thesis Theses.supersede_with Theses.supersede Theses.mark_superseded
    Theses.evolution_post_init Theses.transition Theses.post_init assert_transition put_thesis
superseding = refl

supersede_thesis_pair_example :
    (successor.status ≡ ThesisStatus.emerging)
    × (successor.interpretation ≡ codes "demand falls")
    × (marked : Thesis) × (marked.status ≡ ThesisStatus.superseded)
    × (marked.interpretation ≡ codes "demand grows")
    × ((k : Text)
        → get_thesis after k ≡ (
            if codes "t2" == k
            then some successor
            else if codes "t1" == k
            then some marked
            else get_thesis empty k))
supersede_thesis_pair_example =
    supersede_thesis_pair (codes "2026-02-01") (codes "2026-02-02") (codes "t2")
      (codes "2026-02-03") empty prior (codes "demand falls") (codes "ana") superseding

prior-IsWellFormed : Theses.Laws.IsWellFormed prior
unfolding Theses.post_init
prior-IsWellFormed = refl

mature-ne-retired : ThesisStatus.mature ≢ ThesisStatus.retired
mature-ne-retired h = cc

supersede_thesis_total_example :
    is_ok (
      supersede_thesis
        (codes "2026-02-01")
        (codes "2026-02-02")
        (codes "t2")
        (codes "2026-02-03")
        empty
        prior
        (codes "demand falls")
        (codes "ana"))
    ≡ true
supersede_thesis_total_example =
    supersede_thesis_total (codes "2026-02-01") (codes "2026-02-02") (codes "t2")
      (codes "2026-02-03") empty prior (codes "demand falls") (codes "ana") prior-IsWellFormed
      mature-ne-retired refl (omega arith) refl refl refl refl
