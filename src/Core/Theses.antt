-- ===== src/Core/Theses.antt =====
-- src/core/theses/__init__.py: a Thesis, its validation and its methods. `now` and `new_id` are
-- what `now_utc()` and `new_id()` return. `dataclasses.replace` runs the validation again.
pub mod Laws
use signalproject.Prelude.{
  given_or, Option, none, some, Bool, true, false, not, List, [], ◌∷◌, ◌++◌, String, Eq, ◌==◌, ltb,
  length, contains, Result, ok, err, ◌>>=◌, ◌>>◌, raise_if, if◌then◌else◌, ◌||◌,
}
use signalproject.Prelude.Text.{Text, Text-eq, codes, is_empty}
use signalproject.Core.Lifecycle.{Raised, value_error, assert_transition}
use signalproject.Core.Lifecycle.Statuses.{ThesisStatus, ThesisStatus-eq}
use signalproject.Core.Lifecycle.Graphs.{thesis_lifecycle}
use signalproject.Core.Signals.{EntityRef}

pub record ThesisEvolution : Type 0 where
  pub at : Text
  pub by : Text
  pub kind : Text
  pub prior_interpretation : Text
  pub new_interpretation : Text
  pub contributing_research_ids : List Text
  pub rationale : Text

-- ThesisEvolution.__post_init__
unfoldable pub evolution_post_init : ThesisEvolution → Result (Raised ThesisStatus) ThesisEvolution
evolution_post_init e = do
  raise_if (is_empty e.at) (value_error "ThesisEvolution.at is required")
  raise_if (is_empty e.by) (value_error "ThesisEvolution.by is required")
  raise_if (not (contains (codes "evolve" ∷ codes "supersede" ∷ codes "open_question" ∷ []) e.kind))
      (value_error "ThesisEvolution.kind must be one of evolve/supersede/open_question")
  ok e

pub record Thesis : Type 0 where
  pub id : Text
  pub entity_ref : EntityRef
  pub interpretation : Text
  pub status : ThesisStatus
  pub supporting_research_ids : List Text
  pub evolution_history : List ThesisEvolution
  pub created_at : Text
  pub open_questions : List Text

-- Thesis.__post_init__
unfoldable pub post_init : Thesis → Result (Raised ThesisStatus) Thesis
post_init t = do
  raise_if (is_empty t.id) (value_error "Thesis.id is required")
  raise_if (is_empty t.interpretation) (value_error "Thesis.interpretation is required")
  raise_if (ltb 2000 (length t.interpretation)) (value_error "Thesis.interpretation too long")
  ok t

unfoldable pub transition : Thesis → ThesisStatus → Result (Raised ThesisStatus) Thesis
transition t new_status = do
  assert_transition thesis_lifecycle t.status new_status
  post_init (record t { status = new_status })

-- The status after Thesis.evolve
abbrev evolved_status : ThesisStatus → ThesisStatus
evolved_status ThesisStatus.emerging = ThesisStatus.evolving
evolved_status ThesisStatus.mature = ThesisStatus.evolving
evolved_status status = status

unfoldable pub evolve :
    (now : Text)
    → Thesis
    → (new_interpretation : Text) → (contributing_research_ids : List Text) → (by rationale : Text)
    → Result (Raised ThesisStatus) Thesis
evolve now t new_interpretation contributing_research_ids by rationale = do
  raise_if (is_empty new_interpretation) (value_error "Thesis.interpretation cannot be empty")
  evolution ← evolution_post_init (record {
    at = now;
    by = by;
    kind = codes "evolve";
    prior_interpretation = t.interpretation;
    new_interpretation = new_interpretation;
    contributing_research_ids = contributing_research_ids;
    rationale = rationale;
  })
  post_init (record t {
    interpretation = new_interpretation;
    status = evolved_status t.status;
    evolution_history = t.evolution_history ++ evolution ∷ [];
  })

unfoldable pub mature : Thesis → Result (Raised ThesisStatus) Thesis
mature t = transition t ThesisStatus.mature

-- The factory's defaults, with the fields that `supersede_with` and `create` give.
unfoldable pub supersede_with :
    (now created_at fresh_id : Text)
    → Thesis
    → (new_interpretation by prior_id : Text) → Result (Raised ThesisStatus) Thesis
supersede_with now created_at fresh_id t new_interpretation by prior_id = do
  raise_if (is_empty new_interpretation) (value_error "New Thesis.interpretation cannot be empty")
  evolution ← evolution_post_init (record {
    at = now;
    by = by;
    kind = codes "supersede";
    prior_interpretation = t.interpretation;
    new_interpretation = new_interpretation;
    contributing_research_ids = [];
    rationale = codes "Supersedes Thesis " ++ prior_id;
  })
  post_init (record {
    id = fresh_id;
    entity_ref = t.entity_ref;
    interpretation = new_interpretation;
    status = ThesisStatus.emerging;
    supporting_research_ids = [];
    evolution_history = t.evolution_history ++ evolution ∷ [];
    created_at = created_at;
    open_questions = [];
  })

-- The part of Thesis.supersede behind its early return
unfoldable pub mark_superseded :
    (now : Text) → Thesis → (by : Text) → Result (Raised ThesisStatus) Thesis
mark_superseded now t by = do
  evolution ← evolution_post_init (record {
    at = now;
    by = by;
    kind = codes "supersede";
    prior_interpretation = t.interpretation;
    new_interpretation = codes "(superseded)";
    contributing_research_ids = [];
    rationale = [];
  })
  new ← transition t ThesisStatus.superseded
  post_init (record new { evolution_history = t.evolution_history ++ evolution ∷ [] })

unfoldable pub supersede : (now : Text) → Thesis → (by : Text) → Result (Raised ThesisStatus) Thesis
supersede now t by = if t.status == ThesisStatus.superseded then ok t else mark_superseded now t by

unfoldable pub retire : Thesis → Result (Raised ThesisStatus) Thesis
retire t = if t.status == ThesisStatus.retired then ok t else transition t ThesisStatus.retired

unfoldable pub hold_with_open_question :
    Thesis → (question : Text) → Result (Raised ThesisStatus) Thesis
hold_with_open_question t question =
    post_init (record t { open_questions = t.open_questions ++ question ∷ [] })

unfoldable pub add_supporting_research :
    Thesis → (research_id : Text) → Result (Raised ThesisStatus) Thesis
add_supporting_research t research_id =
    if contains t.supporting_research_ids research_id
    then ok t
    else post_init
        (record t { supporting_research_ids = t.supporting_research_ids ++ research_id ∷ [] })

unfoldable pub create :
    (new_id now : Text)
    → EntityRef
    → (interpretation : Text) → (id : Option Text) → (supporting_research_ids : List Text)
    → ThesisStatus
    → Result (Raised ThesisStatus) Thesis
create new_id now entity_ref interpretation id supporting_research_ids status = post_init (record {
  id = given_or id new_id;
  entity_ref = entity_ref;
  interpretation = interpretation;
  status = status;
  supporting_research_ids = supporting_research_ids;
  evolution_history = [];
  created_at = now;
  open_questions = [];
})
