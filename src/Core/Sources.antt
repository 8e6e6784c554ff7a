-- ===== src/Core/Sources.antt =====
-- src/core/sources/__init__.py: a Source and its methods. `now` is what `now_utc()` returns.
pub mod Laws
use signalproject.Prelude.{
  given_or, Bool, true, not, Option, none, some, List, [], ◌∷◌, ◌++◌, String, ◌==◌, Result, ok, err,
  ◌>>=◌, ◌>>◌, raise_if, if◌then◌else◌,
}
use signalproject.Prelude.Text.{Text, is_empty}
use signalproject.Prelude.Float.{Float, in_unit_interval, one}
use signalproject.Core.Lifecycle.{Raised, value_error, assert_transition}
use signalproject.Core.Lifecycle.Statuses.{SourceStatus, SourceStatus-eq}
use signalproject.Core.Lifecycle.Graphs.{source_lifecycle}

pub data SourceType : Type 0 where
  regulatory_filing news_article earnings_call press_release social_media : SourceType
  blog_post research_report government_data other : SourceType

pub record Source : Type 0 where
  pub id : Text
  pub type : SourceType
  pub url : Text
  pub name : Text
  pub status : SourceStatus
  pub reliability_score : Float
  pub activated_at : Text
  pub last_observed_at : Option Text
  pub health_notes : List Text

-- Source.__post_init__
unfoldable pub post_init : Source → Result (Raised SourceStatus) Source
post_init s = do
  raise_if (is_empty s.id) (value_error "Source.id is required")
  raise_if (is_empty s.url) (value_error "Source.url is required")
  raise_if (is_empty s.name) (value_error "Source.name is required")
  raise_if (not (in_unit_interval s.reliability_score))
      (value_error "Source.reliability_score must be in [0.0, 1.0]")
  ok s

unfoldable pub transition : Source → SourceStatus → Result (Raised SourceStatus) Source
transition s new_status = do
  assert_transition source_lifecycle s.status new_status
  post_init (record s { status = new_status })

unfoldable pub deactivate : Source → Result (Raised SourceStatus) Source
deactivate s = transition s SourceStatus.deactivated

unfoldable pub reactivate : Source → Result (Raised SourceStatus) Source
reactivate s =
    if not (s.status == SourceStatus.deactivated)
    then err (value_error "Cannot reactivate")
    else transition s SourceStatus.active

unfoldable pub activate : Source → Result (Raised SourceStatus) Source
activate s = transition s SourceStatus.active

unfoldable pub retire : Source → Result (Raised SourceStatus) Source
retire s = if s.status == SourceStatus.retired then ok s else transition s SourceStatus.retired

-- `timestamp or now_utc()`: an empty text counts as missing
abbrev observed_at : (now : Text) → Option Text → Text
observed_at now none = now
observed_at now (some t) = if is_empty t then now else t

unfoldable pub record_observation :
    (now : Text) → Source → (timestamp : Option Text) → Result (Raised SourceStatus) Source
record_observation now s timestamp =
    post_init (record s { last_observed_at = some (observed_at now timestamp) })

unfoldable pub add_health_note : Source → (note : Text) → Result (Raised SourceStatus) Source
add_health_note s note = post_init (record s { health_notes = s.health_notes ++ note ∷ [] })

-- `new_id` is what `new_id()` returns.
unfoldable pub create :
    (new_id now : Text)
    → SourceType
    → (url name : Text) → (id : Option Text) → (reliability_score : Float)
    → Result (Raised SourceStatus) Source
create new_id now type url name id reliability_score = post_init (record {
  id = given_or id new_id;
  type = type;
  url = url;
  name = name;
  status = SourceStatus.active;
  reliability_score = reliability_score;
  activated_at = now;
  last_observed_at = none;
  health_notes = [];
})
