-- ===== src/Core/Signals.antt =====
-- src/core/signals/__init__.py and the Score of src/core/invariants.py: a Signal, its validation,
-- and its lifecycle methods. `dataclasses.replace` runs the validation again, as it does here.
pub mod Laws
pub mod Histories
use signalproject.Prelude.{
  given_or, ℕ, Bool, true, false, not, ◌&&◌, Option, none, some, List, String, ltb, length, Result,
  ok, err, ◌>>=◌, ◌>>◌, raise_if, if◌then◌else◌, contains, [], ◌∷◌,
}
use signalproject.Prelude.Text.{Text, is_empty, text_lt}
use signalproject.Prelude.Float.{Float, in_unit_interval}
use signalproject.Core.Lifecycle.{Raised, value_error, assertion_error, assert_transition}
use signalproject.Core.Lifecycle.Statuses.{SignalStatus, SignalStatus-eq}
use signalproject.Core.Lifecycle.Graphs.{signal_lifecycle}

pub data SignalDirection : Type 0 where
  bullish bearish neutral : SignalDirection

pub data SignalHorizon : Type 0 where
  intraday short medium long : SignalHorizon

pub record EntityRef : Type 0 where
  pub id : Text
  pub kind : Text

pub record Metadata : Type 0 where
  pub source_doc_id : Option Text
  pub cluster_size : Option ℕ
  pub burst_triggered : Bool
  pub reasoning_skipped : Bool
  pub reasoning_partial : Bool
  pub score_partial : Bool
  pub degrade_mode : Bool
  pub override_active : Bool
  pub precedent_basis : Option Text
  pub precedent_conflict : Bool
  pub custom_tags : List Text

pub record Score : Type 0 where
  pub magnitude : Float
  pub confidence : Float
  pub timeliness : Float
  pub novelty : Float
  pub actionability : Float

-- INV-4, the test of each field in turn
unfoldable pub score_in_bounds : Score → Bool
score_in_bounds s =
    in_unit_interval s.magnitude
    && (in_unit_interval s.confidence
        && (in_unit_interval s.timeliness
            && (in_unit_interval s.novelty && in_unit_interval s.actionability)))

-- Score.__post_init__
unfoldable pub score_post_init : Score → Result (Raised SignalStatus) Score
unfolding score_in_bounds
score_post_init s = do raise_if (not (score_in_bounds s)) (value_error "INV-4 violation"); ok s

unfoldable pub assert_inv_4 : Score → Result (Raised SignalStatus) (Unit {0})
unfolding score_in_bounds
assert_inv_4 s = raise_if (not (score_in_bounds s)) (assertion_error "INV-4 violation")

pub record Signal : Type 0 where
  pub id : Text
  pub entity_ref : EntityRef
  pub type : Text
  pub claim : Text
  pub evidence_ids : List Text
  pub direction : SignalDirection
  pub horizon : SignalHorizon
  pub score : Score
  pub status : SignalStatus
  pub timestamp : Text
  pub detected_at : Text
  pub cluster_id : Option Text
  pub metadata : Metadata
  pub provenance_present : Bool

-- Signal.__post_init__
unfoldable pub post_init : Signal → Result (Raised SignalStatus) Signal
post_init s = do
  raise_if (is_empty s.id) (value_error "Signal.id is required")
  raise_if (is_empty s.claim) (value_error "Signal.claim is required")
  raise_if (ltb 280 (length s.claim)) (value_error "Signal.claim exceeds 280 chars")
  raise_if (text_lt s.detected_at s.timestamp)
      (value_error "Signal.timestamp cannot be after detected_at")
  raise_if (ltb (length s.evidence_ids) 1) (value_error "INV-1 violation")
  raise_if (not s.provenance_present) (value_error "INV-3 violation")
  assert_inv_4 s.score
  ok s

unfoldable pub transition : Signal → SignalStatus → Result (Raised SignalStatus) Signal
transition s new_status = do
  assert_transition signal_lifecycle s.status new_status
  post_init (record s { status = new_status })

unfoldable pub verify : Signal → Result (Raised SignalStatus) Signal
verify s = transition s SignalStatus.verified

unfoldable pub activate : Signal → Result (Raised SignalStatus) Signal
activate s = transition s SignalStatus.active

unfoldable pub hold : Signal → Result (Raised SignalStatus) Signal
hold s = transition s SignalStatus.held

unfoldable pub reject : Signal → Result (Raised SignalStatus) Signal
reject s = transition s SignalStatus.rejected

unfoldable pub decay : Signal → Result (Raised SignalStatus) Signal
decay s = transition s SignalStatus.decayed

unfoldable pub supersede : Signal → Result (Raised SignalStatus) Signal
supersede s = transition s SignalStatus.superseded

unfoldable pub promote_from_held : Signal → Result (Raised SignalStatus) Signal
promote_from_held s = transition s SignalStatus.active

unfoldable pub is_terminal : Signal → Bool
is_terminal s =
    contains (SignalStatus.rejected ∷ SignalStatus.decayed ∷ SignalStatus.superseded ∷ []) s.status

-- What Signal.create is given; `new_id`, `now` and `detected_now` are what `new_id()` and the two calls of
-- `now_utc()` return.
pub record NewSignal : Type 0 where
  pub entity_ref : EntityRef
  pub type : Text
  pub claim : Text
  pub evidence_ids : List Text
  pub direction : SignalDirection
  pub horizon : SignalHorizon
  pub score : Score
  pub id : Option Text
  pub status : SignalStatus
  pub timestamp : Option Text
  pub detected_at : Option Text
  pub cluster_id : Option Text
  pub metadata : Option Metadata

abbrev pub empty_metadata : Metadata
empty_metadata = record {
  source_doc_id = none;
  cluster_size = none;
  burst_triggered = false;
  reasoning_skipped = false;
  reasoning_partial = false;
  score_partial = false;
  degrade_mode = false;
  override_active = false;
  precedent_basis = none;
  precedent_conflict = false;
  custom_tags = [];
}

unfoldable pub create :
    (new_id now detected_now : Text) → NewSignal → Result (Raised SignalStatus) Signal
create new_id now detected_now a = post_init (record {
  id = given_or a.id new_id;
  entity_ref = a.entity_ref;
  type = a.type;
  claim = a.claim;
  evidence_ids = a.evidence_ids;
  direction = a.direction;
  horizon = a.horizon;
  score = a.score;
  status = a.status;
  timestamp = given_or a.timestamp now;
  detected_at = given_or a.detected_at detected_now;
  cluster_id = a.cluster_id;
  metadata = given_or a.metadata empty_metadata;
  provenance_present = true;
})
