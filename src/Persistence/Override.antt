-- ===== src/Persistence/Override.antt =====
-- src/persistence/override.py: the record of a curator's action.
use signalproject.Prelude.{given_or, Option, List, Result, ok, ◌>>◌, raise_if, Fault, value_error}
use signalproject.Prelude.Text.{Text, is_empty}

pub data OverrideAction : Type 0 where
  override_score mark_noise mark_redundant change_tier add_entity remove_entity : OverrideAction
  bind_industry_position update_notes : OverrideAction

-- A payload is the list of its keys and values, each value as its text.
pub record OverrideRecord : Type 0 where
  pub id : Text
  pub target_id : Text
  pub action : OverrideAction
  pub rationale : Text
  pub actor : Text
  pub at : Text
  pub payload : Option (List (Text × Text))

unfoldable pub post_init : OverrideRecord → Result Fault OverrideRecord
post_init r = do
  raise_if (is_empty r.id) (value_error "OverrideRecord.id is required")
  raise_if (is_empty r.target_id) (value_error "OverrideRecord.target_id is required")
  raise_if (is_empty r.rationale) (value_error "OverrideRecord.rationale is required")
  raise_if (is_empty r.actor) (value_error "OverrideRecord.actor is required")
  ok r

-- `new_id` and `now` are what `new_id()` and `now_utc()` return.
unfoldable pub create :
    (new_id now target_id : Text)
    → OverrideAction
    → (rationale actor : Text) → (payload : Option (List (Text × Text))) → (id at : Option Text)
    → Result Fault OverrideRecord
create new_id now target_id action rationale actor payload id at = post_init (record {
  id = given_or id new_id;
  target_id = target_id;
  action = action;
  rationale = rationale;
  actor = actor;
  at = given_or at now;
  payload = payload;
})
