-- ===== src/Persistence/Ingestion/WorkItems/Json.antt =====
-- JSON values, and `json.dumps` and `json.loads` as parameters.
use signalproject.Prelude.{Bool, Option, none, some, List, [], ◌∷◌, if◌then◌else◌}
use signalproject.Prelude.Text.{Text, Text-eq, text_eq}
use signalproject.Prelude.Float.{ℤ, Float}

mutual
  pub data Json : Type 0 where
    null : Json
    boolean : Bool → Json
    integer : ℤ → Json
    real : Float → Json
    text : Text → Json
    array : Items → Json
    object : Fields → Json

  pub data Items : Type 0 where
    no_items : Items
    item : Json → Items → Items

  -- A dict's keys and values, in its order
  pub data Fields : Type 0 where
    no_fields : Fields
    field : (key : Text) → Json → Fields → Fields

abbrev pub keys : Fields → List Text
keys no_fields = []
keys (field k v fs) = k ∷ keys fs

-- `value[key]`
abbrev pub lookup : (key : Text) → Fields → Option Json
lookup key no_fields = none
lookup key (field k v fs) = let later = lookup key fs in if text_eq k key then some v else later

pub record JsonText : Type 0 where
  -- `json.dumps` as _canonical_json calls it
  pub dumps : Json → Text
  -- `json.loads`; none is its JSONDecodeError
  pub loads : Text → Option Json
