-- ===== src/Persistence/Ingestion/Checkpoints.antt =====
-- src/persistence/sqlite/checkpoints.py, as operations on the rows of collection_checkpoints, and the
-- InMemoryCursorStore of src/ingestion/cursor.py. The checkpoint's validation is that of
-- src/ingestion/models.py.
pub mod Rows
pub mod Agreement
pub mod Laws
pub mod Winners
use signalproject.Prelude.{
  ℕ, suc, Bool, true, false, not, ◌&&◌, Option, none, some, is_some, List, [], ◌∷◌, ◌++◌, keep,
  length, map, nat_eq, Result, ok, err, ◌>>=◌, ◌>>◌, raise_if, if◌then◌else◌, ◌==◌, String, Fault,
  value_error, field_error,
}
use signalproject.Prelude.Text.{Text, Text-eq, text_eq, is_empty}
use signalproject.Prelude.Dict.{Dict, lookup, insert}
use signalproject.Persistence.Ingestion.Times.{Calendar, Stamp, naive, aware, normalized}
use signalproject.Persistence.Ingestion.Work.{IngestionCheckpoint}

-- The verdict on a timestamp that was read
abbrev aware_only : String → Option Stamp → Result Fault (Unit {0})
aware_only field none = err (field_error field "must be an ISO8601 timestamp")
aware_only field (some (naive t)) = err (field_error field "must include a timezone")
aware_only field (some (aware utcoffset t)) = ok tt

-- What a checkpoint operation raises: ValueError, CheckpointConflictError (the two classes of that
-- name), or PersistenceOperationalError
pub data CheckpointError : Type 0 where
  invalid : Fault → CheckpointError
  checkpoint_conflict persistence_operational : CheckpointError

module _ (c : Calendar) where
  -- _validate_timestamp of src/ingestion/models.py
  unfoldable pub validate_timestamp : Text → (field : String) → Result Fault (Unit {0})
  validate_timestamp value field = do
    raise_if (is_empty value) (field_error field "is required")
    aware_only field (c.fromisoformat (normalized value))

  abbrev validate_optional : Option Text → (field : String) → Result Fault (Unit {0})
  validate_optional none field = ok tt
  validate_optional (some value) field = validate_timestamp value field

  -- IngestionCheckpoint.__post_init__; a revision is a natural number.
  unfoldable pub checkpoint_post_init : IngestionCheckpoint → Result Fault IngestionCheckpoint
  unfolding validate_timestamp
  checkpoint_post_init k = do
    raise_if (is_empty k.source_id) (value_error "IngestionCheckpoint.source_id is required")
    raise_if (is_empty k.connector_version)
        (value_error "IngestionCheckpoint.connector_version is required")
    validate_optional k.watermark "IngestionCheckpoint.watermark"
    validate_optional k.last_success_at "IngestionCheckpoint.last_success_at"
    ok k

  -- `replace(checkpoint, revision=revision)`
  unfoldable pub with_revision :
      IngestionCheckpoint → ℕ → Result CheckpointError IngestionCheckpoint
  unfolding checkpoint_post_init
  with_revision k revision = elim (checkpoint_post_init (record k { revision = revision })) [
    | ok stored ↦ ok stored
    | err fault ↦ err (invalid fault)
  ]

-- A row of collection_checkpoints
pub record Row : Type 0 where
  pub source_id : Text
  pub cursor : Option Text
  pub watermark : Option Text
  pub last_success_at : Option Text
  pub connector_name : Text
  pub connector_version : Text
  pub revision : ℕ
  pub schema_version : Text
  pub updated_at : Text

-- `SELECT ... WHERE source_id = ?`, and the first row of the answer
unfoldable pub select : (source_id : Text) → List Row → Option Row
select id [] = none
select id (r ∷ rs) = let later = select id rs in if r.source_id == id then some r else later

-- The columns that make a checkpoint
abbrev pub checkpoint_of : Row → IngestionCheckpoint
checkpoint_of r = record {
  source_id = r.source_id;
  cursor = r.cursor;
  watermark = r.watermark;
  last_success_at = r.last_success_at;
  connector_version = r.connector_version;
  revision = r.revision;
  schema_version = r.schema_version;
}

-- `UPDATE ... SET ... WHERE ...`: the rows, and how many of them it changed
unfoldable pub update : (where_ : Row → Bool) → (set : Row → Row) → List Row → List Row × ℕ
update where_ set rows = (map (λ r. if where_ r then set r else r) rows, length (keep where_ rows))

module _ (c : Calendar) where
  -- _row_to_checkpoint
  unfoldable pub row_to_checkpoint : Row → Result CheckpointError IngestionCheckpoint
  unfolding checkpoint_post_init
  row_to_checkpoint r = elim (checkpoint_post_init c (checkpoint_of r)) [
    | ok k ↦ ok k
    | err fault ↦ err persistence_operational
  ]

  -- `_row_to_checkpoint(row) if row is not None else None`
  unfoldable pub read_row : Option Row → Result CheckpointError (Option IngestionCheckpoint)
  unfolding row_to_checkpoint
  read_row none = ok none
  read_row (some r) = do k ← row_to_checkpoint r; ok (some k)

  -- SQLiteCheckpointRepository.get, that is _get_checkpoint
  unfoldable pub get :
      (source_id : Text) → List Row → Result CheckpointError (Option IngestionCheckpoint)
  unfolding select read_row
  get id rows = read_row (select id rows)

  -- `if stored is None: raise`
  abbrev pub reloaded :
      Result CheckpointError (Option IngestionCheckpoint)
      → Result CheckpointError IngestionCheckpoint
  reloaded (ok none) = err persistence_operational
  reloaded (ok (some k)) = ok k
  reloaded (err e) = err e

  -- The reload at the end of both writes
  unfoldable pub reload : (source_id : Text) → List Row → Result CheckpointError IngestionCheckpoint
  unfolding get
  reload id rows = reloaded (get id rows)

  abbrev pub new_row : (now : Text) → IngestionCheckpoint → (connector_name : Text) → Row
  new_row now k connector_name = record {
    source_id = k.source_id;
    cursor = k.cursor;
    watermark = k.watermark;
    last_success_at = k.last_success_at;
    connector_name = connector_name;
    connector_version = k.connector_version;
    revision = 0;
    schema_version = k.schema_version;
    updated_at = now;
  }

  -- `with self._database.transaction()`: what raises leaves the rows as they were.
  abbrev pub committed :
      (rows written : List Row)
      → Result CheckpointError IngestionCheckpoint
      → List Row × Result CheckpointError IngestionCheckpoint
  committed rows written (ok k) = (written, ok k)
  committed rows written (err e) = (rows, err e)

  -- _create_checkpoint in its transaction: source_id is the primary key.
  unfoldable pub create_checkpoint :
      (now : Text)
      → List Row
      → IngestionCheckpoint
      → (connector_name : Text) → List Row × Result CheckpointError IngestionCheckpoint
  unfolding reload select
  create_checkpoint now rows k connector_name =
      let written = rows ++ new_row now k connector_name ∷ [] in
      if is_some (select k.source_id rows)
      then (rows, err checkpoint_conflict)
      else committed rows written (reload k.source_id written)

  abbrev pub is_current :
      IngestionCheckpoint → (expected_revision : ℕ) → (connector_name : Text) → Row → Bool
  is_current k expected_revision connector_name r =
      (r.source_id == k.source_id)
      && (nat_eq r.revision expected_revision
          && ((r.connector_name == connector_name) && (r.connector_version == k.connector_version)))

  abbrev pub set_columns : (now : Text) → IngestionCheckpoint → Row → Row
  set_columns now k r = record r {
    cursor = k.cursor;
    watermark = k.watermark;
    last_success_at = k.last_success_at;
    revision = suc r.revision;
    schema_version = k.schema_version;
    updated_at = now;
  }

  -- _update_checkpoint in its transaction
  unfoldable pub update_checkpoint :
      (now : Text)
      → List Row
      → IngestionCheckpoint
      → (expected_revision : ℕ) → (connector_name : Text)
      → List Row × Result CheckpointError IngestionCheckpoint
  unfolding update reload
  update_checkpoint now rows k expected_revision connector_name =
      let updated =
        update (is_current k expected_revision connector_name) (set_columns now k) rows in
      if not (nat_eq (updated.1) 1)
      then (rows, err checkpoint_conflict)
      else committed rows (updated.0) (reload k.source_id (updated.0))

  abbrev pub write :
      (now : Text)
      → List Row
      → IngestionCheckpoint
      → (expected_revision : Option ℕ) → (connector_name : Text)
      → List Row × Result CheckpointError IngestionCheckpoint
  write now rows k none connector_name = create_checkpoint now rows k connector_name
  write now rows k (some revision) connector_name =
      update_checkpoint now rows k revision connector_name

  -- SQLiteCheckpointRepository.compare_and_set
  unfoldable pub compare_and_set :
      (now : Text)
      → List Row
      → IngestionCheckpoint
      → (expected_revision : Option ℕ) → (connector_name : Text)
      → List Row × Result CheckpointError IngestionCheckpoint
  unfolding create_checkpoint update_checkpoint
  compare_and_set now rows k expected_revision connector_name =
      if is_empty connector_name
      then (rows, err (invalid (value_error "connector_name is required")))
      else write now rows k expected_revision connector_name

  -- What InMemoryCursorStore.compare_and_set stores, if it stores
  unfoldable pub next_stored :
      (current : Option IngestionCheckpoint)
      → IngestionCheckpoint
      → (expected_revision : Option ℕ) → Result CheckpointError IngestionCheckpoint
  unfolding with_revision
  next_stored none k none = with_revision c k 0
  next_stored none k (some revision) = err checkpoint_conflict
  next_stored (some current) k none = err checkpoint_conflict
  next_stored (some current) k (some revision) =
      if not (nat_eq revision current.revision)
      then err checkpoint_conflict
      else if not (k.connector_version == current.connector_version)
      then err checkpoint_conflict
      else with_revision c k (suc current.revision)

  abbrev pub keep_stored :
      Dict Text IngestionCheckpoint
      → (key : Text) → Result CheckpointError IngestionCheckpoint
      → Dict Text IngestionCheckpoint × Result CheckpointError IngestionCheckpoint
  keep_stored store key (err e) = (store, err e)
  keep_stored store key (ok stored) = (insert key stored store, ok stored)

  -- InMemoryCursorStore.compare_and_set
  unfoldable pub memory_compare_and_set :
      Dict Text IngestionCheckpoint
      → IngestionCheckpoint
      → (expected_revision : Option ℕ)
      → Dict Text IngestionCheckpoint × Result CheckpointError IngestionCheckpoint
  unfolding next_stored
  memory_compare_and_set store k expected_revision =
      keep_stored store k.source_id (next_stored (lookup k.source_id store) k expected_revision)
