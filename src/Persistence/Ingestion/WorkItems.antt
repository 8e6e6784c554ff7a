-- ===== src/Persistence/Ingestion/WorkItems.antt =====
-- src/persistence/sqlite/work_items.py: the payload of a work item, its row, and insertion. The JSON
-- text is a parameter; `sort_keys` writes the keys in order, and payloads are given in that order.
pub mod Json
pub mod Codec
mod Sorting
pub mod Laws
pub mod Idempotence
use signalproject.Prelude.{
  ℕ, Bool, true, false, not, ◌&&◌, ◌||◌, Option, none, some, is_some, List, [], ◌∷◌, ◌++◌, Result,
  ok, err, ◌>>=◌, ◌>>◌, raise_if, if◌then◌else◌, ◌==◌, Fault,
}
use signalproject.Prelude.Text.{Text, Text-eq, codes, text_eq}
use signalproject.Persistence.Ingestion.Times.{Calendar}
use signalproject.Persistence.Ingestion.Policy.{WorkItemKind}
use signalproject.Persistence.Ingestion.Work.{
  CollectionWorkItem, DocumentProcessingWorkItem, ResearchWorkItem, IngestionWorkItem, collecting,
  processing, researching,
}
use signalproject.Persistence.Ingestion.WorkItems.Json.{JsonText}
use signalproject.Persistence.Ingestion.WorkItems.Codec.{
  WorkItemError, work_item_conflict, payload_compatibility, persistence_operational, kind_value,
  payload_of, decode_payload, payload_schema_version,
}

pub record Row : Type 0 where
  pub id : Text
  pub kind : Text
  pub payload_json : Text
  pub payload_schema_version : Text
  pub idempotency_key : Text
  pub status : Text
  pub priority : ℕ
  pub available_at : Text
  pub created_at : Text
  pub updated_at : Text
  pub revision : ℕ

abbrev pub item_id : IngestionWorkItem → Text
item_id (collecting w) = w.id
item_id (processing w) = w.id
item_id (researching w) = w.id

abbrev pub item_key : IngestionWorkItem → Text
item_key (collecting w) = w.idempotency_key
item_key (processing w) = w.idempotency_key
item_key (researching w) = w.idempotency_key

abbrev pub item_created_at : IngestionWorkItem → Text
item_created_at (collecting w) = w.created_at
item_created_at (processing w) = w.created_at
item_created_at (researching w) = w.created_at

abbrev pub item_schema_version : IngestionWorkItem → Text
item_schema_version (collecting w) = w.schema_version
item_schema_version (processing w) = w.schema_version
item_schema_version (researching w) = w.schema_version

-- WorkInsertDisposition
pub data WorkInsertDisposition : Type 0 where
  inserted existing : WorkInsertDisposition

-- `SELECT ... WHERE` a test, and the first row of the answer
unfoldable pub select : (where_ : Row → Bool) → List Row → Option Row
select where_ [] = none
select where_ (r ∷ rs) = let later = select where_ rs in if where_ r then some r else later

-- `by_id or by_identity`, unless they are two items
abbrev pub choose :
    (by_id by_identity : Option IngestionWorkItem) → Result WorkItemError IngestionWorkItem
choose none none = err persistence_operational
choose (some found) none = ok found
choose none (some found) = ok found
choose (some found) (some other) =
    if not (text_eq (item_id found) (item_id other)) then err work_item_conflict else ok found

-- Its answer, with the rows left as they are
abbrev pub unchanged :
    List Row
    → Result WorkItemError (WorkInsertDisposition × IngestionWorkItem)
    → List Row × Result WorkItemError (WorkInsertDisposition × IngestionWorkItem)
unchanged rows r = (rows, r)

-- The reload behind the INSERT, and the transaction around it
abbrev pub inserted_into :
    (rows written : List Row)
    → Result WorkItemError (Option IngestionWorkItem)
    → List Row × Result WorkItemError (WorkInsertDisposition × IngestionWorkItem)
inserted_into rows written (ok (some stored)) = (written, ok (inserted, stored))
inserted_into rows written (ok none) = (rows, err persistence_operational)
inserted_into rows written (err e) = (rows, err e)

-- The constraints of the table: the primary key, and one row for each kind and idempotency key
abbrev pub violates : Row → List Row → Bool
violates r rows =
    is_some (select (λ s. text_eq s.id r.id) rows)
    || is_some
        (select (λ s. text_eq s.kind r.kind && text_eq s.idempotency_key r.idempotency_key) rows)

module _ (j : JsonText) where
  -- _encode_work_item_payload
  unfoldable pub encode_work_item_payload : IngestionWorkItem → Text
  unfolding payload_of
  encode_work_item_payload w = j.dumps (payload_of w)

  -- The row that the INSERT writes
  unfoldable pub row_of : IngestionWorkItem → Row
  unfolding encode_work_item_payload
  row_of w = record {
    id = item_id w;
    kind = kind_value w;
    payload_json = encode_work_item_payload w;
    payload_schema_version = payload_schema_version;
    idempotency_key = item_key w;
    status = codes "pending";
    priority = 50;
    available_at = item_created_at w;
    created_at = item_created_at w;
    updated_at = item_created_at w;
    revision = 0;
  }

module _ (c : Calendar) (j : JsonText) where
  -- _row_to_work_item
  unfoldable pub row_to_work_item : Row → Result WorkItemError IngestionWorkItem
  unfolding decode_payload
  row_to_work_item r =
      if not (text_eq r.payload_schema_version payload_schema_version)
      then err payload_compatibility
      else decode_payload c r.kind (j.loads r.payload_json) r.id r.idempotency_key r.created_at
          r.payload_schema_version

  abbrev pub read_row : Option Row → Result WorkItemError (Option IngestionWorkItem)
  read_row none = ok none
  read_row (some r) = do w ← row_to_work_item r; ok (some w)

  -- _get_work_item
  unfoldable pub get : (id : Text) → List Row → Result WorkItemError (Option IngestionWorkItem)
  unfolding select row_to_work_item
  get id rows = read_row (select (λ r. text_eq r.id id) rows)

  -- _find_work_item_by_identity
  unfoldable pub find_by_identity :
      (kind idempotency_key : Text) → List Row → Result WorkItemError (Option IngestionWorkItem)
  unfolding select row_to_work_item
  find_by_identity kind key rows =
      read_row (select (λ r. text_eq r.kind kind && text_eq r.idempotency_key key) rows)

  -- The tests of _resolve_work_item_conflict on what exists
  abbrev pub equivalent :
      (found w : IngestionWorkItem)
      → Result WorkItemError (WorkInsertDisposition × IngestionWorkItem)
  equivalent found w = do
    raise_if
        (not (text_eq (kind_value found) (kind_value w))
          || not (text_eq (item_key found) (item_key w)))
        work_item_conflict
    raise_if (not (text_eq (encode_work_item_payload j found) (encode_work_item_payload j w)))
        work_item_conflict
    ok (existing, found)

  -- _resolve_work_item_conflict
  unfoldable pub resolve_conflict :
      IngestionWorkItem
      → List Row
      → Result WorkItemError (WorkInsertDisposition × IngestionWorkItem)
  unfolding get find_by_identity encode_work_item_payload
  resolve_conflict w rows = do
    by_id ← get (item_id w) rows
    by_identity ← find_by_identity (kind_value w) (item_key w) rows
    found ← choose by_id by_identity
    equivalent found w

  -- _insert_or_resolve_work_item
  unfoldable pub insert_or_resolve :
      IngestionWorkItem
      → List Row
      → List Row × Result WorkItemError (WorkInsertDisposition × IngestionWorkItem)
  unfolding row_of get resolve_conflict
  insert_or_resolve w rows =
      let written = rows ++ row_of j w ∷ [] in
      if violates (row_of j w) rows
      then unchanged rows (resolve_conflict w rows)
      else inserted_into rows written (get (item_id w) written)

  -- SQLiteWorkItemRepository.insert, with _validate_work_item
  unfoldable pub insert :
      IngestionWorkItem
      → List Row
      → List Row × Result WorkItemError (WorkInsertDisposition × IngestionWorkItem)
  unfolding insert_or_resolve
  insert w rows =
      if not (text_eq (item_schema_version w) payload_schema_version)
      then (rows, err payload_compatibility)
      else insert_or_resolve w rows
