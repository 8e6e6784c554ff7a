-- ===== src/Persistence/Ingestion/WorkItems/Codec.antt =====
-- src/persistence/sqlite/work_items.py: the payload of each kind of work item, written and read.
use signalproject.Prelude.{
  ℕ, Bool, true, not, ◌&&◌, Option, none, some, List, [], ◌∷◌, contains, Result, ok, err, ◌>>=◌,
  ◌>>◌, raise_if, if◌then◌else◌, Fault,
}
use signalproject.Prelude.Text.{Text, Text-eq, codes, text_eq, text_lt}
use signalproject.Prelude.Float.{pos}
use signalproject.Persistence.Ingestion.Times.{Calendar}
use signalproject.Persistence.Ingestion.Checkpoints.{checkpoint_post_init}
use signalproject.Persistence.Ingestion.Work.{
  IngestionCheckpoint, CollectionWorkItem, DocumentProcessingWorkItem, ResearchWorkItem,
  IngestionWorkItem, collecting, processing, researching, collection_post_init, document_post_init,
  research_post_init,
}
use signalproject.Persistence.Ingestion.WorkItems.Json.{
  Json, null, integer, text, array, object, no_items, no_fields, Items, item, Fields, field, keys,
  lookup,
}

-- WorkItemConflictError, PayloadCompatibilityError and PersistenceOperationalError
pub data WorkItemError : Type 0 where
  work_item_conflict payload_compatibility persistence_operational : WorkItemError

abbrev pub payload_schema_version : Text
payload_schema_version = codes "1.0.0"

-- _work_item_kind
abbrev pub kind_value : IngestionWorkItem → Text
kind_value (collecting w) = codes "collection"
kind_value (processing w) = codes "document_processing"
kind_value (researching w) = codes "research"

-- `sorted(ids)`
abbrev pub insert_sorted : Text → List Text → List Text
insert_sorted id [] = id ∷ []
insert_sorted id (x ∷ xs) =
    let rest = insert_sorted id xs in if text_lt x id then x ∷ rest else id ∷ x ∷ xs

unfoldable pub sorted : List Text → List Text
sorted [] = []
sorted (x ∷ xs) = insert_sorted x (sorted xs)

abbrev pub optional : Option Text → Json
optional none = null
optional (some t) = text t

abbrev pub texts : List Text → Items
texts [] = no_items
texts (t ∷ ts) = item (text t) (texts ts)

-- _encode_checkpoint
abbrev pub encode_checkpoint : IngestionCheckpoint → Json
encode_checkpoint k = object (
    field (codes "connector_version") (text k.connector_version) (
      field (codes "cursor") (optional k.cursor) (
        field (codes "last_success_at") (optional k.last_success_at) (
          field (codes "revision") (integer (pos k.revision)) (
            field (codes "schema_version") (text k.schema_version) (
              field (codes "source_id") (text k.source_id)
                (field (codes "watermark") (optional k.watermark) no_fields)))))))

abbrev pub encode_optional_checkpoint : Option IngestionCheckpoint → Json
encode_optional_checkpoint none = null
encode_optional_checkpoint (some k) = encode_checkpoint k

-- The payload of _encode_work_item_payload
unfoldable pub payload_of : IngestionWorkItem → Json
unfolding sorted
payload_of (collecting w) = object (
    field (codes "checkpoint") (encode_optional_checkpoint w.checkpoint) (
      field (codes "connector_name") (text w.connector_name) (
        field (codes "connector_version") (text w.connector_version) (
          field (codes "limit") (integer (pos w.limit))
            (field (codes "source_id") (text w.source_id) no_fields)))))
payload_of (processing w) = object (field (codes "document_id") (text w.raw_document_id) no_fields)
payload_of (researching w) = object (
    field (codes "entity_id") (text w.entity_id) (
      field (codes "signal_ids") (array (texts (sorted w.signal_ids)))
        (field (codes "topic_key") (text w.topic_key) no_fields)))

abbrev all_in : List Text → List Text → Bool
all_in [] known = true
all_in (k ∷ ks) known = contains known k && all_in ks known

-- _require_exact_keys: the two sets are equal
abbrev pub require_exact_keys : Fields → (expected : List Text) → Result WorkItemError (Unit {0})
require_exact_keys fs expected =
    raise_if (not (all_in (keys fs) expected && all_in expected (keys fs))) payload_compatibility

abbrev as_string : Option Json → Result WorkItemError Text
as_string (some (text t)) = ok t
as_string _ = err payload_compatibility

-- _require_string
abbrev pub require_string : Fields → (key : Text) → Result WorkItemError Text
require_string fs key = as_string (lookup key fs)

abbrev pub as_optional_string : Option Json → Result WorkItemError (Option Text)
as_optional_string (some null) = ok none
as_optional_string (some (text t)) = ok (some t)
as_optional_string _ = err payload_compatibility

-- _require_optional_string
abbrev pub require_optional_string : Fields → (key : Text) → Result WorkItemError (Option Text)
require_optional_string fs key = as_optional_string (lookup key fs)

-- A negative integer is refused by the validation of the object it is for, with the same error.
abbrev as_integer : Option Json → Result WorkItemError ℕ
as_integer (some (integer (pos n))) = ok n
as_integer _ = err payload_compatibility

-- _require_integer
abbrev pub require_integer : Fields → (key : Text) → Result WorkItemError ℕ
require_integer fs key = as_integer (lookup key fs)

-- The ValueError of an object's validation becomes a PayloadCompatibilityError.
abbrev pub compatible : {A : Type 0} → Result Fault A → Result WorkItemError A
compatible (ok a) = ok a
compatible (err fault) = err payload_compatibility

abbrev pub checkpoint_keys : List Text
checkpoint_keys =
    codes "source_id"
    ∷ codes "cursor"
    ∷ codes "watermark"
    ∷ codes "last_success_at"
    ∷ codes "connector_version"
    ∷ codes "revision"
    ∷ codes "schema_version"
    ∷ []

module _ (c : Calendar) where
  abbrev decode_checkpoint_fields : Fields → Result WorkItemError IngestionCheckpoint
  decode_checkpoint_fields fs = do
    require_exact_keys fs checkpoint_keys
    source_id ← require_string fs (codes "source_id")
    cursor ← require_optional_string fs (codes "cursor")
    watermark ← require_optional_string fs (codes "watermark")
    last_success_at ← require_optional_string fs (codes "last_success_at")
    connector_version ← require_string fs (codes "connector_version")
    revision ← require_integer fs (codes "revision")
    schema_version ← require_string fs (codes "schema_version")
    compatible (
        checkpoint_post_init c (record {
          source_id = source_id;
          cursor = cursor;
          watermark = watermark;
          last_success_at = last_success_at;
          connector_version = connector_version;
          revision = revision;
          schema_version = schema_version;
        }))

  -- `None if value is None else _decode_checkpoint(value)`
  abbrev pub decode_checkpoint : Option Json → Result WorkItemError (Option IngestionCheckpoint)
  decode_checkpoint (some null) = ok none
  decode_checkpoint (some (object fs)) = do k ← decode_checkpoint_fields fs; ok (some k)
  decode_checkpoint _ = err payload_compatibility

  abbrev pub decode_collection :
      Fields → (id key created_at schema_version : Text) → Result WorkItemError CollectionWorkItem
  decode_collection fs id key created_at schema_version = do
    require_exact_keys fs (
        codes "source_id"
        ∷ codes "connector_name"
        ∷ codes "connector_version"
        ∷ codes "checkpoint"
        ∷ codes "limit"
        ∷ [])
    checkpoint ← decode_checkpoint (lookup (codes "checkpoint") fs)
    source_id ← require_string fs (codes "source_id")
    connector_name ← require_string fs (codes "connector_name")
    connector_version ← require_string fs (codes "connector_version")
    limit ← require_integer fs (codes "limit")
    compatible (
        collection_post_init (record {
          source_id = source_id;
          connector_name = connector_name;
          connector_version = connector_version;
          idempotency_key = key;
          checkpoint = checkpoint;
          limit = limit;
          id = id;
          created_at = created_at;
          schema_version = schema_version;
        }))

abbrev pub decode_document :
    Fields
    → (id key created_at schema_version : Text) → Result WorkItemError DocumentProcessingWorkItem
decode_document fs id key created_at schema_version = do
  require_exact_keys fs (codes "document_id" ∷ [])
  raw_document_id ← require_string fs (codes "document_id")
  compatible (
      document_post_init (record {
        raw_document_id = raw_document_id;
        idempotency_key = key;
        id = id;
        created_at = created_at;
        schema_version = schema_version;
      }))

-- `isinstance(signal_values, list)` with strings in it
abbrev pub as_strings : Items → Result WorkItemError (List Text)
as_strings no_items = ok []
as_strings (item (text t) is) = do ts ← as_strings is; ok (t ∷ ts)
as_strings (item _ is) = err payload_compatibility

abbrev pub decode_signal_ids : Option Json → Result WorkItemError (List Text)
decode_signal_ids (some (array is)) = as_strings is
decode_signal_ids _ = err payload_compatibility

abbrev pub decode_research :
    Fields → (id key created_at schema_version : Text) → Result WorkItemError ResearchWorkItem
decode_research fs id key created_at schema_version = do
  require_exact_keys fs (codes "entity_id" ∷ codes "signal_ids" ∷ codes "topic_key" ∷ [])
  signal_ids ← decode_signal_ids (lookup (codes "signal_ids") fs)
  entity_id ← require_string fs (codes "entity_id")
  topic_key ← require_string fs (codes "topic_key")
  compatible (
      research_post_init (record {
        entity_id = entity_id;
        signal_ids = signal_ids;
        topic_key = topic_key;
        idempotency_key = key;
        id = id;
        created_at = created_at;
        schema_version = schema_version;
      }))

abbrev as_item :
    {A : Type 0}
    → (A → IngestionWorkItem)
    → Result WorkItemError A
    → Result WorkItemError IngestionWorkItem
as_item f (ok w) = ok (f w)
as_item f (err e) = err e

-- The part of _row_to_work_item behind the schema version, with what `json.loads` made of the payload
unfoldable pub decode_payload :
    Calendar
    → (kind : Text) → Option Json
    → (id key created_at schema_version : Text) → Result WorkItemError IngestionWorkItem
decode_payload c kind (some (object fs)) id key created_at schema_version =
    if text_eq kind (codes "collection")
    then as_item (λ w. collecting w) (decode_collection c fs id key created_at schema_version)
    else if text_eq kind (codes "document_processing")
    then as_item (λ w. processing w) (decode_document fs id key created_at schema_version)
    else if text_eq kind (codes "research")
    then as_item (λ w. researching w) (decode_research fs id key created_at schema_version)
    else err payload_compatibility
decode_payload c kind _ id key created_at schema_version = err payload_compatibility
