-- ===== src/Persistence/Ingestion/Work.antt =====
-- src/ingestion/work.py: the typed work items, and the IngestionCheckpoint that one of them carries.
-- The checkpoint's own validation, of src/ingestion/models.py, is in Checkpoints.
use signalproject.Prelude.{
  ℕ, not, Option, none, some, List, nat_eq, length, all_distinct, Result, ok, ◌>>◌, raise_if, Fault,
  value_error,
}
use signalproject.Prelude.Text.{Text, Text-eq, text_eq, is_empty}
use signalproject.Persistence.Ingestion.Policy.{WorkItemKind}

pub record IngestionCheckpoint : Type 0 where
  pub source_id : Text
  pub cursor : Option Text
  pub watermark : Option Text
  pub last_success_at : Option Text
  pub connector_version : Text
  pub revision : ℕ
  pub schema_version : Text

pub record CollectionWorkItem : Type 0 where
  pub source_id : Text
  pub connector_name : Text
  pub connector_version : Text
  pub idempotency_key : Text
  pub checkpoint : Option IngestionCheckpoint
  pub limit : ℕ
  pub id : Text
  pub created_at : Text
  pub schema_version : Text

pub record DocumentProcessingWorkItem : Type 0 where
  pub raw_document_id : Text
  pub idempotency_key : Text
  pub id : Text
  pub created_at : Text
  pub schema_version : Text

pub record ResearchWorkItem : Type 0 where
  pub entity_id : Text
  pub signal_ids : List Text
  pub topic_key : Text
  pub idempotency_key : Text
  pub id : Text
  pub created_at : Text
  pub schema_version : Text

-- _validate_common
unfoldable pub validate_common :
    (id idempotency_key schema_version : Text) → Result Fault (Unit {0})
validate_common id idempotency_key schema_version = do
  raise_if (is_empty id) (value_error "WorkItem.id is required")
  raise_if (is_empty idempotency_key) (value_error "WorkItem.idempotency_key is required")
  raise_if (is_empty schema_version) (value_error "WorkItem.schema_version is required")

-- The two tests of the checkpoint
abbrev checkpoint_fits : CollectionWorkItem → Option IngestionCheckpoint → Result Fault (Unit {0})
checkpoint_fits w none = ok tt
checkpoint_fits w (some checkpoint) = do
  raise_if (not (text_eq checkpoint.source_id w.source_id))
      (value_error "CollectionWorkItem checkpoint belongs to another Source")
  raise_if (not (text_eq checkpoint.connector_version w.connector_version))
      (value_error "CollectionWorkItem checkpoint uses another Connector version")

-- CollectionWorkItem.__post_init__; a negative limit raises as 0 does.
unfoldable pub collection_post_init : CollectionWorkItem → Result Fault CollectionWorkItem
unfolding validate_common
collection_post_init w = do
  validate_common w.id w.idempotency_key w.schema_version
  raise_if (is_empty w.source_id) (value_error "CollectionWorkItem.source_id is required")
  raise_if (is_empty w.connector_name) (value_error "CollectionWorkItem.connector_name is required")
  raise_if (is_empty w.connector_version)
      (value_error "CollectionWorkItem.connector_version is required")
  raise_if (nat_eq w.limit 0) (value_error "CollectionWorkItem.limit must be positive")
  checkpoint_fits w w.checkpoint
  ok w

-- DocumentProcessingWorkItem.__post_init__
unfoldable pub document_post_init :
    DocumentProcessingWorkItem → Result Fault DocumentProcessingWorkItem
unfolding validate_common
document_post_init w = do
  validate_common w.id w.idempotency_key w.schema_version
  raise_if (is_empty w.raw_document_id)
      (value_error "DocumentProcessingWorkItem.raw_document_id is required")
  ok w

-- ResearchWorkItem.__post_init__
unfoldable pub research_post_init : ResearchWorkItem → Result Fault ResearchWorkItem
unfolding validate_common
research_post_init w = do
  validate_common w.id w.idempotency_key w.schema_version
  raise_if (is_empty w.entity_id) (value_error "ResearchWorkItem.entity_id is required")
  raise_if (nat_eq (length w.signal_ids) 0)
      (value_error "ResearchWorkItem requires at least one Signal")
  raise_if (not (all_distinct w.signal_ids))
      (value_error "ResearchWorkItem.signal_ids must be unique")
  raise_if (is_empty w.topic_key) (value_error "ResearchWorkItem.topic_key is required")
  ok w

-- The union of src/persistence/ingestion/models.py
pub data IngestionWorkItem : Type 0 where
  collecting : CollectionWorkItem → IngestionWorkItem
  processing : DocumentProcessingWorkItem → IngestionWorkItem
  researching : ResearchWorkItem → IngestionWorkItem

abbrev pub work_item_kind : IngestionWorkItem → WorkItemKind
work_item_kind (collecting w) = WorkItemKind.collection
work_item_kind (processing w) = WorkItemKind.document_processing
work_item_kind (researching w) = WorkItemKind.research
