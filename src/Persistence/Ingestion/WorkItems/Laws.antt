-- ===== src/Persistence/Ingestion/WorkItems/Laws.antt =====
-- A work item that is written and read back.
use signalproject.Prelude.{◌≡◌, refl, sym, arith, Option, none, some, ok}
use signalproject.Prelude.Text.{Text, Text-eq}
use signalproject.Persistence.Ingestion.Times.{Calendar}
use signalproject.Persistence.Ingestion.Checkpoints.Agreement.{IsValid}
use signalproject.Persistence.Ingestion.Work.{
  IngestionCheckpoint, CollectionWorkItem, DocumentProcessingWorkItem, ResearchWorkItem,
  IngestionWorkItem, collecting, processing, researching, validate_common, collection_post_init,
  document_post_init, research_post_init,
}
use signalproject.Persistence.Ingestion.WorkItems.Json.{JsonText}
use signalproject.Persistence.Ingestion.WorkItems.{
  item_id, item_key, item_created_at, item_schema_version, encode_work_item_payload, row_of,
  row_to_work_item,
}
use signalproject.Persistence.Ingestion.WorkItems.Codec.{
  payload_of, decode_payload, kind_value, payload_schema_version, sorted, decode_checkpoint,
  encode_optional_checkpoint, as_optional_string, optional,
}
use signalproject.Persistence.Ingestion.WorkItems.Sorting.{
  length-sorted, all_distinct-sorted, as_strings-texts,
}

abbrev IsValidOption : Calendar → Option IngestionCheckpoint → Type 0
IsValidOption c none = Unit
IsValidOption c (some k) = IsValid c k

-- A work item, and a checkpoint in it, that their own validations accept
abbrev pub IsAccepted : Calendar → IngestionWorkItem → Type 0
IsAccepted c (collecting w) = (collection_post_init w ≡ ok w) × IsValidOption c w.checkpoint
IsAccepted c (processing w) = document_post_init w ≡ ok w
IsAccepted c (researching w) = research_post_init w ≡ ok w

-- The work item with the ids of its signals in order
abbrev pub canonical : IngestionWorkItem → IngestionWorkItem
canonical (collecting w) = collecting w
canonical (processing w) = processing w
canonical (researching w) = researching (record w { signal_ids = sorted w.signal_ids })

as_optional_string-optional : (t : Option Text) → as_optional_string (some (optional t)) ≡ ok t
as_optional_string-optional none = refl
as_optional_string-optional (some x) = refl

decode_checkpoint_lem :
    (c : Calendar) (k : Option IngestionCheckpoint)
    → IsValidOption c k
    → decode_checkpoint c (some (encode_optional_checkpoint k)) ≡ ok k
decode_checkpoint_lem c none h = refl
decode_checkpoint_lem c (some k) h =
    rw
      (
        as_optional_string-optional k.cursor,
        as_optional_string-optional k.watermark,
        as_optional_string-optional k.last_success_at,
        h,
      )
      refl

decode_document_lem :
    (c : Calendar) (w : DocumentProcessingWorkItem)
    → document_post_init w ≡ ok w
    → decode_payload c
        (kind_value (processing w))
        (some (payload_of (processing w)))
        w.id
        w.idempotency_key
        w.created_at
        w.schema_version
      ≡ ok (processing w)
unfolding decode_payload payload_of
decode_document_lem c w h = rw h refl

research_post_init-sorted :
    (w : ResearchWorkItem)
    → research_post_init w ≡ ok w
    → research_post_init (record w { signal_ids = sorted w.signal_ids })
      ≡ ok (record w { signal_ids = sorted w.signal_ids })
unfolding research_post_init validate_common
research_post_init-sorted w h =
    ground (arith, length-sorted w.signal_ids, all_distinct-sorted w.signal_ids)

decode_research_lem :
    (c : Calendar) (w : ResearchWorkItem)
    → research_post_init w ≡ ok w
    → decode_payload c
        (kind_value (researching w))
        (some (payload_of (researching w)))
        w.id
        w.idempotency_key
        w.created_at
        w.schema_version
      ≡ ok (researching (record w { signal_ids = sorted w.signal_ids }))
unfolding decode_payload payload_of
decode_research_lem c w h =
    rw (as_strings-texts (sorted w.signal_ids), research_post_init-sorted w h) refl

decode_collection_lem :
    (c : Calendar) (w : CollectionWorkItem)
    → collection_post_init w ≡ ok w
    → IsValidOption c w.checkpoint
    → decode_payload c
        (kind_value (collecting w))
        (some (payload_of (collecting w)))
        w.id
        w.idempotency_key
        w.created_at
        w.schema_version
      ≡ ok (collecting w)
unfolding decode_payload payload_of
decode_collection_lem c w h v = rw (decode_checkpoint_lem c w.checkpoint v, h) refl

-- The payload read back, with the other columns of the row
decode_payload-payload_of :
    (c : Calendar) (w : IngestionWorkItem)
    → IsAccepted c w
    → decode_payload c
        (kind_value w)
        (some (payload_of w))
        (item_id w)
        (item_key w)
        (item_created_at w)
        (item_schema_version w)
      ≡ ok (canonical w)
decode_payload-payload_of c (collecting w) h = decode_collection_lem c w h.0 h.1
decode_payload-payload_of c (processing w) h = decode_document_lem c w h
decode_payload-payload_of c (researching w) h = decode_research_lem c w h

-- What is inserted reads back. For a work item that its own validation accepts, with a valid
-- checkpoint if it has one, in the schema version 1.0.0, and whose payload json.loads gives back from
-- its text: the row that the INSERT writes becomes the same work item, except that the signal ids of
-- research work come back sorted.
pub row_to_work_item-row_of :
    (c : Calendar) (j : JsonText) (w : IngestionWorkItem)
    → IsAccepted c w
    → item_schema_version w ≡ payload_schema_version
    → j.loads (j.dumps (payload_of w)) ≡ some (payload_of w)
    → row_to_work_item c j (row_of j w) ≡ ok (canonical w)
unfolding row_to_work_item row_of encode_work_item_payload
row_to_work_item-row_of c j w h version text =
    rw (text, sym version) (decode_payload-payload_of c w h)
