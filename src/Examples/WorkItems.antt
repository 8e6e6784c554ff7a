-- ===== src/Examples/WorkItems.antt =====
-- Concrete runs of the theorems on work items.
use signalproject.Prelude.{◌≡◌, refl, false, some, List, [], ◌∷◌, ok}
use signalproject.Prelude.Text.{Text, codes}
use signalproject.Persistence.Ingestion.Work.{
  ResearchWorkItem, IngestionWorkItem, researching, research_post_init, validate_common,
}
use signalproject.Persistence.Ingestion.WorkItems.Json.{JsonText}
use signalproject.Persistence.Ingestion.WorkItems.{
  select, row_of, row_to_work_item, insert, inserted, existing, violates,
}
use signalproject.Persistence.Ingestion.WorkItems.Codec.{payload_of, sorted}
use signalproject.Persistence.Ingestion.WorkItems.Laws.{IsAccepted, row_to_work_item-row_of}
use signalproject.Persistence.Ingestion.WorkItems.Idempotence.{insert_again}
use signalproject.Examples.Ingestion.{plain}

-- Research on two signals
abbrev research : (signal_ids : List Text) → ResearchWorkItem
research signal_ids = record {
  entity_id = codes "e1";
  signal_ids = signal_ids;
  topic_key = codes "margins";
  idempotency_key = codes "k1";
  id = codes "w1";
  created_at = codes "t0";
  schema_version = codes "1.0.0";
}

abbrev item : IngestionWorkItem
item = researching (research (codes "s2" ∷ codes "s1" ∷ []))

abbrev read_item : IngestionWorkItem
read_item = researching (research (codes "s1" ∷ codes "s2" ∷ []))

item-IsAccepted : IsAccepted plain item
unfolding research_post_init validate_common
item-IsAccepted = refl

-- A JSON text that names the one payload that it stands for
abbrev one_payload : JsonText
one_payload = record { dumps = λ v. codes "item"; loads = λ t. some (payload_of item) }

row_to_work_item-row_of_example :
    row_to_work_item plain one_payload (row_of one_payload item) ≡ ok read_item
unfolding sorted
row_to_work_item-row_of_example =
    row_to_work_item-row_of plain one_payload item item-IsAccepted refl refl

no_collision : violates (row_of one_payload item) [] ≡ false
unfolding select
no_collision = refl

insert_again_example :
    (insert plain one_payload item [] ≡ (row_of one_payload item ∷ [], ok (inserted, read_item)))
    × (insert plain one_payload item (row_of one_payload item ∷ [])
        ≡ (row_of one_payload item ∷ [], ok (existing, read_item)))
unfolding sorted
insert_again_example = insert_again plain one_payload item [] item-IsAccepted refl refl no_collision
