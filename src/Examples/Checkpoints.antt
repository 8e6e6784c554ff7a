-- ===== src/Examples/Checkpoints.antt =====
-- Concrete runs of the theorems on checkpoints.
use signalproject.Prelude.{◌≡◌, refl, none, some, List, [], ◌∷◌, All, ok, err}
use signalproject.Prelude.Text.{Text, Text-eq, codes}
use signalproject.Prelude.Dict.{Dict, lookup, insert}
use signalproject.Persistence.Ingestion.Work.{IngestionCheckpoint}
use signalproject.Persistence.Ingestion.Checkpoints.{
  checkpoint_conflict, checkpoint_post_init, memory_compare_and_set, get,
}
use signalproject.Persistence.Ingestion.Checkpoints.Agreement.{IsValid}
use signalproject.Persistence.Ingestion.Checkpoints.Laws.{
  Command, table_run, memory_run, table_run-memory_run,
}
use signalproject.Persistence.Ingestion.Checkpoints.Winners.{compare_and_set_once}
use signalproject.Examples.Ingestion.{plain}

-- The progress of the feed `feed` up to a cursor
abbrev progress : (cursor : Text) → IngestionCheckpoint
progress cursor = record {
  source_id = codes "feed";
  cursor = some cursor;
  watermark = none;
  last_success_at = none;
  connector_version = codes "1.0.0";
  revision = 0;
  schema_version = codes "1.0.0";
}

progress-IsValid : (cursor : Text) → IsValid plain (progress cursor)
unfolding checkpoint_post_init
progress-IsValid cursor = refl

-- Created, advanced, and written once more by a writer that is late
abbrev commands : List Command
commands =
    record { now = codes "t0"; checkpoint = progress (codes "a"); expected_revision = none }
    ∷ record { now = codes "t1"; checkpoint = progress (codes "b"); expected_revision = some 0 }
    ∷ record { now = codes "t2"; checkpoint = progress (codes "c"); expected_revision = some 0 }
    ∷ []

commands-IsValid : All (λ m. IsValid plain m.checkpoint) commands
commands-IsValid = (
  progress-IsValid (codes "a"),
  (progress-IsValid (codes "b"), (progress-IsValid (codes "c"), tt)),
)

table_run-memory_run_example :
    ((table_run plain (codes "rss") commands []).1 ≡ (memory_run plain commands []).1)
    × ((id : Text)
        → get plain id (table_run plain (codes "rss") commands []).0
          ≡ ok (lookup id (memory_run plain commands []).0))
table_run-memory_run_example =
    table_run-memory_run plain (codes "rss") commands refl commands-IsValid

-- The store after the feed's first checkpoint
abbrev created : Dict Text IngestionCheckpoint
created = (codes "feed", progress (codes "a")) ∷ []

created_lem :
    memory_compare_and_set plain [] (progress (codes "a")) none
    ≡ (created, ok (progress (codes "a")))
unfolding memory_compare_and_set lookup insert checkpoint_post_init
created_lem = refl

compare_and_set_once_example :
    memory_compare_and_set plain created (progress (codes "b")) none
    ≡ (created, err checkpoint_conflict)
compare_and_set_once_example =
    compare_and_set_once plain [] created (progress (codes "a")) (progress (codes "b"))
      (progress (codes "a")) none created_lem refl
