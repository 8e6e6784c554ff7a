-- ===== src/Persistence/Store.antt =====
-- src/persistence/in_memory.py: InMemoryStore, the Store of src/persistence/store.py over dicts.
-- snapshot and restore convert to and from JSON values and are not modelled.
pub mod Laws
use signalproject.Prelude.{
  Bool, Option, none, some, List, [], ◌∷◌, ◌++◌, is_some, Result, ok, err, if◌then◌else◌,
}
use signalproject.Prelude.Text.{Text, Text-eq, text_eq}
use signalproject.Prelude.Dict.{Dict, lookup, insert, values}
use signalproject.Core.Entities.{Entity}
use signalproject.Core.Sources.{Source}
use signalproject.Core.Evidence.{Evidence}
use signalproject.Core.Signals.{Signal}
use signalproject.Core.Research.{Research}
use signalproject.Core.Theses.{Thesis}
use signalproject.Persistence.Override.{OverrideRecord}

pub record Store : Type 0 where
  pub entities : Dict Text Entity
  pub sources : Dict Text Source
  pub evidence : Dict Text Evidence
  pub signals : Dict Text Signal
  pub research : Dict Text Research
  pub theses : Dict Text Thesis
  pub overrides : List OverrideRecord

pub data StoreError : Type 0 where
  evidence_already_exists : (evidence_id : Text) → StoreError

abbrev pub empty : Store
empty = record {
  entities = [];
  sources = [];
  evidence = [];
  signals = [];
  research = [];
  theses = [];
  overrides = [];
}

unfoldable pub put_entity : Store → Entity → Store
unfolding insert
put_entity s x = record s { entities = insert x.id x s.entities }

unfoldable pub get_entity : Store → Text → Option Entity
unfolding lookup
get_entity s id = lookup id s.entities

unfoldable pub list_entities : Store → List Entity
list_entities s = values s.entities

unfoldable pub put_source : Store → Source → Store
unfolding insert
put_source s x = record s { sources = insert x.id x s.sources }

unfoldable pub get_source : Store → Text → Option Source
unfolding lookup
get_source s id = lookup id s.sources

unfoldable pub list_sources : Store → List Source
list_sources s = values s.sources

-- Evidence is write-once.
unfoldable pub put_evidence : Store → Evidence → Result StoreError Store
unfolding insert lookup
put_evidence s x =
    if is_some (lookup x.id s.evidence)
    then err (evidence_already_exists x.id)
    else ok (record s { evidence = insert x.id x s.evidence })

unfoldable pub get_evidence : Store → Text → Option Evidence
unfolding lookup
get_evidence s id = lookup id s.evidence

unfoldable pub list_evidence : Store → List Evidence
list_evidence s = values s.evidence

unfoldable pub put_signal : Store → Signal → Store
unfolding insert
put_signal s x = record s { signals = insert x.id x s.signals }

unfoldable pub get_signal : Store → Text → Option Signal
unfolding lookup
get_signal s id = lookup id s.signals

unfoldable pub list_signals : Store → List Signal
list_signals s = values s.signals

unfoldable pub put_research : Store → Research → Store
unfolding insert
put_research s x = record s { research = insert x.id x s.research }

unfoldable pub get_research : Store → Text → Option Research
unfolding lookup
get_research s id = lookup id s.research

unfoldable pub list_research : Store → List Research
list_research s = values s.research

unfoldable pub put_thesis : Store → Thesis → Store
unfolding insert
put_thesis s x = record s { theses = insert x.id x s.theses }

unfoldable pub get_thesis : Store → Text → Option Thesis
unfolding lookup
get_thesis s id = lookup id s.theses

unfoldable pub list_theses : Store → List Thesis
list_theses s = values s.theses

unfoldable pub append_override : Store → OverrideRecord → Store
append_override s r = record s { overrides = s.overrides ++ r ∷ [] }

pub targets : Text → List OverrideRecord → List OverrideRecord
targets target_id [] = []
targets target_id (r ∷ rs) =
    if text_eq r.target_id target_id then r ∷ targets target_id rs else targets target_id rs

unfoldable pub list_overrides : Store → (target_id : Option Text) → List OverrideRecord
list_overrides s none = s.overrides
list_overrides s (some target_id) = targets target_id s.overrides

unfoldable pub clear : Store → Store
clear s = empty
