-- ===== src/Persistence/Lifecycle.antt =====
-- src/persistence/lifecycle.py: helpers that call a method of an object and write the result. The
-- new store comes back beside the object; on an exception nothing has been written.
pub mod Laws
use signalproject.Prelude.{Option, none, List, Result, ok, err, ◌>>=◌, Fault}
use signalproject.Prelude.Text.{Text}
use signalproject.Core.Lifecycle.{Raised}
use signalproject.Core.Lifecycle.Statuses.{SignalStatus, ThesisStatus, ResearchStatus, SourceStatus}
use signalproject.Core.Entities
use signalproject.Core.Entities.{Entity, EntityStatus}
use signalproject.Core.Sources
use signalproject.Core.Sources.{Source}
use signalproject.Core.Signals
use signalproject.Core.Signals.{Signal}
use signalproject.Core.Research
use signalproject.Core.Research.{Research}
use signalproject.Core.Theses
use signalproject.Core.Theses.{Thesis}
use signalproject.Persistence.Override
use signalproject.Persistence.Override.{OverrideAction, OverrideRecord}
use signalproject.Persistence.Store.{
  Store, put_entity, put_source, put_signal, put_research, put_thesis, append_override,
}

-- `actor` is not read by the source.
unfoldable pub retire_entity :
    Store
    → Entity
    → (reason : EntityStatus) → (actor : Text) → Result (Raised EntityStatus) (Entity × Store)
retire_entity store entity reason actor = do
  retired ← Entities.retire entity reason
  ok (retired, put_entity store retired)

unfoldable pub retire_source : Store → Source → Result (Raised SourceStatus) (Source × Store)
retire_source store source = do
  retired ← Sources.retire source
  ok (retired, put_source store retired)

unfoldable pub retire_signal : Store → Signal → Result (Raised SignalStatus) (Signal × Store)
retire_signal store signal = do
  decayed ← Signals.decay signal
  ok (decayed, put_signal store decayed)

unfoldable pub supersede_signal : Store → Signal → Result (Raised SignalStatus) (Signal × Store)
supersede_signal store signal = do
  superseded ← Signals.supersede signal
  ok (superseded, put_signal store superseded)

unfoldable pub conclude_research :
    (now : Text) → Store → Research → Result (Raised ResearchStatus) (Research × Store)
conclude_research now store research = do
  concluded ← Research.conclude now research
  ok (concluded, put_research store concluded)

-- Path B. `now`, `created_at` and `later` are what the calls of `now_utc()` return, in order.
unfoldable pub supersede_thesis :
    (now created_at fresh_id later : Text)
    → Store
    → (prior : Thesis) → (new_interpretation by : Text)
    → Result (Raised ThesisStatus) (Thesis × Store)
supersede_thesis now created_at fresh_id later store prior new_interpretation by = do
  successor ← Theses.supersede_with now created_at fresh_id prior new_interpretation by prior.id
  marked_prior ← Theses.supersede later prior by
  ok (successor, put_thesis (put_thesis store marked_prior) successor)

unfoldable pub append_curator_override :
    (new_id now : Text)
    → Store
    → (target_id : Text) → OverrideAction
    → (rationale actor : Text) → (payload : Option (List (Text × Text)))
    → Result Fault (OverrideRecord × Store)
append_curator_override new_id now store target_id action rationale actor payload = do
  made ← Override.create new_id now target_id action rationale actor payload none none
  ok (made, append_override store made)
