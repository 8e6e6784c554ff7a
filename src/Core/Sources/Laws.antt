-- ===== src/Core/Sources/Laws.antt =====
-- A retired source stays retired, and what each method leads to.
use signalproject.Prelude.{◌≡◌, true, arith, Option, Result, ok}
use signalproject.Prelude.Text.{Text}
use signalproject.Core.Lifecycle.{can_transition}
use signalproject.Core.Lifecycle.Laws.{assert_transition-eq-can_transition}
use signalproject.Core.Lifecycle.Graphs.{source_lifecycle}
use signalproject.Core.Lifecycle.Statuses.{SourceStatus, SourceStatus-eq}
use signalproject.Core.Lifecycle.{Raised}
use signalproject.Core.Sources.{
  Source, post_init, transition, deactivate, reactivate, activate, retire, record_observation,
  add_health_note,
}

pub data Method : Type 0 where
  deactivating reactivating activating retiring : Method
  observing : (now : Text) (timestamp : Option Text) → Method
  noting : (note : Text) → Method

abbrev pub call : Method → Source → Result (Raised SourceStatus) Source
call deactivating s = deactivate s
call reactivating s = reactivate s
call activating s = activate s
call retiring s = retire s
call (observing now timestamp) s = record_observation now s timestamp
call (noting note) s = add_health_note s note

transition-eq-ok :
    (s : Source) (target : SourceStatus) {u : Source}
    → transition s target ≡ ok u
    → (can_transition source_lifecycle s.status target ≡ true) × (u ≡ record s { status = target })
unfolding transition post_init
transition-eq-ok s target h =
    ground (arith, assert_transition-eq-can_transition source_lifecycle s.status target)

-- No method that succeeds brings a retired source back.
pub call-retired :
    (m : Method) (s : Source) {u : Source}
    → s.status ≡ SourceStatus.retired
    → call m s ≡ ok u
    → u.status ≡ SourceStatus.retired
unfolding deactivate reactivate activate retire record_observation add_health_note post_init
    can_transition
call-retired deactivating s over h = ground (arith, transition-eq-ok s SourceStatus.deactivated h)
call-retired reactivating s over h = ground arith
call-retired activating s over h = ground (arith, transition-eq-ok s SourceStatus.active h)
call-retired retiring s over h = ground arith
call-retired (observing now timestamp) s over h = ground arith
call-retired (noting note) s over h = ground arith

-- A source that its validation accepts can be retired, whatever its status: that changes the status
-- and nothing else.
pub retire_total :
    (s : Source) → post_init s ≡ ok s → retire s ≡ ok (record s { status = SourceStatus.retired })
unfolding retire transition post_init can_transition
retire_total s h =
    ground
      (arith, assert_transition-eq-can_transition source_lifecycle s.status SourceStatus.retired)

-- An active source that its validation accepts can be deactivated.
pub deactivate_total :
    (s : Source)
    → post_init s ≡ ok s
    → s.status ≡ SourceStatus.active
    → transition s SourceStatus.deactivated ≡ ok (record s { status = SourceStatus.deactivated })
unfolding transition post_init can_transition
deactivate_total s h active =
    ground (
      arith,
      assert_transition-eq-can_transition source_lifecycle s.status SourceStatus.deactivated,
    )
