-- ===== src/Core/Signals/Laws.antt =====
-- What one method of a Signal does.
use signalproject.Prelude.{◌≡◌, true, arith, ok, err, if◌then◌else◌}
use signalproject.Prelude.Dict.{lookup}
use signalproject.Core.Lifecycle.{lifecycle_error, can_transition, allowed_from}
use signalproject.Core.Lifecycle.Laws.{assert_transition-eq-can_transition}
use signalproject.Core.Lifecycle.Graphs.{signal_lifecycle}
use signalproject.Core.Lifecycle.Statuses.{SignalStatus, SignalStatus-eq}
use signalproject.Core.Signals.{Signal, post_init, transition}

-- A signal that its own validation accepts; every signal that the program holds is one.
abbrev pub IsWellFormed : Signal → Type 0
IsWellFormed s = post_init s ≡ ok s

-- Validation does not read the status.
pub post_init-status :
    (s : Signal) (status : SignalStatus)
    → IsWellFormed s
    → IsWellFormed (record s { status = status })
unfolding post_init
post_init-status s status h = ground arith

-- On a well-formed signal a transition that the graph allows changes the status and nothing else,
-- and every other one raises the LifecycleError that names the allowed targets.
pub transition_lem :
    (s : Signal) (target : SignalStatus)
    → IsWellFormed s
    → transition s target ≡ (
        if can_transition signal_lifecycle s.status target
        then ok (record s { status = target })
        else err
            (lifecycle_error s.status target (allowed_from (lookup s.status signal_lifecycle))))
unfolding transition
transition_lem s target h = ground (
  arith,
  assert_transition-eq-can_transition signal_lifecycle s.status target,
  post_init-status s target h,
)

pub transition-eq-ok :
    (s : Signal) (target : SignalStatus) {t : Signal}
    → transition s target ≡ ok t
    → (can_transition signal_lifecycle s.status target ≡ true)
      × (t ≡ record s { status = target })
      × (IsWellFormed t)
unfolding transition post_init
transition-eq-ok s target h =
    ground (arith, assert_transition-eq-can_transition signal_lifecycle s.status target)
