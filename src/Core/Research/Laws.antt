-- ===== src/Core/Research/Laws.antt =====
-- A concluded research has a time of conclusion, and stays concluded.
use signalproject.Prelude.{◌≡◌, true, arith, Option, List, Result, ok, is_some, ◌==◌, if◌then◌else◌}
use signalproject.Prelude.Text.{Text}
use signalproject.Core.Lifecycle.{Raised, can_transition}
use signalproject.Core.Lifecycle.Laws.{assert_transition-eq-can_transition}
use signalproject.Core.Lifecycle.Graphs.{research_lifecycle}
use signalproject.Core.Lifecycle.Statuses.{ResearchStatus, ResearchStatus-eq}
use signalproject.Core.Research.{
  Research, Reasoning, post_init, transition, start, pause, resume, conclude, add_signals,
  attach_reasoning, flag_traceability_gaps,
}

pub data Method : Type 0 where
  starting resuming concluding flagging : Method
  transitioning : (new_status : ResearchStatus) → Method
  pausing : (reason : Option Text) → Method
  adding : (signal_ids : List Text) → Method
  attaching : Reasoning → Method

abbrev pub call : (now : Text) → Method → Research → Result (Raised ResearchStatus) Research
call now starting r = start now r
call now resuming r = resume now r
call now concluding r = conclude now r
call now flagging r = flag_traceability_gaps now r
call now (transitioning new_status) r = transition now r new_status
call now (pausing reason) r = pause now r reason
call now (adding signal_ids) r = add_signals now r signal_ids
call now (attaching reasoning) r = attach_reasoning now r reasoning

-- A concluded research has its time.
abbrev pub IsStamped : Research → Type 0
IsStamped r = (if r.status == ResearchStatus.concluded then is_some r.concluded_at else true) ≡ true

transition-post_init :
    (now : Text) (r : Research) (target : ResearchStatus) {u : Research}
    → transition now r target ≡ ok u
    → (can_transition research_lifecycle r.status target ≡ true)
      × (post_init now (record r { status = target }) ≡ ok u)
unfolding transition
transition-post_init now r target h =
    ground (arith, assert_transition-eq-can_transition research_lifecycle r.status target)

-- No method that succeeds takes a concluded research to another status.
pub call-concluded :
    (now : Text) (m : Method) (r : Research) {u : Research}
    → r.status ≡ ResearchStatus.concluded
    → call now m r ≡ ok u
    → u.status ≡ ResearchStatus.concluded
unfolding start resume conclude flag_traceability_gaps pause add_signals attach_reasoning
    can_transition
call-concluded now starting r over h =
    ground (arith, transition-post_init now r ResearchStatus.ongoing h)
call-concluded now resuming r over h = ground arith
call-concluded now concluding r over h = ground arith
call-concluded now flagging r over h = unfold post_init in ground arith
call-concluded now (transitioning new_status) r over h =
    ground (arith, transition-post_init now r new_status h)
call-concluded now (pausing reason) r over h =
    unfold transition in
    ground
      (arith, assert_transition-eq-can_transition research_lifecycle r.status ResearchStatus.paused)
call-concluded now (adding signal_ids) r over h = unfold post_init in ground arith
call-concluded now (attaching reasoning) r over h = unfold post_init in ground arith

-- Every call of transition, start, pause, resume, conclude, add_signals, attach_reasoning or
-- flag_traceability_gaps that succeeds, on a research that has a time of conclusion if it is
-- concluded, leaves one that has it if it is concluded.
pub call-IsStamped :
    (now : Text) (m : Method) (r : Research) {u : Research}
    → IsStamped r
    → call now m r ≡ ok u
    → IsStamped u
unfolding start resume conclude flag_traceability_gaps pause add_signals attach_reasoning post_init
    transition
call-IsStamped now starting r s h =
    ground (
      arith,
      assert_transition-eq-can_transition research_lifecycle r.status ResearchStatus.ongoing,
    )
call-IsStamped now resuming r s h = ground arith
call-IsStamped now concluding r s h = ground (
  arith,
  s,
  assert_transition-eq-can_transition research_lifecycle r.status ResearchStatus.concluded,
)
call-IsStamped now flagging r s h = ground arith
call-IsStamped now (transitioning new_status) r s h =
    ground (arith, assert_transition-eq-can_transition research_lifecycle r.status new_status)
call-IsStamped now (pausing reason) r s h =
    ground
      (arith, assert_transition-eq-can_transition research_lifecycle r.status ResearchStatus.paused)
call-IsStamped now (adding signal_ids) r s h = ground arith
call-IsStamped now (attaching reasoning) r s h = ground arith
