-- ===== src/Core/Signals/Histories.antt =====
-- Lives of a Signal: any sequence of its lifecycle methods, with the statuses that it has left.
use signalproject.Prelude.{
  ℕ, ◌+◌, ◌≤◌, ◌≡◌, true, List, [], ◌∷◌, arith, length, contains, ok, refl, subst, sym,
}
use signalproject.Core.Lifecycle.{can_transition}
use signalproject.Core.Lifecycle.Graphs.{signal_lifecycle}
use signalproject.Core.Lifecycle.Statuses.{SignalStatus, SignalStatus-eq}
use signalproject.Core.Signals.{Signal, transition}
use signalproject.Core.Signals.Laws.{transition-eq-ok}

-- `Life s seen t`: the methods took `s` to `t`, through the statuses in `seen`, the latest first.
pub data Life (s : Signal) : List SignalStatus → Signal → Type 0 where
  created : Life s [] s
  moved :
      {t u : Signal} {seen : List SignalStatus} (target : SignalStatus)
      → Life s seen t
      → transition t target ≡ ok u
      → Life s (t.status ∷ seen) u

-- What a status says of the ones before it.
abbrev Covers : SignalStatus → List SignalStatus → Type 0
Covers SignalStatus.draft seen = Unit
Covers SignalStatus.verified seen = Unit
Covers SignalStatus.rejected seen = Unit
Covers _ seen = contains seen SignalStatus.verified ≡ true

-- How far a status is along the lifecycle.
abbrev rank : SignalStatus → ℕ
rank SignalStatus.draft = 0
rank SignalStatus.verified = 1
rank SignalStatus.held = 2
rank SignalStatus.active = 3
rank _ = 4

Covers-step :
    (a b : SignalStatus) (seen : List SignalStatus)
    → can_transition signal_lifecycle a b ≡ true
    → Covers a seen
    → Covers b (a ∷ seen)
unfolding can_transition
Covers-step SignalStatus.draft b seen h k = ground arith
Covers-step _ b seen h k = ground arith

rank-step : (a b : SignalStatus) → can_transition signal_lifecycle a b ≡ true → rank a + 1 ≤ rank b
unfolding can_transition
rank-step SignalStatus.draft b h = ground arith
rank-step _ b h = ground arith

Life-Covers :
    {s t : Signal} {seen : List SignalStatus}
    → Life s seen t
    → Covers s.status []
    → Covers t.status seen
Life-Covers created c = c
Life-Covers (moved {t = t} {u = u} {seen = seen} target l h) c =
    let (edge, same, _) = transition-eq-ok t target h in
    subst (λ (v : Signal). Covers v.status (t.status ∷ seen)) (sym same)
      (Covers-step t.status target seen edge (Life-Covers l c))

Life-rank :
    {s t : Signal} {seen : List SignalStatus}
    → Life s seen t
    → rank s.status + length seen ≤ rank t.status
Life-rank created = omega arith
Life-rank (moved {t = t} target l h) =
    let (edge, same, _) = transition-eq-ok t target h in
    ground (arith, Life-rank l, rank-step t.status target edge)

-- A signal that was created a draft is never active unless it was verified before: INV-8 for every
-- sequence of lifecycle methods.
pub active_after_verified :
    {s t : Signal} {seen : List SignalStatus}
    → Life s seen t
    → s.status ≡ SignalStatus.draft
    → t.status ≡ SignalStatus.active
    → contains seen SignalStatus.verified ≡ true
active_after_verified {s} {t} {seen} l start end' =
    subst (λ (v : SignalStatus). Covers v seen) end'
      (Life-Covers l (subst (λ (v : SignalStatus). Covers v []) (sym start) tt))

rank-le : (a : SignalStatus) → rank a ≤ 4
rank-le SignalStatus.draft = omega arith
rank-le _ = omega arith

Life-same :
    {s t : Signal} {seen : List SignalStatus} → Life s seen t → t ≡ record s { status = t.status }
Life-same created = refl
Life-same (moved {t = t} {u = u} target l h) =
    ground (arith, Life-same l, (transition-eq-ok t target h).1)

-- Any sequence of lifecycle methods changes a signal four times at most, and changes only its status.
pub Life-length :
    {s t : Signal} {seen : List SignalStatus}
    → Life s seen t
    → (length seen ≤ 4) × (t ≡ record s { status = t.status })
Life-length {s} {t} {seen} l = (omega (arith, Life-rank l, rank-le t.status), Life-same l)
