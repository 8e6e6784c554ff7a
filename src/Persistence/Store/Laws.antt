-- ===== src/Persistence/Store/Laws.antt =====
-- What the store promises over any sequence of its writes, clear and restore apart.
use signalproject.Prelude.{
  ◌≡◌, false, arith, some, List, [], ◌∷◌, ◌++◌, sym, ◌∙◌, Result, ok, err, is_some, if◌then◌else◌,
  ap, ◌==◌,
}
use mathlib.Core.List.{append-nil, append_assoc}
use signalproject.Prelude.Text.{Text, Text-eq, text_eq_iff}
use signalproject.Prelude.Dict.{insert, lookup-insert}
use signalproject.Core.Entities.{Entity}
use signalproject.Core.Sources.{Source}
use signalproject.Core.Evidence.{Evidence}
use signalproject.Core.Signals.{Signal}
use signalproject.Core.Research.{Research}
use signalproject.Core.Theses.{Thesis}
use signalproject.Persistence.Override.{OverrideRecord}
use signalproject.Persistence.Store.{
  Store, StoreError, put_entity, put_source, put_evidence, get_evidence, put_signal, put_research,
  put_thesis, append_override,
}

-- A write that a client makes.
pub data Write : Type 0 where
  entity : Entity → Write
  source : Source → Write
  evidence : Evidence → Write
  signal : Signal → Write
  research : Research → Write
  thesis : Thesis → Write
  override : OverrideRecord → Write

-- A write that raises leaves the store as it was.
abbrev unless_raised : Store → Result StoreError Store → Store
unless_raised s (ok t) = t
unless_raised s (err e) = s

abbrev pub apply : Store → Write → Store
apply s (entity x) = put_entity s x
apply s (source x) = put_source s x
apply s (evidence x) = unless_raised s (put_evidence s x)
apply s (signal x) = put_signal s x
apply s (research x) = put_research s x
apply s (thesis x) = put_thesis s x
apply s (override r) = append_override s r

abbrev pub apply_all : Store → List Write → Store
apply_all s [] = s
apply_all s (w ∷ ws) = apply_all (apply s w) ws

-- Evidence whose id is not stored is stored under it, and every other id reads as before.
pub put_evidence_fresh :
    (s : Store) (x : Evidence) (k : Text)
    → is_some (get_evidence s x.id) ≡ false
    → (t : Store) × (put_evidence s x ≡ ok t)
      × (get_evidence t k ≡ (if x.id == k then some x else get_evidence s k))
unfolding put_evidence get_evidence
put_evidence_fresh s x k h = (
  record s { evidence = insert x.id x s.evidence },
  ground arith,
  lookup-insert x.id k x s.evidence,
)

evidence-apply :
    (w : Write) (s : Store) (k : Text) {x : Evidence}
    → get_evidence s k ≡ some x
    → get_evidence (apply s w) k ≡ some x
unfolding get_evidence put_entity put_source put_evidence put_signal put_research put_thesis
    append_override
evidence-apply (evidence y) s k h =
    ground (arith, lookup-insert y.id k y s.evidence, text_eq_iff y.id k)
evidence-apply _ s k h = h

-- Evidence is immutable: what an id reads as, it reads as after any writes.
pub evidence_immutable :
    (ws : List Write) (s : Store) (k : Text) {x : Evidence}
    → get_evidence s k ≡ some x
    → get_evidence (apply_all s ws) k ≡ some x
evidence_immutable [] s k h = h
evidence_immutable (w ∷ ws) s k h = evidence_immutable ws (apply s w) k (evidence-apply w s k h)

-- The records that a sequence of writes appends.
abbrev pub appended : List Write → List OverrideRecord
appended [] = []
appended (override r ∷ ws) = r ∷ appended ws
appended (_ ∷ ws) = appended ws

overrides-put_evidence :
    (s : Store) (x : Evidence) → (unless_raised s (put_evidence s x)).overrides ≡ s.overrides
unfolding put_evidence
overrides-put_evidence s x = ground arith

-- The override log is append-only: after any writes it is the old log and then the records appended,
-- in order.
pub overrides_append_only :
    (ws : List Write) (s : Store) → (apply_all s ws).overrides ≡ s.overrides ++ appended ws
unfolding put_entity put_source put_signal put_research put_thesis append_override
overrides_append_only [] s = sym (append-nil _)
overrides_append_only (override r ∷ ws) s =
    overrides_append_only ws (apply s (override r))
    ∙ append_assoc s.overrides (r ∷ []) (appended ws)
overrides_append_only (evidence x ∷ ws) s =
    overrides_append_only ws (apply s (evidence x))
    ∙ ap (λ (l : List OverrideRecord). l ++ appended ws) (overrides-put_evidence s x)
overrides_append_only (w ∷ ws) s = overrides_append_only ws (apply s w)
