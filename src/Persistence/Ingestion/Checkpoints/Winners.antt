-- ===== src/Persistence/Ingestion/Checkpoints/Winners.antt =====
-- Of the writers that expect one revision of a checkpoint, one wins.
use signalproject.Prelude.{
  ℕ, suc, ◌≡◌, refl, sym, ap, ◌∙◌, Option, none, some, Result, ok, err, arith, Bool, ok-injective,
  if◌then◌else◌,
}
use signalproject.Prelude.Text.{Text, Text-eq}
use signalproject.Prelude.Dict.{Dict, lookup, insert, lookup-insert}
use signalproject.Persistence.Ingestion.Times.{Calendar}
use signalproject.Persistence.Ingestion.Work.{IngestionCheckpoint}
use signalproject.Persistence.Ingestion.Checkpoints.{
  CheckpointError, checkpoint_conflict, checkpoint_post_init, with_revision, keep_stored,
  next_stored, memory_compare_and_set,
}

-- The revision that a writer who expected another leaves
abbrev written_revision : Option ℕ → ℕ
written_revision none = 0
written_revision (some n) = suc n

with_revision-eq-ok :
    (c : Calendar) (k : IngestionCheckpoint) (n : ℕ) {s : IngestionCheckpoint}
    → with_revision c k n ≡ ok s
    → s.revision ≡ n
unfolding with_revision checkpoint_post_init
with_revision-eq-ok c k n h = ground arith

next_stored-revision :
    (c : Calendar) (l : Option IngestionCheckpoint) (k : IngestionCheckpoint) (e : Option ℕ)
    {s : IngestionCheckpoint}
    → next_stored c l k e ≡ ok s
    → s.revision ≡ written_revision e
unfolding next_stored
next_stored-revision c none k none h = with_revision-eq-ok c k 0 h
next_stored-revision c none k (some n) h = cc
next_stored-revision c (some cur) k none h = cc
next_stored-revision c (some cur) k (some n) h =
    ground (arith, with_revision-eq-ok c k (suc cur.revision))

stale :
    (c : Calendar) (s k : IngestionCheckpoint) (e : Option ℕ)
    → s.revision ≡ written_revision e
    → next_stored c (some s) k e ≡ err checkpoint_conflict
unfolding next_stored
stale c s k none h = refl
stale c s k (some n) h = ground arith

keep_stored-eq-ok :
    (c : Calendar) (store : Dict Text IngestionCheckpoint) (key : Text)
    (r : Result CheckpointError IngestionCheckpoint) {later : Dict Text IngestionCheckpoint}
    {s : IngestionCheckpoint}
    → keep_stored c store key r ≡ (later, ok s)
    → (r ≡ ok s) × (later ≡ insert key s store)
keep_stored-eq-ok c store key (err e) h = cc
keep_stored-eq-ok c store key (ok t) h =
    let same = ok-injective (
      ap (λ (p : Dict Text IngestionCheckpoint × Result CheckpointError IngestionCheckpoint). p.1)
        h) in
    (
      ap (λ (x : IngestionCheckpoint). ok x) same,
      sym (
            ap
              (λ (p : Dict Text IngestionCheckpoint × Result CheckpointError IngestionCheckpoint).
                p.0)
              h)
          ∙ ap (λ (x : IngestionCheckpoint). insert key x store) same,
    )

-- A lost update is impossible: after a call of compare_and_set that stores, a second call for the
-- same source that expects what the first one expected is a conflict and leaves the store as it is.
pub compare_and_set_once :
    (c : Calendar) (store later : Dict Text IngestionCheckpoint) (k m stored : IngestionCheckpoint)
    (expected_revision : Option ℕ)
    → memory_compare_and_set c store k expected_revision ≡ (later, ok stored)
    → m.source_id ≡ k.source_id
    → memory_compare_and_set c later m expected_revision ≡ (later, err checkpoint_conflict)
unfolding memory_compare_and_set
compare_and_set_once c store later k m stored e h same =
    let (won, written) =
      keep_stored-eq-ok c store k.source_id (next_stored c (lookup k.source_id store) k e) h in
    let found =
      ap (λ (d : Dict Text IngestionCheckpoint). lookup m.source_id d) written
      ∙ lookup-insert k.source_id m.source_id stored store
      ∙ ap (λ (b : Bool). if b then some stored else lookup m.source_id store)
          ((Text-eq.beq_iff k.source_id m.source_id).1 (sym same)) in
    ap (keep_stored c later m.source_id) (
      ap (λ (l : Option IngestionCheckpoint). next_stored c l m e) found
      ∙ stale c stored m e (next_stored-revision c (lookup k.source_id store) k e won))
