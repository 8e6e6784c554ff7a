-- ===== src/Persistence/Ingestion/Checkpoints/Laws.antt =====
-- The table of checkpoints implements the cursor store.
use signalproject.Prelude.{
  All, ℕ, suc, ◌≡◌, refl, ap, ◌∙◌, subst, Bool, true, false, Option, none, some, List, [], ◌∷◌,
  ◌++◌, keep, length, map, arith, all_distinct, ◌==◌, if◌then◌else◌, Bool-cases, inl, inr, Result,
  ok, err,
}
use signalproject.Prelude.Text.{Text, Text-eq, is_empty}
use signalproject.Prelude.Dict.{Dict, lookup}
use signalproject.Persistence.Ingestion.Times.{Calendar}
use signalproject.Persistence.Ingestion.Work.{IngestionCheckpoint}
use signalproject.Persistence.Ingestion.Checkpoints.{
  keep_stored, CheckpointError, checkpoint_conflict, Row, select, update, checkpoint_of, get,
  reload, new_row, create_checkpoint, is_current, set_columns, update_checkpoint, compare_and_set,
  next_stored, memory_compare_and_set,
}
use signalproject.Persistence.Ingestion.Checkpoints.Rows.{
  source_ids, or_else, map_row, select-append, select-map, count, length-keep-source,
}
use signalproject.Persistence.Ingestion.Checkpoints.Agreement.{
  IsValid, with_revision_lem, IsSame, Agrees, get-IsSame, reload_lem, IsValid-revision,
  select-source_id, created-Agrees, rewritten, rewritten-source_id, set_columns-checkpoint_of,
  is_bound, bound_parts, rewritten_own, updated-Agrees,
}

created_select :
    (c : Calendar) (name now : Text) (rows : List Row) (k : IngestionCheckpoint)
    → select k.source_id rows ≡ none
    → select k.source_id (rows ++ new_row c now k name ∷ []) ≡ some (new_row c now k name)
created_select c name now rows k at =
    select-append k.source_id rows (new_row c now k name)
    ∙ ap
        (λ (o : Option Row).
          or_else o (if k.source_id == k.source_id then some (new_row c now k name) else none))
        at
    ∙ ap (λ (b : Bool). if b then some (new_row c now k name) else none)
        ((Text-eq.beq_iff k.source_id k.source_id).1 refl)

created_reload :
    (c : Calendar) (name now : Text) (rows : List Row) (k : IngestionCheckpoint)
    → IsValid c k
    → select k.source_id rows ≡ none
    → reload c k.source_id (rows ++ new_row c now k name ∷ []) ≡ ok (record k { revision = 0 })
created_reload c name now rows k v at =
    reload_lem c k.source_id (rows ++ new_row c now k name ∷ []) (new_row c now k name)
      (record k { revision = 0 }) (created_select c name now rows k at) refl
      (IsValid-revision c k 0 v)

updated_reload :
    (c : Calendar) (name now : Text) (rows : List Row) (k : IngestionCheckpoint) (r : Row) (n : ℕ)
    → IsValid c k
    → select k.source_id rows ≡ some r
    → is_bound k n name r ≡ true
    → reload c k.source_id (map (rewritten c now k n name) rows)
      ≡ ok (record k { revision = suc r.revision })
updated_reload c name now rows k r n v at b =
    let own = select-source_id k.source_id rows r at in
    reload_lem c k.source_id _ (set_columns c now k r) _
      (select-map k.source_id (rewritten c now k n name) rows (rewritten-source_id c now k n name)
        ∙ ap (map_row (rewritten c now k n name)) at
        ∙ ap (λ (q : Row). some q) (rewritten_own c now k n name r own b))
      (set_columns-checkpoint_of c now k r own ((bound_parts k n name r b).2))
      (IsValid-revision c k (suc r.revision) v)

-- What both stores answer, and that they still agree
abbrev Simulates :
    (c : Calendar) (name : Text)
    → List Row × Result CheckpointError IngestionCheckpoint
    → Dict Text IngestionCheckpoint × Result CheckpointError IngestionCheckpoint
    → Type 0
Simulates c name written stored = (written.1 ≡ stored.1) × Agrees c name written.0 stored.0

create_step :
    (c : Calendar) (name now : Text) (rows : List Row) (store : Dict Text IngestionCheckpoint)
    (k : IngestionCheckpoint) (o : Option Row) (l : Option IngestionCheckpoint)
    → Agrees c name rows store
    → IsValid c k
    → select k.source_id rows ≡ o
    → IsSame c name o l
    → Simulates c name
        (create_checkpoint c now rows k name)
        (keep_stored c store k.source_id (next_stored c l k none))
unfolding create_checkpoint next_stored
create_step c name now rows store k none none a v at s =
    rw (at, created_reload c name now rows k v at, with_revision_lem c k 0 v)
      (refl, created-Agrees c name now rows store k a v at)
create_step c name now rows store k none (some current) a v at s = absurd s
create_step c name now rows store k (some r) none a v at s = absurd s
create_step c name now rows store k (some r) (some current) a v at s = rw at (refl, a)

update_count :
    (c : Calendar) (name : Text) (rows : List Row) (k : IngestionCheckpoint) (n : ℕ)
    → all_distinct (source_ids rows) ≡ true
    → length (keep (is_current c k n name) rows)
      ≡ count (is_bound k n name) (select k.source_id rows)
update_count c name rows k n h = length-keep-source k.source_id (is_bound k n name) rows h

next_stored_row :
    (c : Calendar) (name : Text) (k : IngestionCheckpoint) (r : Row) (n : ℕ)
    → r.connector_name ≡ name
    → IsValid c k
    → next_stored c (some (checkpoint_of r)) k (some n) ≡ (
        if is_bound k n name r
        then ok (record k { revision = suc r.revision })
        else err checkpoint_conflict)
unfolding next_stored
next_stored_row c name k r n h v = ground (
  arith,
  with_revision_lem c k (suc r.revision) v,
  Text-eq.beq_iff r.connector_name name,
  Text-eq.beq_iff r.connector_version k.connector_version,
  Text-eq.beq_iff k.connector_version r.connector_version,
)

-- The in-memory tests are those of the UPDATE.
next_stored_bound :
    (c : Calendar) (name : Text) (k current : IngestionCheckpoint) (r : Row) (n : ℕ)
    → IsSame c name (some r) (some current)
    → IsValid c k
    → next_stored c (some current) k (some n) ≡ (
        if is_bound k n name r
        then ok (record k { revision = suc r.revision })
        else err checkpoint_conflict)
unfolding next_stored
next_stored_bound c name k current r n s v =
    subst
      (λ (cur : IngestionCheckpoint). next_stored c (some cur) k (some n) ≡ (
        if is_bound k n name r
        then ok (record k { revision = suc r.revision })
        else err checkpoint_conflict))
      s.1 (next_stored_row c name k r n s.0 v)

next_stored_missing :
    (c : Calendar) (k : IngestionCheckpoint) (n : ℕ)
    → next_stored c none k (some n) ≡ err checkpoint_conflict
unfolding next_stored
next_stored_missing c k n = refl

update_step :
    (c : Calendar) (name now : Text) (rows : List Row) (store : Dict Text IngestionCheckpoint)
    (k : IngestionCheckpoint) (n : ℕ) (o : Option Row) (l : Option IngestionCheckpoint)
    → Agrees c name rows store
    → IsValid c k
    → select k.source_id rows ≡ o
    → IsSame c name o l
    → Simulates c name
        (update_checkpoint c now rows k n name)
        (keep_stored c store k.source_id (next_stored c l k (some n)))
unfolding update_checkpoint update
update_step c name now rows store k n none none a v at s =
    rw
      (
        update_count c name rows k n a.distinct ∙ ap (count (is_bound k n name)) at,
        next_stored_missing c k n,
      )
      (refl, a)
update_step c name now rows store k n none (some current) a v at s = absurd s
update_step c name now rows store k n (some r) none a v at s = absurd s
update_step c name now rows store k n (some r) (some current) a v at s =
    elim (Bool-cases (is_bound k n name r)) [
      | inl b ↦
          rw
            (
              update_count c name rows k n a.distinct ∙ ap (count (is_bound k n name)) at,
              b,
              updated_reload c name now rows k r n v at b,
              next_stored_bound c name k current r n s v,
              b,
            )
            (refl, updated-Agrees c name now rows store k r n a v at b)
      | inr b ↦
          rw
            (
              update_count c name rows k n a.distinct ∙ ap (count (is_bound k n name)) at,
              b,
              next_stored_bound c name k current r n s v,
              b,
            )
            (refl, a)
    ]

cas_step :
    (c : Calendar) (name now : Text) (rows : List Row) (store : Dict Text IngestionCheckpoint)
    (k : IngestionCheckpoint) (expected_revision : Option ℕ)
    → is_empty name ≡ false
    → Agrees c name rows store
    → IsValid c k
    → Simulates c name
        (compare_and_set c now rows k expected_revision name)
        (memory_compare_and_set c store k expected_revision)
unfolding compare_and_set memory_compare_and_set
cas_step c name now rows store k none named a v = rw named (
    create_step c name now rows store k (select k.source_id rows) (lookup k.source_id store) a v
      refl (a.same k.source_id))
cas_step c name now rows store k (some n) named a v = rw named (
    update_step c name now rows store k n (select k.source_id rows) (lookup k.source_id store) a v
      refl (a.same k.source_id))

-- A call of compare_and_set, and the time it reads
pub record Command : Type 0 where
  pub now : Text
  pub checkpoint : IngestionCheckpoint
  pub expected_revision : Option ℕ

-- The rows after a list of calls, and what each call answers
abbrev pub table_run :
    Calendar
    → (connector_name : Text) → List Command
    → List Row
    → List Row × List (Result CheckpointError IngestionCheckpoint)
table_run c name [] rows = (rows, [])
table_run c name (m ∷ ms) rows =
    let written = compare_and_set c m.now rows m.checkpoint m.expected_revision name in
    let rest = table_run c name ms (written.0) in (rest.0, written.1 ∷ rest.1)

-- The dictionary after the same calls, and what each call answers
abbrev pub memory_run :
    Calendar
    → List Command
    → Dict Text IngestionCheckpoint
    → Dict Text IngestionCheckpoint × List (Result CheckpointError IngestionCheckpoint)
memory_run c [] store = (store, [])
memory_run c (m ∷ ms) store =
    let stored = memory_compare_and_set c store m.checkpoint m.expected_revision in
    let rest = memory_run c ms (stored.0) in (rest.0, stored.1 ∷ rest.1)

runs-Agrees :
    (c : Calendar) (name : Text) (ms : List Command) (rows : List Row)
    (store : Dict Text IngestionCheckpoint)
    → is_empty name ≡ false
    → All (λ m. IsValid c m.checkpoint) ms
    → Agrees c name rows store
    → ((table_run c name ms rows).1 ≡ (memory_run c ms store).1)
      × Agrees c name (table_run c name ms rows).0 (memory_run c ms store).0
runs-Agrees c name [] rows store named v a = (refl, a)
runs-Agrees c name (m ∷ ms) rows store named v a =
    let (answer, next) =
      cas_step c name m.now rows store m.checkpoint m.expected_revision named a v.0 in
    let (answers, last) =
      runs-Agrees c name ms ((compare_and_set c m.now rows m.checkpoint m.expected_revision name).0)
        ((memory_compare_and_set c store m.checkpoint m.expected_revision).0) named v.1 next in
    (ap2 answer answers, last)
  where
    ap2 :
        {x y : Result CheckpointError IngestionCheckpoint}
        {xs ys : List (Result CheckpointError IngestionCheckpoint)}
        → x ≡ y
        → xs ≡ ys
        → x ∷ xs ≡ y ∷ ys
    ap2 h k = cc

empty-Agrees : (c : Calendar) (name : Text) → Agrees c name [] []
unfolding select lookup
empty-Agrees c name = record { distinct = refl; same = λ id. tt }

-- The table of checkpoints implements the in-memory cursor store. From an empty table and an empty
-- store, with calls that all carry one connector name, which is not empty, and checkpoints that their
-- own validation accepts: each call of compare_and_set answers the same in both, a stored checkpoint
-- or a conflict, and afterwards every source has the same checkpoint, or none, in both.
pub table_run-memory_run :
    (c : Calendar) (name : Text) (ms : List Command)
    → is_empty name ≡ false
    → All (λ m. IsValid c m.checkpoint) ms
    → ((table_run c name ms []).1 ≡ (memory_run c ms []).1)
      × ((id : Text) → get c id (table_run c name ms []).0 ≡ ok (lookup id (memory_run c ms []).0))
table_run-memory_run c name ms named v =
    let (answers, a) = runs-Agrees c name ms [] [] named v (empty-Agrees c name) in
    (answers, λ id. get-IsSame c name id _ _ (a.same id))
