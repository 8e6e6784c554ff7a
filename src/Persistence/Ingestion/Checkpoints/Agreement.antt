-- ===== src/Persistence/Ingestion/Checkpoints/Agreement.antt =====
-- When the table of checkpoints and the cursor store agree, and what keeps them so.
use signalproject.Prelude.{
  and_parts, nat_eq_iff, ℕ, suc, ◌≡◌, refl, sym, ap, ◌∙◌, Bool, true, false, ◌&&◌, Option, none,
  some, is_some, List, [], ◌∷◌, ◌++◌, map, arith, all_distinct, ◌==◌, if◌then◌else◌, Bool-cases,
  inl, inr, ok, nat_eq,
}
use signalproject.Prelude.Text.{Text, Text-eq}
use signalproject.Prelude.Dict.{Dict, lookup, insert, lookup-insert}
use signalproject.Persistence.Ingestion.Times.{Calendar}
use signalproject.Persistence.Ingestion.Work.{IngestionCheckpoint}
use signalproject.Persistence.Ingestion.Checkpoints.{
  Row, select, checkpoint_of, checkpoint_post_init, with_revision, row_to_checkpoint, get, read_row,
  reload, new_row, is_current, set_columns,
}
use signalproject.Persistence.Ingestion.Checkpoints.Rows.{
  source_ids, or_else, map_row, select-append, select-map, source_ids-map,
  all_distinct-source_ids-append,
}

-- A checkpoint that its own validation accepts
abbrev pub IsValid : Calendar → IngestionCheckpoint → Type 0
IsValid c k = checkpoint_post_init c k ≡ ok k

-- Validation does not read the columns' revision.
pub with_revision_lem :
    (c : Calendar) (k : IngestionCheckpoint) (n : ℕ)
    → IsValid c k
    → with_revision c k n ≡ ok (record k { revision = n })
unfolding with_revision checkpoint_post_init
with_revision_lem c k n h = ground arith

-- What the two stores hold for a source: nothing, or the same valid checkpoint, of one connector
abbrev pub IsSame :
    Calendar → (connector_name : Text) → Option Row → Option IngestionCheckpoint → Type 0
IsSame c name none none = Unit
IsSame c name (some r) (some k) = (r.connector_name ≡ name) × (checkpoint_of r ≡ k) × IsValid c k
IsSame c name none (some k) = ⊥
IsSame c name (some r) none = ⊥

-- The rows and the dictionary agree.
pub record Agrees (c : Calendar) (name : Text) (rows : List Row)
    (store : Dict Text IngestionCheckpoint) : Type 0 where
  pub distinct : all_distinct (source_ids rows) ≡ true
  pub same : (id : Text) → IsSame c name (select id rows) (lookup id store)

pub row_to_checkpoint_lem :
    (c : Calendar) (r : Row) (k : IngestionCheckpoint)
    → checkpoint_of r ≡ k
    → IsValid c k
    → row_to_checkpoint c r ≡ ok k
unfolding row_to_checkpoint
row_to_checkpoint_lem c r k h v = rw (row_to_checkpoint, ap (checkpoint_post_init c) h ∙ v) refl

pub read_row-IsSame :
    (c : Calendar) (name : Text) (row : Option Row) (stored : Option IngestionCheckpoint)
    → IsSame c name row stored
    → read_row c row ≡ ok stored
unfolding read_row
read_row-IsSame c name none none h = refl
read_row-IsSame c name none (some k) h = absurd h
read_row-IsSame c name (some r) none h = absurd h
read_row-IsSame c name (some r) (some k) h = rw (row_to_checkpoint_lem c r k h.1 h.2) refl

pub get-IsSame :
    (c : Calendar) (name id : Text) (rows : List Row) (stored : Option IngestionCheckpoint)
    → IsSame c name (select id rows) stored
    → get c id rows ≡ ok stored
unfolding get
get-IsSame c name id rows stored h = read_row-IsSame c name (select id rows) stored h

pub reload_lem :
    (c : Calendar) (id : Text) (rows : List Row) (r : Row) (k : IngestionCheckpoint)
    → select id rows ≡ some r
    → checkpoint_of r ≡ k
    → IsValid c k
    → reload c id rows ≡ ok k
unfolding reload get read_row
reload_lem c id rows r k at h v = rw (at, row_to_checkpoint_lem c r k h v) refl

pub IsValid-revision :
    (c : Calendar) (k : IngestionCheckpoint) (n : ℕ)
    → IsValid c k
    → IsValid c (record k { revision = n })
unfolding checkpoint_post_init
IsValid-revision c k n h = ground arith

pub or_else-none : (o : Option Row) → or_else o none ≡ o
or_else-none none = refl
or_else-none (some r) = refl

pub select-source_id :
    (id : Text) (rows : List Row) (r : Row) → select id rows ≡ some r → r.source_id ≡ id
unfolding select
select-source_id id [] r h = cc
select-source_id id (q ∷ rows) r h =
    ground (arith, Text-eq.beq_iff q.source_id id, select-source_id id rows r)

-- A new row, and a new key
pub created-Agrees :
    (c : Calendar) (name now : Text) (rows : List Row) (store : Dict Text IngestionCheckpoint)
    (k : IngestionCheckpoint)
    → Agrees c name rows store
    → IsValid c k
    → select k.source_id rows ≡ none
    → Agrees c name
        (rows ++ new_row c now k name ∷ [])
        (insert k.source_id (record k { revision = 0 }) store)
created-Agrees c name now rows store k a v at = record {
  distinct = all_distinct-source_ids-append rows (new_row c now k name) a.distinct (ap is_some at);
  same = λ id. elim (Bool-cases (k.source_id == id)) [
    | inl e ↦
        rw
          (
            select-append id rows (new_row c now k name),
            lookup-insert k.source_id id (record k { revision = 0 }) store,
            ap (λ (x : Text). select x rows) (sym ((Text-eq.beq_iff k.source_id id).0 e)) ∙ at,
            e,
          )
          (refl, refl, IsValid-revision c k 0 v)
    | inr e ↦
        rw
          (
            select-append id rows (new_row c now k name),
            lookup-insert k.source_id id (record k { revision = 0 }) store,
            e,
            or_else-none (select id rows),
          )
          (a.same id)
  ];
}

-- One row of the UPDATE
abbrev pub rewritten : Calendar → Text → IngestionCheckpoint → ℕ → Text → Row → Row
rewritten c now k revision name r =
    if is_current c k revision name r then set_columns c now k r else r

pub rewritten-source_id :
    (c : Calendar) (now : Text) (k : IngestionCheckpoint) (n : ℕ) (name : Text) (r : Row)
    → (rewritten c now k n name r).source_id ≡ r.source_id
rewritten-source_id c now k n name r = elim (Bool-cases (is_current c k n name r)) [
  | inl e ↦ rw e refl
  | inr e ↦ rw e refl
]

pub set_columns-checkpoint_of :
    (c : Calendar) (now : Text) (k : IngestionCheckpoint) (r : Row)
    → r.source_id ≡ k.source_id
    → r.connector_version ≡ k.connector_version
    → checkpoint_of (set_columns c now k r) ≡ record k { revision = suc r.revision }
set_columns-checkpoint_of c now k r h g = rw (h, g) refl

-- Whether the UPDATE takes the row of its source
abbrev pub is_bound : IngestionCheckpoint → ℕ → Text → Row → Bool
is_bound k n name r =
    nat_eq r.revision n
    && ((r.connector_name == name) && (r.connector_version == k.connector_version))

pub other_row :
    (c : Calendar) (now : Text) (k : IngestionCheckpoint) (n : ℕ) (name id : Text) (o : Option Row)
    → (k.source_id == id) ≡ false
    → ((r : Row) → o ≡ some r → r.source_id ≡ id)
    → map_row (rewritten c now k n name) o ≡ o
other_row c now k n name id none h f = refl
other_row c now k n name id (some r) h f = elim (Bool-cases (r.source_id == k.source_id)) [
  | inl e ↦ absurd (
      ground
        (arith, f r refl, Text-eq.beq_iff r.source_id k.source_id, Text-eq.beq_iff k.source_id id))
  | inr e ↦ rw e refl
]

pub bound_parts :
    (k : IngestionCheckpoint) (n : ℕ) (name : Text) (r : Row)
    → is_bound k n name r ≡ true
    → (r.revision ≡ n) × (r.connector_name ≡ name) × (r.connector_version ≡ k.connector_version)
bound_parts k n name r b =
    let (same_revision, rest) = and_parts _ _ b in
    let (same_name, same_version) = and_parts _ _ rest in
    (
      (nat_eq_iff r.revision n).0 same_revision,
      (Text-eq.beq_iff r.connector_name name).0 same_name,
      (Text-eq.beq_iff r.connector_version k.connector_version).0 same_version,
    )

pub rewritten_own :
    (c : Calendar) (now : Text) (k : IngestionCheckpoint) (n : ℕ) (name : Text) (r : Row)
    → r.source_id ≡ k.source_id
    → is_bound k n name r ≡ true
    → rewritten c now k n name r ≡ set_columns c now k r
rewritten_own c now k n name r h b = rw ((Text-eq.beq_iff r.source_id k.source_id).1 h, b) refl

pub updated-Agrees :
    (c : Calendar) (name now : Text) (rows : List Row) (store : Dict Text IngestionCheckpoint)
    (k : IngestionCheckpoint) (r : Row) (n : ℕ)
    → Agrees c name rows store
    → IsValid c k
    → select k.source_id rows ≡ some r
    → is_bound k n name r ≡ true
    → Agrees c name
        (map (rewritten c now k n name) rows)
        (insert k.source_id (record k { revision = suc r.revision }) store)
updated-Agrees c name now rows store k r n a v at b =
    let own = select-source_id k.source_id rows r at in
    record {
      distinct =
          ap all_distinct (source_ids-map _ rows (rewritten-source_id c now k n name)) ∙ a.distinct;
      same = λ id. elim (Bool-cases (k.source_id == id)) [
        | inl e ↦
            rw
              (
                select-map id (rewritten c now k n name) rows (rewritten-source_id c now k n name),
                lookup-insert k.source_id id (record k { revision = suc r.revision }) store,
                ap (λ (x : Text). select x rows) (sym ((Text-eq.beq_iff k.source_id id).0 e)) ∙ at,
                e,
                rewritten_own c now k n name r own b,
              )
              (
                (bound_parts k n name r b).1,
                set_columns-checkpoint_of c now k r own ((bound_parts k n name r b).2),
                IsValid-revision c k (suc r.revision) v,
              )
        | inr e ↦
            rw
              (
                select-map id (rewritten c now k n name) rows (rewritten-source_id c now k n name),
                lookup-insert k.source_id id (record k { revision = suc r.revision }) store,
                e,
                other_row c now k n name id (select id rows) e (λ q. select-source_id id rows q),
              )
              (a.same id)
      ];
    }
