-- ===== src/Persistence/Ingestion/Checkpoints/Rows.antt =====
-- What an insertion and an update do to the rows that a selection finds.
use signalproject.Prelude.{
  ℕ, ◌≡◌, refl, ap, ◌∙◌, Bool, true, false, ◌&&◌, ◌||◌, Option, none, some, is_some, List, [], ◌∷◌,
  ◌++◌, keep, length, map, arith, contains, all_distinct, ◌==◌, if◌then◌else◌, Bool-cases, inl, inr,
}
use signalproject.Prelude.Text.{Text, Text-eq}
use signalproject.Persistence.Ingestion.Checkpoints.{Row, select}

abbrev pub source_ids : List Row → List Text
source_ids [] = []
source_ids (r ∷ rs) = r.source_id ∷ source_ids rs

abbrev pub or_else : Option Row → Option Row → Option Row
or_else none second = second
or_else (some r) second = some r

abbrev pub map_row : (Row → Row) → Option Row → Option Row
map_row f none = none
map_row f (some r) = some (f r)

pub select-append :
    (id : Text) (rows : List Row) (r : Row)
    → select id (rows ++ r ∷ [])
      ≡ or_else (select id rows) (if r.source_id == id then some r else none)
unfolding select
select-append id [] r = refl
select-append id (q ∷ rows) r = elim (Bool-cases (q.source_id == id)) [
  | inl e ↦ rw e refl
  | inr e ↦ rw e (select-append id rows r)
]

pub select-map :
    (id : Text) (f : Row → Row) (rows : List Row)
    → ((r : Row) → (f r).source_id ≡ r.source_id)
    → select id (map f rows) ≡ map_row f (select id rows)
unfolding select
select-map id f [] h = refl
select-map id f (q ∷ rows) h = elim (Bool-cases (q.source_id == id)) [
  | inl e ↦ rw (ap (λ (x : Text). x == id) (h q) ∙ e, e) refl
  | inr e ↦ rw (ap (λ (x : Text). x == id) (h q) ∙ e, e) (select-map id f rows h)
]

pub contains-source_ids :
    (id : Text) (rows : List Row) → contains (source_ids rows) id ≡ is_some (select id rows)
unfolding select
contains-source_ids id [] = refl
contains-source_ids id (q ∷ rows) = elim (Bool-cases (q.source_id == id)) [
  | inl e ↦ rw e refl
  | inr e ↦ rw e (contains-source_ids id rows)
]

pub source_ids-map :
    (f : Row → Row) (rows : List Row)
    → ((r : Row) → (f r).source_id ≡ r.source_id)
    → source_ids (map f rows) ≡ source_ids rows
source_ids-map f [] h = refl
source_ids-map f (q ∷ rows) h = rw (h q, source_ids-map f rows h) refl

-- How many rows of a source pass a further test: the source has at most one row.
abbrev pub count : (Row → Bool) → Option Row → ℕ
count test none = 0
count test (some r) = if test r then 1 else 0

pub length-keep-source :
    (id : Text) (test : Row → Bool) (rows : List Row)
    → all_distinct (source_ids rows) ≡ true
    → length (keep (λ r. (r.source_id == id) && test r) rows) ≡ count test (select id rows)
unfolding select
length-keep-source id test [] h = refl
length-keep-source id test (q ∷ rows) h = ground (
  arith,
  Text-eq.beq_iff q.source_id id,
  contains-source_ids q.source_id rows,
  length-keep-source id test rows,
)

contains-source_ids-append :
    (id : Text) (rows : List Row) (r : Row)
    → contains (source_ids (rows ++ r ∷ [])) id
      ≡ (contains (source_ids rows) id || r.source_id == id)
contains-source_ids-append id [] r = ground arith
contains-source_ids-append id (q ∷ rows) r = ground (arith, contains-source_ids-append id rows r)

distinct-append :
    (rows : List Row) (r : Row)
    → all_distinct (source_ids rows) ≡ true
    → contains (source_ids rows) r.source_id ≡ false
    → all_distinct (source_ids (rows ++ r ∷ [])) ≡ true
distinct-append [] r h k = refl
distinct-append (q ∷ rows) r h k = ground (
  arith,
  Text-eq.beq_iff q.source_id r.source_id,
  Text-eq.beq_iff r.source_id q.source_id,
  contains-source_ids-append q.source_id rows r,
  distinct-append rows r,
)

pub all_distinct-source_ids-append :
    (rows : List Row) (r : Row)
    → all_distinct (source_ids rows) ≡ true
    → is_some (select r.source_id rows) ≡ false
    → all_distinct (source_ids (rows ++ r ∷ [])) ≡ true
all_distinct-source_ids-append rows r h k =
    distinct-append rows r h (contains-source_ids r.source_id rows ∙ k)
