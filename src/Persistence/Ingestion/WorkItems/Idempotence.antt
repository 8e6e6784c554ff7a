-- ===== src/Persistence/Ingestion/WorkItems/Idempotence.antt =====
-- A work item that is inserted twice.
use signalproject.Prelude.{
  ◌≡◌, refl, arith, ap, Bool, true, false, ◌&&◌, ◌||◌, some, is_some, List, [], ◌∷◌, ◌++◌, ok,
}
use signalproject.Prelude.Text.{Text, Text-eq, text_eq}
use signalproject.Persistence.Ingestion.Times.{Calendar}
use signalproject.Persistence.Ingestion.Work.{
  IngestionWorkItem, collecting, processing, researching,
}
use signalproject.Persistence.Ingestion.WorkItems.Json.{JsonText}
use signalproject.Persistence.Ingestion.WorkItems.{
  Row, select, get, find_by_identity, violates, inserted, existing, resolve_conflict, equivalent,
  insert, insert_or_resolve, item_id, item_key, item_schema_version, encode_work_item_payload,
  row_of, row_to_work_item,
}
use signalproject.Persistence.Ingestion.WorkItems.Codec.{
  payload_of, kind_value, payload_schema_version,
}
use signalproject.Persistence.Ingestion.WorkItems.Sorting.{sorted_idem}
use signalproject.Persistence.Ingestion.WorkItems.Laws.{
  IsAccepted, canonical, row_to_work_item-row_of,
}

text_eq_refl : (t : Text) → text_eq t t ≡ true
text_eq_refl t = (Text-eq.beq_iff t t).1 refl

select-last :
    (where_ : Row → Bool) (rows : List Row) (r : Row)
    → is_some (select where_ rows) ≡ false
    → where_ r ≡ true
    → select where_ (rows ++ r ∷ []) ≡ some r
unfolding select
select-last where_ [] r absent h = rw h refl
select-last where_ (s ∷ rows) r absent h = ground (arith, select-last where_ rows r)

payload_of-canonical : (w : IngestionWorkItem) → payload_of (canonical w) ≡ payload_of w
unfolding payload_of
payload_of-canonical (collecting w) = refl
payload_of-canonical (processing w) = refl
payload_of-canonical (researching w) = rw (sorted_idem w.signal_ids) refl

item_id-canonical : (w : IngestionWorkItem) → item_id (canonical w) ≡ item_id w
item_id-canonical (collecting w) = refl
item_id-canonical (processing w) = refl
item_id-canonical (researching w) = refl

item_key-canonical : (w : IngestionWorkItem) → item_key (canonical w) ≡ item_key w
item_key-canonical (collecting w) = refl
item_key-canonical (processing w) = refl
item_key-canonical (researching w) = refl

kind_value-canonical : (w : IngestionWorkItem) → kind_value (canonical w) ≡ kind_value w
kind_value-canonical (collecting w) = refl
kind_value-canonical (processing w) = refl
kind_value-canonical (researching w) = refl

encode_work_item_payload-canonical :
    (j : JsonText) (w : IngestionWorkItem)
    → encode_work_item_payload j (canonical w) ≡ encode_work_item_payload j w
unfolding encode_work_item_payload
encode_work_item_payload-canonical j w = ap (λ v. j.dumps v) (payload_of-canonical w)

equivalent-canonical :
    (c : Calendar) (j : JsonText) (w : IngestionWorkItem)
    → equivalent c j (canonical w) w ≡ ok (existing, canonical w)
equivalent-canonical c j w =
    rw
      (
        kind_value-canonical w,
        item_key-canonical w,
        text_eq_refl (kind_value w),
        text_eq_refl (item_key w),
        encode_work_item_payload-canonical j w,
        text_eq_refl (encode_work_item_payload j w),
      )
      refl

or_false : {a b : Bool} → (a || b) ≡ false → (a ≡ false) × (b ≡ false)
or_false {a = true} h = (h, cc)
or_false {a = false} h = (refl, h)

-- Behind the rows that do not collide with it, the new row is found by its id and by its identity.
selects-row_of :
    (j : JsonText) (w : IngestionWorkItem) (rows : List Row)
    → violates (row_of j w) rows ≡ false
    → (select (λ r. text_eq r.id (item_id w)) (rows ++ row_of j w ∷ []) ≡ some (row_of j w))
      × (select
            (λ r. text_eq r.kind (kind_value w) && text_eq r.idempotency_key (item_key w))
            (rows ++ row_of j w ∷ [])
          ≡ some (row_of j w))
unfolding row_of
selects-row_of j w rows fresh =
    let (no_id, no_identity) = or_false fresh in
    (
      select-last (λ r. text_eq r.id (item_id w)) rows (row_of j w) no_id
          (text_eq_refl (item_id w)),
      select-last (λ r. text_eq r.kind (kind_value w) && text_eq r.idempotency_key (item_key w))
          rows (row_of j w) no_identity
          (rw (text_eq_refl (kind_value w), text_eq_refl (item_key w)) refl),
    )

get_written :
    (c : Calendar) (j : JsonText) (w : IngestionWorkItem) (rows : List Row)
    → row_to_work_item c j (row_of j w) ≡ ok (canonical w)
    → select (λ r. text_eq r.id (item_id w)) rows ≡ some (row_of j w)
    → get c j (item_id w) rows ≡ ok (some (canonical w))
unfolding get
get_written c j w rows read at = rw (at, read) refl

find_written :
    (c : Calendar) (j : JsonText) (w : IngestionWorkItem) (rows : List Row)
    → row_to_work_item c j (row_of j w) ≡ ok (canonical w)
    → select (λ r. text_eq r.kind (kind_value w) && text_eq r.idempotency_key (item_key w)) rows
      ≡ some (row_of j w)
    → find_by_identity c j (kind_value w) (item_key w) rows ≡ ok (some (canonical w))
unfolding find_by_identity
find_written c j w rows read at = rw (at, read) refl

violates_written :
    (j : JsonText) (w : IngestionWorkItem) (rows : List Row)
    → select (λ r. text_eq r.id (item_id w)) rows ≡ some (row_of j w)
    → violates (row_of j w) rows ≡ true
unfolding row_of
violates_written j w rows at = rw at refl

-- The conflict of a work item with its own row
resolve_written :
    (c : Calendar) (j : JsonText) (w : IngestionWorkItem) (rows : List Row)
    → get c j (item_id w) rows ≡ ok (some (canonical w))
    → find_by_identity c j (kind_value w) (item_key w) rows ≡ ok (some (canonical w))
    → resolve_conflict c j w rows ≡ ok (existing, canonical w)
unfolding resolve_conflict
resolve_written c j w rows by_id by_identity =
    rw (by_id, by_identity, text_eq_refl (item_id (canonical w))) (equivalent-canonical c j w)

-- Inserting is idempotent. For a work item that its own validation accepts, with a valid checkpoint if
-- it has one, in the schema version 1.0.0, and whose payload json.loads gives back from its text: if
-- no row has its id or its kind and idempotency key, then insert adds its row at the end and answers
-- INSERTED, and a second insert changes nothing and answers EXISTING, both with the work item itself,
-- except that the signal ids of research work are sorted.
pub insert_again :
    (c : Calendar) (j : JsonText) (w : IngestionWorkItem) (rows : List Row)
    → IsAccepted c w
    → item_schema_version w ≡ payload_schema_version
    → j.loads (j.dumps (payload_of w)) ≡ some (payload_of w)
    → violates (row_of j w) rows ≡ false
    → (insert c j w rows ≡ (rows ++ row_of j w ∷ [], ok (inserted, canonical w)))
      × (insert c j w (rows ++ row_of j w ∷ [])
          ≡ (rows ++ row_of j w ∷ [], ok (existing, canonical w)))
unfolding insert insert_or_resolve
insert_again c j w rows h version text fresh =
    let read = row_to_work_item-row_of c j w h version text in
    let (by_id, by_identity) = selects-row_of j w rows fresh in
    let found = get_written c j w (rows ++ row_of j w ∷ []) read by_id in
    let identified = find_written c j w (rows ++ row_of j w ∷ []) read by_identity in
    (
      rw (version, fresh, found) refl,
      rw
          (
            version,
            violates_written j w (rows ++ row_of j w ∷ []) by_id,
            resolve_written c j w (rows ++ row_of j w ∷ []) found identified,
          )
          refl,
    )
