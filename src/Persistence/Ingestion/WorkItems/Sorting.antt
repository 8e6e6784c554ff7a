-- ===== src/Persistence/Ingestion/WorkItems/Sorting.antt =====
-- `sorted` keeps what makes signal ids valid, and a list of strings reads back.
use signalproject.Prelude.{
  suc, ◌≡◌, refl, arith, ◌∙◌, ap, Bool, true, false, ◌||◌, ◌&&◌, not, List, [], ◌∷◌, contains,
  all_distinct, length, ◌==◌, ok,
}
use signalproject.Prelude.Text.{Text, Text-eq, text_lt}
use signalproject.Persistence.Ingestion.WorkItems.Codec.{insert_sorted, sorted, texts, as_strings}

contains-insert_sorted :
    (p : Text) (ps : List Text) (x : Text)
    → contains (insert_sorted p ps) x ≡ (p == x || contains ps x)
contains-insert_sorted p [] x = refl
contains-insert_sorted p (r ∷ rs) x = ground (arith, contains-insert_sorted p rs x)

contains-sorted : (ps : List Text) (x : Text) → contains (sorted ps) x ≡ contains ps x
unfolding sorted
contains-sorted [] x = refl
contains-sorted (p ∷ ps) x =
    ground (arith, contains-insert_sorted p (sorted ps) x, contains-sorted ps x)

length-insert_sorted : (p : Text) (ps : List Text) → length (insert_sorted p ps) ≡ length (p ∷ ps)
length-insert_sorted p [] = refl
length-insert_sorted p (r ∷ rs) = ground (arith, length-insert_sorted p rs)

pub length-sorted : (ps : List Text) → length (sorted ps) ≡ length ps
unfolding sorted
length-sorted [] = refl
length-sorted (p ∷ ps) = length-insert_sorted p (sorted ps) ∙ ap suc (length-sorted ps)

pub as_strings-texts : (ts : List Text) → as_strings (texts ts) ≡ ok ts
as_strings-texts [] = refl
as_strings-texts (t ∷ ts) = rw (as_strings-texts ts) refl

all_distinct-insert_sorted :
    (p : Text) (ps : List Text) → all_distinct (insert_sorted p ps) ≡ all_distinct (p ∷ ps)
all_distinct-insert_sorted p [] = refl
all_distinct-insert_sorted p (r ∷ rs) = ground (
  arith,
  contains-insert_sorted p rs r,
  all_distinct-insert_sorted p rs,
  Text-eq.beq_iff p r,
  Text-eq.beq_iff r p,
)

pub all_distinct-sorted : (ps : List Text) → all_distinct (sorted ps) ≡ all_distinct ps
unfolding sorted
all_distinct-sorted [] = refl
all_distinct-sorted (p ∷ ps) =
    all_distinct-insert_sorted p (sorted ps) ∙ ap2 (contains-sorted ps p) (all_distinct-sorted ps)
  where
    ap2 : {a b d e : Bool} → a ≡ b → d ≡ e → (not a && d) ≡ (not b && e)
    ap2 h k = cc

text_lt_asym : (a b : Text) → text_lt a b ≡ true → text_lt b a ≡ false
text_lt_asym a [] h = ground arith
text_lt_asym [] (b ∷ bs) h = refl
text_lt_asym (a ∷ as') (b ∷ bs) h = ground (arith, text_lt_asym as' bs)

-- Each text is not behind the next one.
abbrev is_ordered : List Text → Bool
is_ordered [] = true
is_ordered (x ∷ []) = true
is_ordered (x ∷ y ∷ ys) = not (text_lt y x) && is_ordered (y ∷ ys)

is_ordered-insert_sorted :
    (p : Text) (ps : List Text) → is_ordered ps ≡ true → is_ordered (insert_sorted p ps) ≡ true
is_ordered-insert_sorted p [] h = refl
is_ordered-insert_sorted p (r ∷ []) h = ground (arith, text_lt_asym r p)
is_ordered-insert_sorted p (r ∷ s ∷ ss) h =
    ground (arith, text_lt_asym r p, is_ordered-insert_sorted p (s ∷ ss))

is_ordered-sorted : (ps : List Text) → is_ordered (sorted ps) ≡ true
unfolding sorted
is_ordered-sorted [] = refl
is_ordered-sorted (p ∷ ps) = is_ordered-insert_sorted p (sorted ps) (is_ordered-sorted ps)

sorted_lem : (ps : List Text) → is_ordered ps ≡ true → sorted ps ≡ ps
unfolding sorted
sorted_lem [] h = refl
sorted_lem (p ∷ []) h = refl
sorted_lem (p ∷ q ∷ qs) h = let rest = sorted_lem (q ∷ qs) (ground arith) in rw rest (ground arith)

pub sorted_idem : (ps : List Text) → sorted (sorted ps) ≡ sorted ps
sorted_idem ps = sorted_lem (sorted ps) (is_ordered-sorted ps)
