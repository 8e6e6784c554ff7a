-- ===== src/Runtime/Queue/Sorting.antt =====
-- The keys that `dequeue` walks: sorted by level, and the same keys.
use signalproject.Prelude.{
  ℕ, ◌≤◌, ◌≡◌, true, ◌||◌, arith, List, [], ◌∷◌, contains, All, leb, leb→le, ◌==◌, Bool-cases, inl,
  inr, refl,
}
use signalproject.Runtime.Queue.Items.{
  WorkItemPriority, WorkItemPriority-eq, level, priority_beq_iff,
}
use signalproject.Runtime.Queue.{insert_sorted, sorted}

abbrev pub IsSorted : List WorkItemPriority → Type 0
IsSorted [] = Unit
IsSorted (p ∷ ps) = All (λ r. level p ≤ level r) ps × IsSorted ps

contains-insert_sorted :
    (p : WorkItemPriority) (ps : List WorkItemPriority) (x : WorkItemPriority)
    → contains (insert_sorted p ps) x ≡ (p == x || contains ps x)
unfolding insert_sorted
contains-insert_sorted p [] x = refl
contains-insert_sorted p (r ∷ rs) x = ground (arith, contains-insert_sorted p rs x)

pub contains-sorted :
    (ps : List WorkItemPriority) (x : WorkItemPriority) → contains (sorted ps) x ≡ contains ps x
unfolding sorted
contains-sorted [] x = refl
contains-sorted (p ∷ ps) x =
    ground (arith, contains-insert_sorted p (sorted ps) x, contains-sorted ps x)

All-insert_sorted :
    (n : ℕ) (p : WorkItemPriority) (ps : List WorkItemPriority)
    → n ≤ level p
    → All (λ r. n ≤ level r) ps
    → All (λ r. n ≤ level r) (insert_sorted p ps)
unfolding insert_sorted
All-insert_sorted n p [] h k = (h, tt)
All-insert_sorted n p (r ∷ rs) h k = elim (Bool-cases (leb (level p) (level r))) [
  | inl e ↦ rw e (h, k)
  | inr e ↦ rw e (k.0, All-insert_sorted n p rs h k.1)
]

All-mono :
    (m n : ℕ) (ps : List WorkItemPriority)
    → m ≤ n
    → All (λ r. n ≤ level r) ps
    → All (λ r. m ≤ level r) ps
All-mono m n [] h k = tt
All-mono m n (p ∷ ps) h k = (omega arith, All-mono m n ps h k.1)

insert_sorted-IsSorted :
    (p : WorkItemPriority) (ps : List WorkItemPriority)
    → IsSorted ps
    → IsSorted (insert_sorted p ps)
unfolding insert_sorted
insert_sorted-IsSorted p [] s = (tt, tt)
insert_sorted-IsSorted p (r ∷ rs) s = elim (Bool-cases (leb (level p) (level r))) [
  | inl e ↦
      let h = leb→le (level p) (level r) e in rw e ((h, All-mono (level p) (level r) rs h s.0), s)
  | inr e ↦
      rw e (All-insert_sorted (level r) p rs (ground arith) s.0, insert_sorted-IsSorted p rs s.1)
]

pub sorted-IsSorted : (ps : List WorkItemPriority) → IsSorted (sorted ps)
unfolding sorted
sorted-IsSorted [] = tt
sorted-IsSorted (p ∷ ps) = insert_sorted-IsSorted p (sorted ps) (sorted-IsSorted ps)

All-contains :
    (n : ℕ) (ps : List WorkItemPriority) (x : WorkItemPriority)
    → All (λ r. n ≤ level r) ps
    → contains ps x ≡ true
    → n ≤ level x
All-contains n [] x h c = cc
All-contains n (p ∷ ps) x h c = ground (arith, priority_beq_iff p x, All-contains n ps x h.1)

-- The first of sorted keys has the lowest level.
pub head-le :
    (p : WorkItemPriority) (ps : List WorkItemPriority) (x : WorkItemPriority)
    → IsSorted (p ∷ ps)
    → contains (p ∷ ps) x ≡ true
    → level p ≤ level x
head-le p ps x s c = ground (arith, priority_beq_iff p x, All-contains (level p) ps x s.0)
