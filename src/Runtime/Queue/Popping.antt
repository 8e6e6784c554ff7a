-- ===== src/Runtime/Queue/Popping.antt =====
-- The loop of `dequeue` over sorted keys, and what is left in the buckets.
use signalproject.Prelude.{
  ◌+◌, ◌<◌, ◌≡◌, true, false, arith, Option, none, some, List, [], ◌∷◌, length, contains,
  all_distinct, ◌==◌, Bool-cases, inl, inr, refl, if◌then◌else◌, ap, subst, ◌⊎◌, and_parts,
  not-true,
}
use signalproject.Prelude.Dict.{lookup, insert, keys, lookup-insert, lookup-absent}
use signalproject.Runtime.Queue.Items.{
  WorkItem, WorkItemPriority, WorkItemPriority-eq, level, priority_beq_iff,
}
use signalproject.Runtime.Queue.{Buckets, total, bucket, bucket_of, pop_first}
use signalproject.Runtime.Queue.Sorting.{IsSorted, head-le}

pub bucket-insert :
    (b : Buckets) (p : WorkItemPriority) (items : List WorkItem) (x : WorkItemPriority)
    → bucket (insert p items b) x ≡ (if p == x then items else bucket b x)
unfolding bucket
bucket-insert b p items x = ground (arith, lookup-insert p x items b)

-- A write to one bucket changes the total by that bucket alone.
pub total-insert :
    (b : Buckets) (p : WorkItemPriority) (items : List WorkItem)
    → total (insert p items b) + length (bucket b p) ≡ total b + length items
unfolding bucket lookup insert
total-insert [] p items = omega arith
total-insert ((r, found) ∷ b) p items = elim (Bool-cases (r == p)) [
  | inl e ↦ rw e (omega arith)
  | inr e ↦ rw e (omega (arith, total-insert b p items))
]

pub bucket-absent :
    (b : Buckets) (x : WorkItemPriority) → contains (keys b) x ≡ false → bucket b x ≡ []
unfolding bucket
bucket-absent b x h = ap bucket_of (lookup-absent x b h)

-- What the loop hands back: the head of the first bucket that is not empty.
pub record Popped (ps : List WorkItemPriority) (b : Buckets) (item : WorkItem) (after : Buckets)
    : Type 0 where
  pub from : WorkItemPriority
  pub rest : List WorkItem
  pub found : bucket b from ≡ item ∷ rest
  pub left : after ≡ insert from rest b
  pub first : (x : WorkItemPriority) → contains ps x ≡ true → level x < level from → bucket b x ≡ []

-- What one round of the loop leaves for the later ones.
pub data Round (b : Buckets) (p : WorkItemPriority) : Type 0 where
  skipped : bucket b p ≡ [] → Round b p
  taken : (item : WorkItem) (rest : List WorkItem) → bucket b p ≡ item ∷ rest → Round b p

List-Round : (b : Buckets) (p : WorkItemPriority) (l : List WorkItem) → bucket b p ≡ l → Round b p
List-Round b p [] e = skipped e
List-Round b p (item ∷ rest) e = taken item rest e

round : (b : Buckets) (p : WorkItemPriority) → Round b p
round b p = List-Round b p (bucket b p) refl

contains-skip :
    (b : Buckets) (p x : WorkItemPriority) (ps : List WorkItemPriority)
    → bucket b p ≡ []
    → contains (p ∷ ps) x ≡ true
    → (bucket b x ≡ []) ⊎ (contains ps x ≡ true)
contains-skip b p x ps e c = elim (Bool-cases (p == x)) [
  | inl same ↦
      inl (subst (λ (r : WorkItemPriority). bucket b r ≡ []) ((priority_beq_iff p x).0 same) e)
  | inr other ↦ inr (rw other at c)
]

pub pop_first-none :
    (ps : List WorkItemPriority) (b : Buckets)
    → pop_first ps b ≡ none
    → (x : WorkItemPriority) → contains ps x ≡ true
    → bucket b x ≡ []
unfolding pop_first
pop_first-none [] b h x c = cc
pop_first-none (p ∷ ps) b h x c = elim (round b p) [
  | skipped e ↦ elim (contains-skip b p x ps e c) [
    | inl empty ↦ empty
    | inr later ↦ pop_first-none ps b (rw e at h) x later
  ]
  | taken item rest e ↦
      let bad : ◌≡◌ {A = Option (WorkItem × Buckets)} (some (item, insert p rest b)) none =
        rw e at h in
      cc
]

pub pop_first-some :
    (ps : List WorkItemPriority) (b : Buckets) {item : WorkItem} {after : Buckets}
    → IsSorted ps
    → pop_first ps b ≡ some (item, after)
    → Popped ps b item after
unfolding pop_first
pop_first-some [] b s h = cc
pop_first-some (p ∷ ps) b {item} {after} s h = elim (round b p) [
  | skipped e ↦
      let later = pop_first-some ps b s.1 (rw e at h) in
      record {
        from = later.from;
        rest = later.rest;
        found = later.found;
        left = later.left;
        first = λ x c l. elim (contains-skip b p x ps e c) [
          | inl empty ↦ empty
          | inr there ↦ later.first x there l
        ];
      }
  | taken head rest e ↦
      let same : ◌≡◌ {A = Option (WorkItem × Buckets)} (some (head, insert p rest b))
          (some (item, after)) =
        rw e at h in
      record {
        from = p;
        rest = rest;
        found = rw e (ground arith);
        left = ground arith;
        first = λ x c l. absurd (omega (arith, head-le p ps x s c));
      }
]

-- If every bucket is empty, nothing is pending.
pub total-zero :
    (b : Buckets)
    → all_distinct (keys b) ≡ true
    → ((x : WorkItemPriority) → bucket b x ≡ [])
    → total b ≡ 0
unfolding bucket lookup
total-zero [] d empty = refl
total-zero ((r, found) ∷ b) d empty =
    let (fresh, distinct) = and_parts _ _ d in
    let rest : (x : WorkItemPriority) → bucket b x ≡ [] = λ x. elim (Bool-cases (r == x)) [
      | inl same ↦
          subst (λ (y : WorkItemPriority). bucket b y ≡ []) ((priority_beq_iff r x).0 same)
            (bucket-absent b r (not-true _ fresh))
      | inr other ↦ rw other at (empty x)
    ] in
    let own : found ≡ [] = rw ((priority_beq_iff r r).1 refl) at (empty r) in
    rw own (omega (arith, total-zero b distinct rest))
