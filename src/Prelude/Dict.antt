-- ===== src/Prelude/Dict.antt =====
-- Python's `dict`: an association list in insertion order, where a write to a key that is there
-- keeps its place.
use mathlib.Core.Path.{◌≡◌, refl}
use mathlib.Core.Bool.{true, false, ◌||◌}
use mathlib.Core.Option.{Option, none, some}
use mathlib.Core.List.{List, [], ◌∷◌}
use native.Mathlib.Omega.{arith}
use signalproject.Prelude.Tests.{Eq, ◌==◌, if◌then◌else◌}
use signalproject.Prelude.Lists.{contains, all_distinct}

abbrev pub Dict {ℓ κ} : Type ℓ → Type κ → Type (ℓ ⊔ κ)
Dict K V = List (K × V)

module _ {ℓ κ} {K : Type ℓ} {V : Type κ} where
  abbrev pub keys : Dict K V → List K
  keys [] = []
  keys ((k, v) ∷ d) = k ∷ keys d

  abbrev pub values : Dict K V → List V
  values [] = []
  values ((k, v) ∷ d) = v ∷ values d

module _ {ℓ κ} {K : Type ℓ} {V : Type κ} ⦃e : Eq K⦄ where
  -- d.get(k)
  unfoldable pub lookup : K → Dict K V → Option V
  lookup k [] = none
  lookup k ((j, v) ∷ d) = if j == k then some v else lookup k d

  -- d[k] = v
  unfoldable pub insert : K → V → Dict K V → Dict K V
  insert k v [] = (k, v) ∷ []
  insert k v ((j, w) ∷ d) = if j == k then (j, v) ∷ d else (j, w) ∷ insert k v d

  pub lookup-insert :
      (k j : K) (v : V) (d : Dict K V)
      → lookup j (insert k v d) ≡ (if k == j then some v else lookup j d)
  unfolding lookup insert
  lookup-insert k j v [] = refl
  lookup-insert k j v ((i, w) ∷ d) =
      ground (arith, e.beq_iff k j, e.beq_iff i k, e.beq_iff i j, lookup-insert k j v d)

module _ {ℓ κ} {K : Type ℓ} {V : Type κ} ⦃e : Eq K⦄ where
  pub contains-keys-insert :
      (k x : K) (v : V) (d : Dict K V)
      → contains (keys (insert k v d)) x ≡ (k == x || contains (keys d) x)
  unfolding insert
  contains-keys-insert k x v [] = refl
  contains-keys-insert k x v ((j, w) ∷ d) =
      ground (arith, e.beq_iff j k, contains-keys-insert k x v d)

  -- Writes keep the keys of a dict distinct.
  pub all_distinct-keys-insert :
      (k : K) (v : V) (d : Dict K V)
      → all_distinct (keys d) ≡ true
      → all_distinct (keys (insert k v d)) ≡ true
  unfolding insert
  all_distinct-keys-insert k v [] h = refl
  all_distinct-keys-insert k v ((j, w) ∷ d) h = ground (
    arith,
    e.beq_iff j k,
    e.beq_iff k j,
    contains-keys-insert k j v d,
    all_distinct-keys-insert k v d,
  )

  pub lookup-absent : (k : K) (d : Dict K V) → contains (keys d) k ≡ false → lookup k d ≡ none
  unfolding lookup
  lookup-absent k [] h = refl
  lookup-absent k ((j, w) ∷ d) h = ground (arith, lookup-absent k d)
