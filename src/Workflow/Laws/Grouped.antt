-- ===== src/Workflow/Laws/Grouped.antt =====
-- Stage 4's dictionary of signals by entity holds what filtering the signals by entity gives.
use mathlib.Core.List.{append_assoc, append-nil}
use signalproject.Prelude.{
  ◌≡◌, refl, sym, ◌∙◌, Bool, true, ◌||◌, List, [], ◌∷◌, ◌++◌, arith, keep, given_or, contains,
  all_distinct, Bool-cases, inl, inr, ◌==◌, if◌then◌else◌,
}
use signalproject.Prelude.Text.{Text, Text-eq}
use signalproject.Prelude.Dict.{lookup, keys}
use signalproject.Core.Signals.{Signal}
use signalproject.Workflow.Stages.Synthesis.{add_to_group, group_onto}

abbrev pub is_about : Text → Signal → Bool
is_about id s = s.entity_ref.id == id

-- The signals of one entity; an entity without signals has no key.
abbrev pub group_of : Text → List (Text × List Signal) → List Signal
group_of id groups = given_or (lookup id groups) []

group_of-add_to_group :
    (id key : Text) (s : Signal) (groups : List (Text × List Signal))
    → group_of id (add_to_group key s groups)
      ≡ (if key == id then group_of id groups ++ s ∷ [] else group_of id groups)
unfolding add_to_group lookup
group_of-add_to_group id key s [] = ground arith
group_of-add_to_group id key s ((k, g) ∷ groups) = ground (
  arith,
  Text-eq.beq_iff k key,
  Text-eq.beq_iff k id,
  Text-eq.beq_iff key id,
  group_of-add_to_group id key s groups,
)

contains-add_to_group :
    (id key : Text) (s : Signal) (groups : List (Text × List Signal))
    → contains (keys (add_to_group key s groups)) id ≡ (key == id || contains (keys groups) id)
unfolding add_to_group
contains-add_to_group id key s [] = refl
contains-add_to_group id key s ((k, g) ∷ groups) =
    ground (arith, Text-eq.beq_iff k key, contains-add_to_group id key s groups)

all_distinct-add_to_group :
    (key : Text) (s : Signal) (groups : List (Text × List Signal))
    → all_distinct (keys groups) ≡ true
    → all_distinct (keys (add_to_group key s groups)) ≡ true
unfolding add_to_group
all_distinct-add_to_group key s [] h = refl
all_distinct-add_to_group key s ((k, g) ∷ groups) h = ground (
  arith,
  Text-eq.beq_iff k key,
  Text-eq.beq_iff key k,
  contains-add_to_group k key s groups,
  all_distinct-add_to_group key s groups,
)

group_of-group_onto :
    (id : Text) (groups : List (Text × List Signal)) (ss : List Signal)
    → group_of id (group_onto groups ss) ≡ group_of id groups ++ keep (is_about id) ss
unfolding group_onto
group_of-group_onto id groups [] = sym (append-nil (group_of id groups))
group_of-group_onto id groups (s ∷ ss) =
    group_of-group_onto id (add_to_group s.entity_ref.id s groups) ss ∙ step
  where
    step :
        group_of id (add_to_group s.entity_ref.id s groups) ++ keep (is_about id) ss
        ≡ group_of id groups ++ keep (is_about id) (s ∷ ss)
    step = elim (Bool-cases (is_about id s)) [
      | inl e ↦
          rw (group_of-add_to_group id s.entity_ref.id s groups, e)
            (append_assoc (group_of id groups) (s ∷ []) (keep (is_about id) ss))
      | inr e ↦ rw (group_of-add_to_group id s.entity_ref.id s groups, e) refl
    ]

all_distinct-group_onto :
    (groups : List (Text × List Signal)) (ss : List Signal)
    → all_distinct (keys groups) ≡ true
    → all_distinct (keys (group_onto groups ss)) ≡ true
unfolding group_onto
all_distinct-group_onto groups [] h = h
all_distinct-group_onto groups (s ∷ ss) h =
    all_distinct-group_onto (add_to_group s.entity_ref.id s groups) ss
      (all_distinct-add_to_group s.entity_ref.id s groups h)

-- The loop that groups signals agrees with filtering: the group of an entity's id is the signals
-- about that entity, in the order they came in (none for an id that no signal has), and no id has
-- two groups.
pub group_onto_lem :
    (id : Text) (ss : List Signal)
    → (group_of id (group_onto [] ss) ≡ keep (is_about id) ss)
      × (all_distinct (keys (group_onto [] ss)) ≡ true)
unfolding lookup
group_onto_lem id ss = (group_of-group_onto id [] ss, all_distinct-group_onto [] ss refl)
