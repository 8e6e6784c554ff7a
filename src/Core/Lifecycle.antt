-- ===== src/Core/Lifecycle.antt =====
-- src/core/lifecycle.py: the lifecycle graphs, and the check of one transition.
-- A frozenset of targets is a list, in the order in which the source writes it.
pub mod Statuses
pub mod Graphs
pub mod Laws
use signalproject.Prelude.{
  Bool, false, Option, none, some, List, [], ◌∷◌, String, Eq, if◌then◌else◌, contains, Result, ok,
  err,
}
use signalproject.Prelude.Dict
use signalproject.Prelude.Dict.{Dict, lookup}

-- What a method of a domain object raises.
pub data Raised (S : Type 0) : Type 0 where
  value_error : String → Raised S
  assertion_error : String → Raised S
  lifecycle_error : (current target : S) (allowed : List S) → Raised S

abbrev pub Graph : Type 0 → Type 0
Graph S = Dict S (List S)

module _ {S : Type 0} ⦃e : Eq S⦄ where
  abbrev pub target_in : S → Option (List S) → Bool
  target_in target none = false
  target_in target (some targets) = contains targets target

  unfoldable pub can_transition : Graph S → S → S → Bool
  unfolding lookup
  can_transition graph current target = target_in target (lookup current graph)

  abbrev pub allowed_from : Option (List S) → List S
  allowed_from none = []
  allowed_from (some targets) = targets

  unfoldable pub assert_transition : Graph S → S → S → Result (Raised S) (Unit {0})
  unfolding lookup
  assert_transition graph current target =
      let allowed = allowed_from (lookup current graph) in
      if contains allowed target then ok tt else err (lifecycle_error current target allowed)

module _ {S : Type 0} where
  unfoldable pub terminal_states : Graph S → List S
  terminal_states [] = []
  terminal_states ((state, []) ∷ rest) = state ∷ terminal_states rest
  terminal_states ((state, t ∷ ts) ∷ rest) = terminal_states rest
