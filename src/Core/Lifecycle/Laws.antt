-- ===== src/Core/Lifecycle/Laws.antt =====
-- The two checks of a transition agree, and what the terminal states are.
use signalproject.Prelude.{
  ◌≡◌, Option, none, some, List, arith, Eq, contains, if◌then◌else◌, ok, err,
}
use signalproject.Prelude.Dict.{lookup}
use signalproject.Core.Lifecycle.{
  Graph, lifecycle_error, can_transition, assert_transition, allowed_from, target_in,
}

module _ {S : Type 0} ⦃e : Eq S⦄ where
  target_in-eq-contains :
      (targets : Option (List S)) (target : S)
      → target_in target targets ≡ contains (allowed_from targets) target
  target_in-eq-contains none target = ground arith
  target_in-eq-contains (some ts) target = ground arith

  -- `assert_transition` passes exactly the transitions that `can_transition` allows, and raises a
  -- LifecycleError that names both states and the allowed targets for every other one.
  pub assert_transition-eq-can_transition :
      (graph : Graph S) (current target : S)
      → assert_transition graph current target ≡ (
          if can_transition graph current target
          then ok tt
          else err (lifecycle_error current target (allowed_from (lookup current graph))))
  unfolding assert_transition can_transition
  assert_transition-eq-can_transition graph current target =
      ground (arith, target_in-eq-contains (lookup current graph) target)
