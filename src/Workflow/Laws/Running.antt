-- ===== src/Workflow/Laws/Running.antt =====
-- Stage.run_gates and what every stage does with its results.
use signalproject.Prelude.{
  some, ◌≡◌, ◌↔◌, refl, ◌∙◌, true, Option, none, List, [], ◌∷◌, All, arith, and_true,
}
use signalproject.Prelude.Text.{Text}
use signalproject.Workflow.Types.{
  advanced_result, pass_, StageResult, StageStatus, advance, FailurePath, GateResult,
}
use signalproject.Workflow.Context.{PipelineContext, WorkflowEvent, emit}
use signalproject.Workflow.Gates.{Platform, Gate, record_evaluation, check_all}
use signalproject.Workflow.Stages.{
  returned, run_gates, all_gates_passed, first_failure, complete, close, conclude,
}

-- A view of the context that events do not change
abbrev pub IgnoresEvents : {X : Type 0} → (PipelineContext → X) → Type 0
IgnoresEvents view = (e : WorkflowEvent) (c : PipelineContext) → view (emit e c) ≡ view c

abbrev pub GateKeeps : {X : Type 0} → (PipelineContext → X) → Gate → Type 0
GateKeeps view gate = (c : PipelineContext) → view ((gate.validate c).0) ≡ view c

module _ (p : Platform) (name : Text) {X : Type 0} (view : PipelineContext → X) where
  pub run_gates_keep :
      IgnoresEvents view
      → (gates : List Gate) (c : PipelineContext) → All (GateKeeps view) gates
      → view ((run_gates p name gates c).0) ≡ view c
  unfolding run_gates record_evaluation
  run_gates_keep h [] c k = refl
  run_gates_keep h (gate ∷ gates) c k =
      run_gates_keep h gates
        (record_evaluation p gate ((gate.validate c).0) name ((gate.validate c).1)) k.1
      ∙ h _ _
      ∙ k.0 c

-- Where a state has a property that the gates and events keep, and a gate passes on such a state,
-- the gates all pass.
abbrev pub Passes : (PipelineContext → Type 0) → Gate → Type 0
Passes P gate =
    (c : PipelineContext) → P c → ((gate.validate c).1.passed ≡ true) × P ((gate.validate c).0)

module _ (p : Platform) (name : Text) (P : PipelineContext → Type 0)
    (closed : (e : WorkflowEvent) (c : PipelineContext) → P c → P (emit e c)) where
  pub run_gates_pass :
      (gates : List Gate) (c : PipelineContext)
      → All (Passes P) gates
      → P c
      → (all_gates_passed ((run_gates p name gates c).1) ≡ true) × P ((run_gates p name gates c).0)
  unfolding run_gates record_evaluation all_gates_passed
  run_gates_pass [] c h q = (refl, q)
  run_gates_pass (gate ∷ gates) c h q =
      let now = h.0 c q in
      let later =
        run_gates_pass gates
          (record_evaluation p gate ((gate.validate c).0) name ((gate.validate c).1)) h.1
          (closed _ _ now.1) in
      (and_true _ _ (now.0) (later.0), later.1)

pub first_failure-all_gates_passed :
    (rs : List (Gate × GateResult)) → (all_gates_passed rs ≡ true) ↔ (first_failure rs ≡ none)
unfolding all_gates_passed first_failure
first_failure-all_gates_passed [] = ground arith
first_failure-all_gates_passed ((gate, result) ∷ rest) =
    ground (arith, first_failure-all_gates_passed rest)

abbrev pub EventsKeep : (PipelineContext → Type 0) → Type 0
EventsKeep P = (e : WorkflowEvent) (c : PipelineContext) → P c → P (emit e c)

-- A stage whose gates all pass on the states with a property advances from such a state, and leaves
-- one.
pub conclude_pass :
    (p : Platform) (name : Text) (status_of : FailurePath → StageStatus)
    (P : PipelineContext → Type 0)
    → EventsKeep P
    → (gates : List Gate) (c : PipelineContext) → All (Passes P) gates
    → P c
    → (last : PipelineContext) × (conclude p name status_of gates c ≡ returned last advanced_result)
      × P last
unfolding conclude close complete
conclude_pass p name status_of P closed gates c h q =
    let ran = run_gates_pass p name P closed gates c h q in
    (
      complete p name advance ((run_gates p name gates c).0),
      rw ((first_failure-all_gates_passed ((run_gates p name gates c).1)).0 (ran.0)) refl,
      closed _ _ (ran.1),
    )

close_keeps :
    {X : Type 0} (p : Platform) (name : Text) (status_of : FailurePath → StageStatus)
    (view : PipelineContext → X)
    → IgnoresEvents view
    → (c : PipelineContext) (o : Option (Gate × GateResult))
    → (last : PipelineContext) × (r : StageResult) × (close p name status_of c o ≡ returned last r)
      × (view last ≡ view c)
unfolding close complete
close_keeps p name status_of view h c none = (_, _, refl, h _ c)
close_keeps p name status_of view h c (some (gate, result)) = (_, _, refl, h _ c)

-- What follows a stage's loop returns, and keeps a view that the events and the gates keep.
pub conclude_keeps :
    {X : Type 0} (p : Platform) (name : Text) (status_of : FailurePath → StageStatus)
    (view : PipelineContext → X)
    → IgnoresEvents view
    → (gates : List Gate) (c : PipelineContext) → All (GateKeeps view) gates
    → (last : PipelineContext) × (r : StageResult) × (conclude p name status_of gates c
        ≡ returned last r)
      × (view last ≡ view c)
unfolding conclude
conclude_keeps p name status_of view h gates c k =
    let (last, r, e, v) =
      close_keeps p name status_of view h ((run_gates p name gates c).0)
        (first_failure ((run_gates p name gates c).1)) in
    (last, r, e, v ∙ run_gates_keep p name view h gates c k)

pub check_all_passes {ℓ} :
    {A : Type ℓ} (fault : A → Option Text) (xs : List A)
    → All (λ x. fault x ≡ none) xs
    → check_all fault xs ≡ pass_
check_all_passes fault [] h = refl
check_all_passes fault (x ∷ xs) h = rw (check_all, h.0) (check_all_passes fault xs h.1)
