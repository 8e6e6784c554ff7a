-- ===== src/Workflow/Equality.antt =====
-- The `==` that `@dataclass` generates for the objects the stages compare: field by field.
use native.Mathlib.Decide.{ℕ_discrete}
use signalproject.Prelude.{◌≡◌, ◌↔◌, Bool, true, false, Eq, refl}
use signalproject.Core.Sources.{Source}
use signalproject.Core.Evidence.{Evidence}
use signalproject.Core.Theses.{Thesis}
use signalproject.Workflow.Types.{CandidateObservation}

abbrev pub is_yes {ℓ} : {A : Type ℓ} → Dec A → Bool
is_yes (yes a) = true
is_yes (no n) = false

pub is_yes_iff {ℓ} : {A : Type ℓ} (d : Dec A) → (is_yes d ≡ true) ↔ A
is_yes_iff (yes a) = (λ h. a, λ h. refl)
is_yes_iff (no n) = (λ h. cc, λ a. absurd (n a))

-- Equality by a decision
abbrev pub discrete_eq {ℓ} : {A : Type ℓ} → Discrete A → Eq A
discrete_eq d = record { beq = λ x y. is_yes (d x y); beq_iff = λ x y. is_yes_iff (d x y) }

unfoldable pub Source-discrete : Discrete Source
Source-discrete = hlevel ℕ_discrete

instance abbrev pub Source-eq : Eq Source
Source-eq = discrete_eq Source-discrete

unfoldable pub CandidateObservation-discrete : Discrete CandidateObservation
CandidateObservation-discrete = hlevel ℕ_discrete

instance abbrev pub CandidateObservation-eq : Eq CandidateObservation
CandidateObservation-eq = discrete_eq CandidateObservation-discrete

unfoldable pub Evidence-discrete : Discrete Evidence
Evidence-discrete = hlevel ℕ_discrete

instance abbrev pub Evidence-eq : Eq Evidence
Evidence-eq = discrete_eq Evidence-discrete

unfoldable pub Thesis-discrete : Discrete Thesis
Thesis-discrete = hlevel ℕ_discrete

instance abbrev pub Thesis-eq : Eq Thesis
Thesis-eq = discrete_eq Thesis-discrete
