-- ===== src/Persistence/Ingestion/Policy.antt =====
-- src/persistence/ingestion/lifecycle.py: kinds, error categories and the lifecycle policy. The
-- checks of Python types (isinstance) hold by the model's types.
use signalproject.Prelude.{
  Bool-cases, inl, inr, ℕ, ◌≤◌, ◌<◌, Bool, true, false, ◌&&◌, not, ◌≡◌, ◌↔◌, arith, List, [], ◌∷◌,
  map, Eq, ◌==◌, nat_eq, ltb, leb, all_distinct, contains, Result, ok, err, ◌>>◌, raise_if,
  if◌then◌else◌, Fault, value_error, stop_iteration,
}
use signalproject.Prelude.Text.{Text}
use signalproject.Persistence.Ingestion.Times.{require_positive_integer, is_policy_version}

pub data WorkItemKind : Type 0 where
  collection document_processing research : WorkItemKind

abbrev kind_position : WorkItemKind → ℕ
kind_position collection = 0
kind_position document_processing = 1
kind_position research = 2

abbrev kind_beq : WorkItemKind → WorkItemKind → Bool
kind_beq a b = nat_eq (kind_position a) (kind_position b)

pub kind_beq_iff : (a b : WorkItemKind) → (kind_beq a b ≡ true) ↔ (a ≡ b)
kind_beq_iff a b = ground arith

instance abbrev pub WorkItemKind-eq : Eq WorkItemKind
WorkItemKind-eq = record { beq = kind_beq; beq_iff = kind_beq_iff }

pub data WorkErrorCategory : Type 0 where
  connector_transient rate_limited persistence_operational checkpoint_conflict : WorkErrorCategory
  downstream_transient unexpected unsupported_kind payload_incompatible : WorkErrorCategory
  payload_invalid dependency_missing binding_mismatch authoritative_conflict : WorkErrorCategory
  handler_contract_violation domain_invariant attempts_exhausted : WorkErrorCategory

-- Membership in _RETRYABLE_CATEGORIES
abbrev pub is_retryable : WorkErrorCategory → Bool
is_retryable connector_transient = true
is_retryable rate_limited = true
is_retryable persistence_operational = true
is_retryable checkpoint_conflict = true
is_retryable downstream_transient = true
is_retryable unexpected = true
is_retryable _ = false

pub record WorkKindPolicy : Type 0 where
  pub kind : WorkItemKind
  pub maximum_attempts : ℕ
  pub lease_duration_seconds : ℕ
  pub renewal_interval_seconds : ℕ

unfoldable pub kind_policy_post_init : WorkKindPolicy → Result Fault WorkKindPolicy
unfolding require_positive_integer
kind_policy_post_init p = do
  require_positive_integer p.maximum_attempts "maximum_attempts"
  require_positive_integer p.lease_duration_seconds "lease_duration_seconds"
  require_positive_integer p.renewal_interval_seconds "renewal_interval_seconds"
  raise_if (leb p.lease_duration_seconds p.renewal_interval_seconds)
      (value_error "renewal_interval_seconds must be less than lease_duration_seconds")
  ok p

pub record WorkLifecyclePolicy : Type 0 where
  pub policy_version : Text
  pub kinds : List WorkKindPolicy
  pub initial_retry_delay_seconds : ℕ
  pub maximum_retry_delay_seconds : ℕ
  pub backoff_multiplier_basis_points : ℕ
  pub jitter_ratio_basis_points : ℕ

abbrev pub configured : List WorkKindPolicy → List WorkItemKind
configured ps = map (λ (p : WorkKindPolicy). p.kind) ps

-- WorkLifecyclePolicy.__post_init__. The set comparison is against all three kinds.
unfoldable pub policy_post_init : WorkLifecyclePolicy → Result Fault WorkLifecyclePolicy
unfolding require_positive_integer
policy_post_init p = do
  raise_if (not (is_policy_version p.policy_version))
      (value_error "policy_version has an invalid format")
  raise_if (not (all_distinct (configured p.kinds)))
      (value_error "kinds must not contain duplicates")
  raise_if
      (not (
        contains (configured p.kinds) collection
        && (contains (configured p.kinds) document_processing
            && contains (configured p.kinds) research)))
      (value_error "kinds must configure every WorkItemKind exactly once")
  require_positive_integer p.initial_retry_delay_seconds "initial_retry_delay_seconds"
  require_positive_integer p.maximum_retry_delay_seconds "maximum_retry_delay_seconds"
  raise_if (ltb p.maximum_retry_delay_seconds p.initial_retry_delay_seconds)
      (value_error "maximum_retry_delay_seconds must be at least the initial delay")
  raise_if (ltb p.backoff_multiplier_basis_points 10_000)
      (value_error "backoff_multiplier_basis_points must be at least 10000")
  raise_if (not (ltb p.jitter_ratio_basis_points 10_000))
      (value_error "jitter_ratio_basis_points must be between 0 and 9999")
  ok p

-- `next(item for item in self.kinds if item.kind is kind)`
unfoldable pub find_kind : WorkItemKind → List WorkKindPolicy → Result Fault WorkKindPolicy
find_kind kind [] = err stop_iteration
find_kind kind (p ∷ ps) = if p.kind == kind then ok p else find_kind kind ps

unfoldable pub for_kind : WorkLifecyclePolicy → WorkItemKind → Result Fault WorkKindPolicy
unfolding find_kind
for_kind policy kind = find_kind kind policy.kinds

-- What a policy that its validation accepts satisfies.
pub record IsPolicy (p : WorkLifecyclePolicy) : Type 0 where
  pub version : is_policy_version p.policy_version ≡ true
  pub every : (kind : WorkItemKind) → contains (configured p.kinds) kind ≡ true
  pub initial : 1 ≤ p.initial_retry_delay_seconds
  pub capped : p.initial_retry_delay_seconds ≤ p.maximum_retry_delay_seconds
  pub grows : 10_000 ≤ p.backoff_multiplier_basis_points
  pub jitter : p.jitter_ratio_basis_points < 10_000

policy_post_init-every :
    (p : WorkLifecyclePolicy) (kind : WorkItemKind)
    → policy_post_init p ≡ ok p
    → contains (configured p.kinds) kind ≡ true
unfolding policy_post_init
policy_post_init-every p collection h = ground arith
policy_post_init-every p document_processing h = ground arith
policy_post_init-every p research h = ground arith

policy_post_init-bounds :
    (p : WorkLifecyclePolicy)
    → policy_post_init p ≡ ok p
    → (is_policy_version p.policy_version ≡ true)
      × (1 ≤ p.initial_retry_delay_seconds)
      × (p.initial_retry_delay_seconds ≤ p.maximum_retry_delay_seconds)
      × (10_000 ≤ p.backoff_multiplier_basis_points)
      × (p.jitter_ratio_basis_points < 10_000)
unfolding policy_post_init
policy_post_init-bounds p h = ground arith

-- A policy that its validation accepts has a valid version and a configuration for every kind, its
-- delays are at least one second and in order, its multiplier is 1 or more, and its jitter below 1.
pub policy_post_init-IsPolicy : (p : WorkLifecyclePolicy) → policy_post_init p ≡ ok p → IsPolicy p
policy_post_init-IsPolicy p h =
    let (version, initial, capped, grows, jitter) = policy_post_init-bounds p h in
    record {
      version = version;
      every = λ kind. policy_post_init-every p kind h;
      initial = initial;
      capped = capped;
      grows = grows;
      jitter = jitter;
    }

-- In a list with the kind, `for_kind` finds a policy for that kind.
pub find_kind_total :
    (kind : WorkItemKind) (ps : List WorkKindPolicy)
    → contains (configured ps) kind ≡ true
    → (p : WorkKindPolicy) × (find_kind kind ps ≡ ok p) × (p.kind ≡ kind)
unfolding find_kind
find_kind_total kind [] h = cc
find_kind_total kind (p ∷ ps) h = elim (Bool-cases (p.kind == kind)) [
  | inl e ↦ (p, rw e, (kind_beq_iff p.kind kind).0 e)
  | inr e ↦ let (q, found, same) = find_kind_total kind ps (rw e at h) in (q, rw e found, same)
]
