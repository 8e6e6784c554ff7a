-- ===== src/Examples/Ingestion.antt =====
-- Runs of the theorems on src/persistence/ingestion/lifecycle.py.
use signalproject.Prelude.{
  ℕ, zero, suc, ◌+◌, ◌*◌, ◌≤◌, ◌≡◌, refl, arith, true, false, none, some, List, [], ◌∷◌, ◌++◌,
  length, ok, err, value_error, Option, ap,
}
use signalproject.Prelude.Text.{Text, codes, is_empty}
use signalproject.Prelude.Float.{pos, dyadic}
use signalproject.Persistence.Ingestion.Times.{
  Stamp, aware, Calendar, IsCalendar, parse_utc, is_policy_version,
}
use signalproject.Persistence.Ingestion.Policy.{
  WorkItemKind, WorkErrorCategory, is_retryable, WorkKindPolicy, WorkLifecyclePolicy,
  policy_post_init, policy_post_init-IsPolicy, IsPolicy, for_kind,
}
use signalproject.Persistence.Ingestion.Backoff.{
  number, decision, delay_seconds, digest_input, evaluate_retry,
}
use signalproject.Persistence.Ingestion.Backoff.Delays.{delay_bounds}
use signalproject.Persistence.Ingestion.Backoff.Laws.{evaluate_retry_again}
use signalproject.Persistence.Ingestion.Messages.{
  normalize, sanitize_work_error_message, work_error_post_init,
}
use signalproject.Persistence.Ingestion.Messages.Laws.{
  normalize_idem, sanitized_accepted, sanitized_refused,
}

abbrev kinds : List WorkKindPolicy
kinds =
    record {
      kind = WorkItemKind.collection;
      lease_duration_seconds = 60;
      renewal_interval_seconds = 20;
      maximum_attempts = 3;
    }
    ∷ record {
      kind = WorkItemKind.document_processing;
      lease_duration_seconds = 60;
      renewal_interval_seconds = 20;
      maximum_attempts = 3;
    }
    ∷ record {
      kind = WorkItemKind.research;
      lease_duration_seconds = 60;
      renewal_interval_seconds = 20;
      maximum_attempts = 3;
    }
    ∷ []

abbrev pub policy : (jitter : ℕ) → WorkLifecyclePolicy
policy jitter = record {
  policy_version = codes "v1";
  kinds = kinds;
  initial_retry_delay_seconds = 5;
  maximum_retry_delay_seconds = 300;
  backoff_multiplier_basis_points = 20_000;
  jitter_ratio_basis_points = jitter;
}

policy-accepted : policy_post_init (policy 1_000) ≡ ok (policy 1_000)
unfolding policy_post_init is_policy_version
policy-accepted = refl

pub policy-IsPolicy : IsPolicy (policy 1_000)
policy-IsPolicy = policy_post_init-IsPolicy (policy 1_000) policy-accepted

steady-accepted : policy_post_init (policy 0) ≡ ok (policy 0)
unfolding policy_post_init is_policy_version
steady-accepted = refl

steady-IsPolicy : IsPolicy (policy 0)
steady-IsPolicy = policy_post_init-IsPolicy (policy 0) steady-accepted

delay_bounds_example :
    (1 ≤ delay_seconds (policy 1_000) 2 77 (number (dyadic (pos 9) 1)))
    × (delay_seconds (policy 1_000) 2 77 (number (dyadic (pos 9) 1)) ≤ 300)
delay_bounds_example = delay_bounds (policy 1_000) 2 77 (number (dyadic (pos 9) 1)) policy-IsPolicy

-- A calendar whose texts are the instant and a 0.
abbrev read_plain : Text → Option Stamp
read_plain (t ∷ zero_digit ∷ []) = some (aware (pos 0) t)
read_plain other = none

abbrev pub plain : Calendar
plain = record { fromisoformat = read_plain; isoformat = λ t. t ∷ 48 ∷ [] }

pub plain-IsCalendar : IsCalendar plain
plain-IsCalendar = record { inverse = λ t fits. refl; offset_last = λ t. refl; written = λ t. refl }

abbrev pub collection_policy : WorkKindPolicy
collection_policy = record {
  kind = WorkItemKind.collection;
  lease_duration_seconds = 60;
  renewal_interval_seconds = 20;
  maximum_attempts = 3;
}

pub read_failed_at : parse_utc plain (7 ∷ 48 ∷ []) "failed_at" ≡ ok 7
unfolding parse_utc
read_failed_at = refl

pub found_collection : for_kind (policy 1_000) WorkItemKind.collection ≡ ok collection_policy
unfolding for_kind
found_collection = refl

evaluate_retry_again_example :
    (at : Text) × (evaluate_retry plain length
        (policy 1_000)
        WorkItemKind.collection
        (codes "w1")
        1
        (7 ∷ 48 ∷ [])
        (number (dyadic (pos 9) 1))
      ≡ ok (decision plain (policy 1_000) collection_policy 1 false (some at)))
    × (parse_utc plain at "available_at"
        ≡ ok (
            7
            + delay_seconds
                (policy 1_000)
                1
                (length (digest_input plain (policy 1_000) (codes "w1") 1))
                (number (dyadic (pos 9) 1))
              * 1_000_000))
evaluate_retry_again_example =
    evaluate_retry_again plain plain-IsCalendar length (policy 1_000) policy-IsPolicy
      WorkItemKind.collection (codes "w1") 1 7 (7 ∷ 48 ∷ []) (number (dyadic (pos 9) 1))
      collection_policy (omega arith) (omega arith) refl read_failed_at found_collection
      (omega arith) (omega arith)

abbrev message : Text
message = codes " disk\tfull "

normalize_idem_example : normalize (normalize message) ≡ normalize message
normalize_idem_example = normalize_idem message

normalize-message : normalize message ≡ codes "disk full"
unfolding normalize
normalize-message = refl

sanitized_accepted_example :
    work_error_post_init (record {
      category = WorkErrorCategory.unexpected;
      message = sanitize_work_error_message message;
      retryable = is_retryable WorkErrorCategory.unexpected;
    })
    ≡ ok (record {
      category = WorkErrorCategory.unexpected;
      message = sanitize_work_error_message message;
      retryable = is_retryable WorkErrorCategory.unexpected;
    })
sanitized_accepted_example =
    sanitized_accepted WorkErrorCategory.unexpected message
      (omega (arith, ap length normalize-message)) (ap is_empty normalize-message)

abbrev letters : ℕ → Text
letters zero = []
letters (suc n) = b'a' ∷ letters n

abbrev long_message : Text
long_message = letters 1_023 ++ codes " b"

normalize-long_message : normalize long_message ≡ long_message
unfolding normalize
normalize-long_message = refl

sanitized_refused_example :
    work_error_post_init (record {
      category = WorkErrorCategory.unexpected;
      message = sanitize_work_error_message long_message;
      retryable = true;
    })
    ≡ err (value_error "message must already be sanitized")
sanitized_refused_example =
    sanitized_refused WorkErrorCategory.unexpected true long_message (letters 1_023) (codes "b")
      normalize-long_message refl
