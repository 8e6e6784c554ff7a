-- ===== src/Persistence/Ingestion/Records/Laws.antt =====
-- What an accepted lifecycle record and an accepted transition result look like.
use signalproject.Prelude.{
  ℕ, Bool, true, false, not, ◌&&◌, ◌||◌, ◌≡◌, ◌<◌, arith, Option, none, some, nat_eq, is_some, ◌==◌,
  Result, ok, err, ◌>>◌, >>=-eq-ok, raise_if, Fault, value_error, refl, subst,
}
use signalproject.Prelude.Text.{Text}
use signalproject.Persistence.Ingestion.Times.{Calendar, parse_utc}
use signalproject.Persistence.Ingestion.Records
use signalproject.Persistence.Ingestion.Records.{
  WorkItemLifecycleRecord, Required, required, require_record, lease_is_partial, check_times,
  validate_record_state, record_post_init, check_after,
}
use signalproject.Persistence.Ingestion.Records.Statuses.{
  WorkItemStatus, WorkItemStatus-eq, pending, running, retrying, completed, dead_letter,
}
use signalproject.Persistence.Ingestion.Records.Transitions.{
  WorkTransitionResult, validate_transition_result, result_post_init,
}

-- A chain of three checks that passes.
passed-checks :
    (raised : Bool) (e : Fault) (x y : Result Fault (Unit {0}))
    → (raise_if raised e >> (x >> y)) ≡ ok tt
    → (raised ≡ false) × (x ≡ ok tt) × (y ≡ ok tt)
passed-checks true e x y h = cc
passed-checks false e (ok done) y h = (refl, refl, h)
passed-checks false e (err f) y h = cc

passed-last :
    {A : Type 0} (x y : Result Fault (Unit {0})) (a : A) {b : A}
    → (x >> (y >> ok a)) ≡ ok b
    → y ≡ ok tt
passed-last (ok done) (ok passed) a h = refl
passed-last (ok done) (err e) a h = cc
passed-last (err e) y a h = cc

module _ (c : Calendar) (r : WorkItemLifecycleRecord) where
  record_state : record_post_init c r ≡ ok r → validate_record_state c r ≡ ok tt
  unfolding record_post_init
  record_state h = passed-last (Records.check_fields c r) (validate_record_state c r) r h

  record_parts :
      validate_record_state c r ≡ ok tt
      → (lease_is_partial r ≡ false)
        × (require_record r (required r.status) ≡ ok tt)
        × (check_times c r r.status ≡ ok tt)
  unfolding validate_record_state
  record_parts h =
      passed-checks (lease_is_partial r)
        (value_error "lease authority fields must be all present or all absent")
        (require_record r (required r.status)) (check_times c r r.status) h

require_record_fields :
    (r : WorkItemLifecycleRecord) (s : WorkItemStatus)
    → require_record r (required s) ≡ ok tt
    → lease_is_partial r ≡ false
    → (is_some r.lease_owner ≡ (s == running))
      × (is_some r.claim_token ≡ (s == running))
      × (is_some r.lease_expires_at ≡ (s == running))
      × (is_some r.available_at ≡ (s == pending || s == retrying))
      × (is_some r.claimed_at ≡ not (s == pending))
      × (is_some r.completed_at ≡ (s == completed))
      × (is_some r.dead_lettered_at ≡ (s == dead_letter))
      × (is_some r.failure ≡ (s == retrying || s == dead_letter))
      × (nat_eq r.attempt_count 0 ≡ (s == pending))
unfolding require_record
require_record_fields r pending h w = ground arith
require_record_fields r running h w = ground arith
require_record_fields r retrying h w = ground arith
require_record_fields r completed h w = ground arith
require_record_fields r dead_letter h w = ground arith

-- A lifecycle record that its validation accepts has exactly the fields of its status: the owner, the
-- token and the expiry of a lease while it runs; a time at which it is available while it is pending or
-- retrying; a claim time and an attempt unless it is pending; a completion time if it is completed; a
-- dead-letter time if it is one; and a failure if it is retrying or a dead letter.
pub accepted_record :
    (c : Calendar) (r : WorkItemLifecycleRecord)
    → record_post_init c r ≡ ok r
    → (is_some r.lease_owner ≡ (r.status == running))
      × (is_some r.claim_token ≡ (r.status == running))
      × (is_some r.lease_expires_at ≡ (r.status == running))
      × (is_some r.available_at ≡ (r.status == pending || r.status == retrying))
      × (is_some r.claimed_at ≡ not (r.status == pending))
      × (is_some r.completed_at ≡ (r.status == completed))
      × (is_some r.dead_lettered_at ≡ (r.status == dead_letter))
      × (is_some r.failure ≡ (r.status == retrying || r.status == dead_letter))
      × (nat_eq r.attempt_count 0 ≡ (r.status == pending))
accepted_record c r h =
    let (whole, fields, _) = record_parts c r (record_state c r h) in
    require_record_fields r r.status fields whole

running_expiry :
    (c : Calendar) (r : WorkItemLifecycleRecord)
    → check_times c r running ≡ ok tt
    → check_after c r.lease_expires_at "lease_expires_at" r.updated_at
        "running lease must expire after updated_at"
      ≡ ok tt
running_expiry c r h = let (_, first, _) = >>=-eq-ok _ _ h in first

expires_later :
    (c : Calendar) (lease : Option Text) (updated_at : Text)
    → is_some lease ≡ true
    → check_after c lease "lease_expires_at" updated_at "running lease must expire after updated_at"
      ≡ ok tt
    → (expires : Text) × (until : ℕ) × (updated : ℕ) × (lease ≡ some expires)
      × (parse_utc c expires "lease_expires_at" ≡ ok until)
      × (parse_utc c updated_at "updated_at" ≡ ok updated)
      × (updated < until)
expires_later c none updated_at leased h = cc
expires_later c (some expires) updated_at leased h =
    let (until, read, rest) = >>=-eq-ok _ _ h in
    let (updated, read', late) = >>=-eq-ok _ _ rest in
    (expires, until, updated, refl, read, read', ground arith)

-- The lease of an accepted running record can be read and expires after the record's last update.
pub running_lease :
    (c : Calendar) (r : WorkItemLifecycleRecord)
    → record_post_init c r ≡ ok r
    → r.status ≡ running
    → (expires : Text) × (until : ℕ) × (updated : ℕ) × (r.lease_expires_at ≡ some expires)
      × (parse_utc c expires "lease_expires_at" ≡ ok until)
      × (parse_utc c r.updated_at "updated_at" ≡ ok updated)
      × (updated < until)
running_lease c r h runs =
    let (_, _, times) = record_parts c r (record_state c r h) in
    let leased = (accepted_record c r h).2 in
    expires_later c r.lease_expires_at r.updated_at (ground arith)
      (running_expiry c r (subst (λ (s : WorkItemStatus). check_times c r s ≡ ok tt) runs times))

-- An accepted transition result starts at a running item and carries exactly the fields of its target:
-- a lease if it is running again, a time if it is retrying, an error if it is retrying or a dead letter;
-- only a dead letter can be exhausted, and none returns to pending.
pub accepted_result :
    (c : Calendar) (r : WorkTransitionResult)
    → result_post_init c r ≡ ok r
    → (r.from_status ≡ running)
      × ((r.to_status == pending) ≡ false)
      × (is_some r.lease_expires_at ≡ (r.to_status == running))
      × (is_some r.available_at ≡ (r.to_status == retrying))
      × (is_some r.error ≡ (r.to_status == retrying || r.to_status == dead_letter))
      × ((r.exhausted && not (r.to_status == dead_letter)) ≡ false)
unfolding result_post_init validate_transition_result
accepted_result c r h = ground arith
