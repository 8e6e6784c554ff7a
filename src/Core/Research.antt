-- ===== src/Core/Research.antt =====
-- src/core/research/__init__.py: a Research and its methods. `now` is what `now_utc()` returns.
pub mod Laws
use signalproject.Prelude.{
  given_or, false, Option, none, some, Bool, true, not, ◌&&◌, ◌||◌, Option, none, some, List, [],
  ◌∷◌, ◌++◌, String, ◌==◌, ltb, length, contains, is_none, Result, ok, err, ◌>>=◌, ◌>>◌, raise_if,
  if◌then◌else◌,
}
use signalproject.Prelude.Text.{Text, Text-eq, codes, is_empty}
use signalproject.Prelude.Float.{Float, in_unit_interval}
use signalproject.Core.Lifecycle.{Raised, value_error, assert_transition}
use signalproject.Core.Lifecycle.Statuses.{ResearchStatus, ResearchStatus-eq}
use signalproject.Core.Lifecycle.Graphs.{research_lifecycle}
use signalproject.Core.Signals.{EntityRef, SignalHorizon}

pub data Durability : Type 0 where
  transient short structural : Durability

pub data Reversibility : Type 0 where
  irreversible hard easy : Reversibility

pub record CausalLink : Type 0 where
  pub to_entity : EntityRef
  pub mechanism : Text
  pub likelihood : Text
  pub time_horizon : SignalHorizon

unfoldable pub causal_link_post_init : CausalLink → Result (Raised ResearchStatus) CausalLink
causal_link_post_init l = do
  raise_if (is_empty l.mechanism) (value_error "CausalLink.mechanism is required")
  raise_if (ltb 280 (length l.mechanism)) (value_error "CausalLink.mechanism exceeds 280 chars")
  raise_if (not (contains (codes "low" ∷ codes "medium" ∷ codes "high" ∷ []) l.likelihood))
      (value_error "CausalLink.likelihood must be one of low/medium/high")
  ok l

pub record PrecedentRef : Type 0 where
  pub signal_id : Text
  pub similarity : Float
  pub outcome : Text

unfoldable pub precedent_post_init : PrecedentRef → Result (Raised ResearchStatus) PrecedentRef
precedent_post_init p = do
  raise_if (is_empty p.signal_id) (value_error "PrecedentRef.signal_id is required")
  raise_if (not (in_unit_interval p.similarity))
      (value_error "PrecedentRef.similarity must be in [0.0, 1.0]")
  ok p

pub record Reasoning : Type 0 where
  pub significance : Float
  pub causality : List CausalLink
  pub durability : Durability
  pub reversibility : Reversibility
  pub precedents : List PrecedentRef
  pub one_liner : Text

unfoldable pub reasoning_post_init : Reasoning → Result (Raised ResearchStatus) Reasoning
reasoning_post_init r = do
  raise_if (not (in_unit_interval r.significance))
      (value_error "Reasoning.significance must be in [0.0, 1.0]")
  raise_if (ltb 140 (length r.one_liner)) (value_error "Reasoning.one_liner exceeds 140 chars")
  ok r

pub record Research : Type 0 where
  pub id : Text
  pub entity_ref : EntityRef
  pub question : Text
  pub signal_ids : List Text
  pub status : ResearchStatus
  pub opened_at : Text
  pub concluded_at : Option Text
  pub reasoning : Option Reasoning
  pub traceability_gaps : Bool
  pub held_reason : Option Text

-- The last step of Research.__post_init__: a concluded research without a time is stamped.
abbrev stamp_concluded : (now : Text) → Research → Research
stamp_concluded now r =
    if (r.status == ResearchStatus.concluded) && is_none r.concluded_at
    then record r { concluded_at = some now }
    else r

-- Research.__post_init__
unfoldable pub post_init : (now : Text) → Research → Result (Raised ResearchStatus) Research
post_init now r = do
  raise_if (is_empty r.id) (value_error "Research.id is required")
  raise_if (is_empty r.question) (value_error "Research.question is required")
  raise_if (ltb (length r.signal_ids) 1) (value_error "Research must aggregate at least one Signal")
  ok (stamp_concluded now r)

unfoldable pub transition :
    (now : Text) → Research → ResearchStatus → Result (Raised ResearchStatus) Research
transition now r new_status = do
  assert_transition research_lifecycle r.status new_status
  post_init now (record r { status = new_status })

unfoldable pub start : (now : Text) → Research → Result (Raised ResearchStatus) Research
start now r = transition now r ResearchStatus.ongoing

-- `if reason: result = replace(result, held_reason=reason)`
abbrev with_reason : (now : Text) → Option Text → Research → Result (Raised ResearchStatus) Research
with_reason now none r = ok r
with_reason now (some reason) r =
    if is_empty reason then ok r else post_init now (record r { held_reason = some reason })

unfoldable pub pause :
    (now : Text) → Research → (reason : Option Text) → Result (Raised ResearchStatus) Research
pause now r reason = do
  result ← transition now r ResearchStatus.paused
  with_reason now reason result

unfoldable pub resume : (now : Text) → Research → Result (Raised ResearchStatus) Research
resume now r =
    if not (r.status == ResearchStatus.paused)
    then err (value_error "Cannot resume")
    else transition now r ResearchStatus.ongoing

-- The stamp of Research.conclude on the transitioned research
abbrev stamped : (now : Text) → Research → Result (Raised ResearchStatus) Research
stamped now r =
    if is_none r.concluded_at then post_init now (record r { concluded_at = some now }) else ok r

unfoldable pub conclude : (now : Text) → Research → Result (Raised ResearchStatus) Research
conclude now r =
    if r.status == ResearchStatus.concluded
    then ok r
    else do new ← transition now r ResearchStatus.concluded; stamped now new

-- `tuple(sid for sid in signal_ids if sid not in existing)`
unfoldable pub not_in : List Text → List Text → List Text
not_in existing [] = []
not_in existing (sid ∷ rest) =
    if contains existing sid then not_in existing rest else sid ∷ not_in existing rest

unfoldable pub add_signals :
    (now : Text) → Research → (signal_ids : List Text) → Result (Raised ResearchStatus) Research
add_signals now r signal_ids =
    post_init now (record r { signal_ids = r.signal_ids ++ not_in r.signal_ids signal_ids })

unfoldable pub attach_reasoning :
    (now : Text) → Research → Reasoning → Result (Raised ResearchStatus) Research
attach_reasoning now r reasoning = post_init now (record r { reasoning = some reasoning })

unfoldable pub flag_traceability_gaps :
    (now : Text) → Research → Result (Raised ResearchStatus) Research
flag_traceability_gaps now r = post_init now (record r { traceability_gaps = true })

-- `new_id` is what `new_id()` returns.
unfoldable pub create :
    (new_id now : Text)
    → EntityRef
    → (question : Text) → (signal_ids : List Text) → (id : Option Text)
    → (reasoning : Option Reasoning) → (held_reason : Option Text)
    → Result (Raised ResearchStatus) Research
create new_id now entity_ref question signal_ids id reasoning held_reason = post_init now (record {
  id = given_or id new_id;
  entity_ref = entity_ref;
  question = question;
  signal_ids = signal_ids;
  status = ResearchStatus.opened;
  opened_at = now;
  concluded_at = none;
  reasoning = reasoning;
  traceability_gaps = false;
  held_reason = held_reason;
})
