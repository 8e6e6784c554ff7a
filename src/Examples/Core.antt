-- ===== src/Examples/Core.antt =====
-- Runs of the theorems on the domain objects of src/core.
use signalproject.Prelude.{
  ◌≡◌, refl, true, false, none, some, [], ◌∷◌, length, contains, ◌≤◌, ok, inl,
}
use signalproject.Prelude.Text.{codes}
use signalproject.Prelude.Float.{one}
use signalproject.Core.Lifecycle.{assert_transition}
use signalproject.Core.Lifecycle.Statuses.{
  SignalStatus, SignalStatus-eq, ThesisStatus, ThesisStatus-eq, ResearchStatus, SourceStatus,
}
use signalproject.Core.Signals
use signalproject.Core.Signals.{
  Signal, Score, EntityRef, SignalDirection, SignalHorizon, empty_metadata,
}
use signalproject.Core.Signals.Laws.{transition_lem}
use signalproject.Core.Signals.Histories.{Life, created, moved, active_after_verified, Life-length}
use signalproject.Core.Theses
use signalproject.Core.Theses.{Thesis}
use signalproject.Core.Theses.Laws.{Keeps, call-Keeps, call-terminal, retire_lem}
use signalproject.Core.Research
use signalproject.Core.Research.{Research}
use signalproject.Core.Research.Laws.{IsStamped, call-concluded, call-IsStamped}
use signalproject.Core.Sources
use signalproject.Core.Sources.{Source, SourceType}
use signalproject.Core.Sources.Laws.{call-retired, retire_total}

abbrev company : EntityRef
company = record { id = codes "acme"; kind = codes "company" }

abbrev full_score : Score
full_score = record {
  magnitude = one;
  confidence = one;
  timeliness = one;
  novelty = one;
  actionability = one;
}

abbrev signal : SignalStatus → Signal
signal status = record {
  id = codes "s1";
  entity_ref = company;
  type = codes "guidance";
  claim = codes "raises guidance";
  evidence_ids = codes "e1" ∷ [];
  direction = SignalDirection.bullish;
  horizon = SignalHorizon.short;
  score = full_score;
  status = status;
  timestamp = codes "2026-01-01";
  detected_at = codes "2026-01-02";
  cluster_id = none;
  metadata = empty_metadata;
  provenance_present = true;
}

signal-IsWellFormed : Signals.Laws.IsWellFormed (signal SignalStatus.held)
unfolding Signals.post_init Signals.assert_inv_4
signal-IsWellFormed = refl

step_verified :
    Signals.transition (signal SignalStatus.draft) SignalStatus.verified
    ≡ ok (signal SignalStatus.verified)
unfolding Signals.transition Signals.post_init assert_transition Signals.assert_inv_4
step_verified = refl

step_active :
    Signals.transition (signal SignalStatus.verified) SignalStatus.active
    ≡ ok (signal SignalStatus.active)
unfolding Signals.transition Signals.post_init assert_transition Signals.assert_inv_4
step_active = refl

life :
    Life
      (signal SignalStatus.draft)
      (SignalStatus.verified ∷ SignalStatus.draft ∷ [])
      (signal SignalStatus.active)
life = moved SignalStatus.active (moved SignalStatus.verified created step_verified) step_active

active_after_verified_example :
    contains (SignalStatus.verified ∷ SignalStatus.draft ∷ []) SignalStatus.verified ≡ true
active_after_verified_example = active_after_verified life refl refl

Life-length_example :
    (length (SignalStatus.verified ∷ SignalStatus.draft ∷ []) ≤ 4)
    × (signal SignalStatus.active ≡ signal SignalStatus.active)
Life-length_example = Life-length life

abbrev thesis : ThesisStatus → Thesis
thesis status = record {
  id = codes "t1";
  entity_ref = company;
  interpretation = codes "demand grows";
  status = status;
  supporting_research_ids = [];
  evolution_history = [];
  created_at = codes "2026-01-01";
  open_questions = [];
}

thesis-IsWellFormed : Theses.Laws.IsWellFormed (thesis ThesisStatus.mature)
unfolding Theses.post_init
thesis-IsWellFormed = refl

retiring_thesis :
    Theses.Laws.call Theses.Laws.retiring (thesis ThesisStatus.mature)
    ≡ ok (thesis ThesisStatus.retired)
unfolding Theses.retire Theses.transition Theses.post_init assert_transition
retiring_thesis = refl

call-Keeps_example : Keeps (thesis ThesisStatus.mature) (thesis ThesisStatus.retired)
call-Keeps_example = call-Keeps Theses.Laws.retiring (thesis ThesisStatus.mature) retiring_thesis

holding_thesis :
    Theses.Laws.call (Theses.Laws.holding (codes "why?")) (thesis ThesisStatus.superseded)
    ≡ ok (record (thesis ThesisStatus.superseded) { open_questions = codes "why?" ∷ [] })
unfolding Theses.hold_with_open_question Theses.post_init
holding_thesis = refl

call-terminal_example : ThesisStatus.superseded ≡ ThesisStatus.superseded
call-terminal_example =
    call-terminal (Theses.Laws.holding (codes "why?")) (thesis ThesisStatus.superseded) (inl refl)
      holding_thesis

abbrev research : ResearchStatus → Research
research status = record {
  id = codes "r1";
  entity_ref = company;
  question = codes "does demand grow?";
  signal_ids = codes "s1" ∷ [];
  status = status;
  opened_at = codes "2026-01-01";
  concluded_at = none;
  reasoning = none;
  traceability_gaps = false;
  held_reason = none;
}

abbrev concluded_research : Research
concluded_research = record (research ResearchStatus.concluded) {
  concluded_at = some (codes "2026-01-03");
}

concluding_research :
    Research.Laws.call
      (codes "2026-01-03")
      Research.Laws.concluding
      (research ResearchStatus.ongoing)
    ≡ ok concluded_research
unfolding Research.conclude Research.transition Research.post_init assert_transition
concluding_research = refl

call-IsStamped_example : IsStamped concluded_research
call-IsStamped_example =
    call-IsStamped (codes "2026-01-03") Research.Laws.concluding (research ResearchStatus.ongoing)
      refl concluding_research

flagging_research :
    Research.Laws.call (codes "2026-01-04") Research.Laws.flagging concluded_research
    ≡ ok (record concluded_research { traceability_gaps = true })
unfolding Research.flag_traceability_gaps Research.post_init
flagging_research = refl

abbrev source : SourceStatus → Source
source status = record {
  id = codes "src1";
  type = SourceType.news_article;
  url = codes "https://example.org";
  name = codes "News";
  status = status;
  reliability_score = one;
  activated_at = codes "2026-01-01";
  last_observed_at = none;
  health_notes = [];
}

noting_source :
    Sources.Laws.call (Sources.Laws.noting (codes "slow")) (source SourceStatus.retired)
    ≡ ok (record (source SourceStatus.retired) { health_notes = codes "slow" ∷ [] })
unfolding Sources.add_health_note Sources.post_init
noting_source = refl

source-IsWellFormed :
    Sources.post_init (source SourceStatus.deactivated) ≡ ok (source SourceStatus.deactivated)
unfolding Sources.post_init
source-IsWellFormed = refl
