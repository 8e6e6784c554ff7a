-- ===== src/Core/Lifecycle/Graphs.antt =====
-- src/core/lifecycle.py: the four lifecycle graphs.
use signalproject.Prelude.{[], ◌∷◌}
use signalproject.Core.Lifecycle.{Graph}
use signalproject.Core.Lifecycle.Statuses.{
  SignalStatus, ThesisStatus, ResearchStatus, SourceStatus, draft, verified, held, rejected,
  decayed, emerging, evolving, mature, opened, ongoing, paused, concluded, deactivated,
}

abbrev pub signal_lifecycle : Graph SignalStatus
signal_lifecycle =
    (draft, verified ∷ rejected ∷ [])
    ∷ (verified, SignalStatus.active ∷ held ∷ rejected ∷ [])
    ∷ (SignalStatus.active, decayed ∷ SignalStatus.superseded ∷ [])
    ∷ (held, SignalStatus.active ∷ rejected ∷ [])
    ∷ (rejected, [])
    ∷ (decayed, [])
    ∷ (SignalStatus.superseded, [])
    ∷ []

abbrev pub thesis_lifecycle : Graph ThesisStatus
thesis_lifecycle =
    (emerging, evolving ∷ ThesisStatus.superseded ∷ [])
    ∷ (evolving, mature ∷ ThesisStatus.superseded ∷ ThesisStatus.retired ∷ [])
    ∷ (mature, evolving ∷ ThesisStatus.superseded ∷ ThesisStatus.retired ∷ [])
    ∷ (ThesisStatus.superseded, [])
    ∷ (ThesisStatus.retired, [])
    ∷ []

abbrev pub research_lifecycle : Graph ResearchStatus
research_lifecycle =
    (opened, ongoing ∷ paused ∷ concluded ∷ [])
    ∷ (ongoing, paused ∷ concluded ∷ [])
    ∷ (paused, ongoing ∷ concluded ∷ [])
    ∷ (concluded, [])
    ∷ []

abbrev pub source_lifecycle : Graph SourceStatus
source_lifecycle =
    (SourceStatus.active, deactivated ∷ SourceStatus.retired ∷ [])
    ∷ (deactivated, SourceStatus.active ∷ SourceStatus.retired ∷ [])
    ∷ (SourceStatus.retired, [])
    ∷ []
