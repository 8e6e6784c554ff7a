-- ===== src/Workflow/Laws/Observed.antt =====
-- Stage 1 sorts what it observes into the candidates that it admits and those that it flags.
use mathlib.Core.List.{append_assoc, append-nil}
use signalproject.Workflow.Laws.Running.{conclude_keeps, IgnoresEvents}
use signalproject.Prelude.{
  ℕ, ◌+◌, ◌≤◌, ◌<◌, ◌≡◌, ◌⊎◌, refl, sym, ap, ◌∙◌, true, false, Option, none, some, List, [], ◌∷◌,
  ◌++◌, arith, All, Bool-cases, Option-cases, inl, inr, ok, ◌==◌, subst, add_new, if◌then◌else◌,
}
use signalproject.Prelude.Text.{Text, codes}
use signalproject.Prelude.Float.{ℤ}
use signalproject.Persistence.Ingestion.Times.{Stamp, naive, aware}
use signalproject.Core.Lifecycle.Statuses.{SourceStatus, SourceStatus-eq}
use signalproject.Core.Sources.{Source, post_init}
use signalproject.Core.Sources.Laws.{deactivate_total}
use signalproject.Workflow.Types.{CandidateObservation, StageResult}
use signalproject.Workflow.Equality.{Source-eq}
use signalproject.Workflow.Context.{PipelineContext, emit}
use signalproject.Workflow.Gates.{Platform}
use signalproject.Workflow.Gates.Early.{is_blank}
use signalproject.Workflow.Gates.Late.{stage_1_gates}
use signalproject.Workflow.Stages.{SourceObserver, Ran, returned, and_then, for_each, start}
use signalproject.Workflow.Stages.Observation.{
  observation_status, is_plausible, admits, sort_candidate, degrade, observe_source, observe_all,
  source_observation,
}

-- The candidates that the observer hands over for a source that is observed
abbrev pub observed : SourceObserver → Source → List CandidateObservation
observed observe s =
    if s.status == SourceStatus.active then elim (observe s) [ none ↦ [] | some cs ↦ cs ] else []

-- The candidates of all the sources, in order
abbrev pub handed : SourceObserver → List Source → List CandidateObservation
handed observe [] = []
handed observe (s ∷ ss) = observed observe s ++ handed observe ss

-- 31 days in microseconds
abbrev pub month : ℕ
month = 2_678_400_000_000

module _ (p : Platform) where
  -- Not blank, with a timestamp that has an offset and is, by some reading of the clock, neither in the
  -- future nor 31 days old
  abbrev pub IsAdmissible : CandidateObservation → Type 0
  IsAdmissible x =
      (is_blank x.content ≡ false)
      × (d : PipelineContext) × (offset : ℤ) × (t : ℕ) × (p.fromisoformat x.source_timestamp
          ≡ some (aware offset t))
      × (t ≤ p.now 0 d)
      × (p.now 1 d < t + month)

  -- Blank, or its timestamp, if it has one with an offset, is by some reading of the clock in the future
  -- or at least 31 days old
  abbrev pub IsRefusable : CandidateObservation → Type 0
  IsRefusable x =
      (is_blank x.content ≡ true)
      ⊎ ((d : PipelineContext) × ((offset : ℤ) (t : ℕ)
            → p.fromisoformat x.source_timestamp ≡ some (aware offset t)
            → (p.now 0 d < t) ⊎ (t + month ≤ p.now 1 d)))

-- A list of candidates, split into the admitted and the flagged ones, in their order
pub data IsSplit (p : Platform) : (all admitted flagged : List CandidateObservation) → Type 0 where
  no_more : IsSplit p [] [] []
  admitting :
      {x : CandidateObservation} {xs ys zs : List CandidateObservation}
      → IsAdmissible p x
      → IsSplit p xs ys zs
      → IsSplit p (x ∷ xs) (x ∷ ys) zs
  flagging :
      {x : CandidateObservation} {xs ys zs : List CandidateObservation}
      → IsRefusable p x
      → IsSplit p xs ys zs
      → IsSplit p (x ∷ xs) ys (x ∷ zs)

IsSplit-append :
    (p : Platform) {xs ys zs us vs ws : List CandidateObservation}
    → IsSplit p xs ys zs
    → IsSplit p us vs ws
    → IsSplit p (xs ++ us) (ys ++ vs) (zs ++ ws)
IsSplit-append p no_more k = k
IsSplit-append p (admitting h rest) k = admitting h (IsSplit-append p rest k)
IsSplit-append p (flagging h rest) k = flagging h (IsSplit-append p rest k)

plausible_stamp :
    (compared aged : ℕ) (o : Option Stamp)
    → is_plausible compared aged o ≡ true
    → (offset : ℤ) × (t : ℕ) × (o ≡ some (aware offset t)) × (t ≤ compared) × (aged < t + month)
plausible_stamp compared aged none h = absurd (cc h)
plausible_stamp compared aged (some (naive t)) h = absurd (cc h)
plausible_stamp compared aged (some (aware offset t)) h =
    (offset, t, refl, ground arith, ground arith)

implausible_stamp :
    (compared aged offset_t : ℕ) (offset : ℤ)
    → is_plausible compared aged (some (aware offset offset_t)) ≡ false
    → (compared < offset_t) ⊎ (offset_t + month ≤ aged)
implausible_stamp compared aged t offset h = ground arith

admits-IsAdmissible :
    (p : Platform) (c : PipelineContext) (x : CandidateObservation)
    → admits p c x ≡ true
    → IsAdmissible p x
unfolding admits
admits-IsAdmissible p c x h =
    let (offset, t, e, early, late) =
      plausible_stamp (p.now 0 c) (p.now 1 c) (p.fromisoformat x.source_timestamp) (ground arith) in
    (ground arith, c, offset, t, e, early, late)

admits-IsRefusable :
    (p : Platform) (c : PipelineContext) (x : CandidateObservation)
    → admits p c x ≡ false
    → IsRefusable p x
unfolding admits
admits-IsRefusable p c x h = elim (Bool-cases (is_blank x.content)) [
  | inl b ↦ inl b
  | inr b ↦ inr (
    c,
    λ offset t e.
        implausible_stamp (p.now 0 c) (p.now 1 c) t offset
          (ap (is_plausible (p.now 0 c) (p.now 1 c)) (sym e) ∙ ground arith),
  )
]

-- A step that returns and has sorted the candidates `xs`
abbrev Sorts : Platform → Ran (Unit {0}) → PipelineContext → List CandidateObservation → Type 0
Sorts p r c xs =
    (next : PipelineContext) × (ys : List CandidateObservation) × (zs : List CandidateObservation)
    × (r ≡ returned next tt)
    × (next.candidates ≡ c.candidates ++ ys)
    × (next.flagged_candidates ≡ c.flagged_candidates ++ zs)
    × IsSplit p xs ys zs

Sorts-nothing :
    (p : Platform) (c next : PipelineContext) (r : Ran (Unit {0}))
    → r ≡ returned next tt
    → next.candidates ≡ c.candidates
    → next.flagged_candidates ≡ c.flagged_candidates
    → Sorts p r c []
Sorts-nothing p c next r e f g = (
  next,
  [],
  [],
  e,
  f ∙ sym (append-nil c.candidates),
  g ∙ sym (append-nil c.flagged_candidates),
  no_more,
)

and_then-Sorts :
    (p : Platform) (r : Ran (Unit {0})) (c : PipelineContext)
    (after : PipelineContext → Unit {0} → Ran (Unit {0})) (xs us : List CandidateObservation)
    → Sorts p r c xs
    → ((mid : PipelineContext) → Sorts p (after mid tt) mid us)
    → Sorts p (and_then r after) c (xs ++ us)
and_then-Sorts p r c after xs us (mid, ys, zs, e, f, g, s) h =
    let (last, vs, ws, k, l, m, t) = h mid in
    (
      last,
      ys ++ vs,
      zs ++ ws,
      ap (λ (q : Ran (Unit {0})). and_then q after) e ∙ k,
      l ∙ ap (λ (cs : List CandidateObservation). cs ++ vs) f ∙ append_assoc c.candidates ys vs,
      m
          ∙ ap (λ (cs : List CandidateObservation). cs ++ ws) g
          ∙ append_assoc c.flagged_candidates zs ws,
      IsSplit-append p s t,
    )

sort_candidate-Sorts :
    (p : Platform) (c : PipelineContext) (x : CandidateObservation)
    → Sorts p (sort_candidate p c x) c (x ∷ [])
unfolding sort_candidate
sort_candidate-Sorts p c x = elim (Bool-cases (admits p c x)) [
  | inl e ↦ (
    record c { candidates = c.candidates ++ x ∷ [] },
    x ∷ [],
    [],
    rw e refl,
    refl,
    sym (append-nil c.flagged_candidates),
    admitting (admits-IsAdmissible p c x e) no_more,
  )
  | inr e ↦ (
    record c { flagged_candidates = c.flagged_candidates ++ x ∷ [] },
    [],
    x ∷ [],
    rw e refl,
    sym (append-nil c.candidates),
    refl,
    flagging (admits-IsRefusable p c x e) no_more,
  )
]

sort_all-Sorts :
    (p : Platform) (xs : List CandidateObservation) (c : PipelineContext)
    → Sorts p (for_each (sort_candidate p) c xs) c xs
unfolding for_each
sort_all-Sorts p [] c = Sorts-nothing p c c _ refl refl refl
sort_all-Sorts p (x ∷ xs) c =
    and_then-Sorts p (sort_candidate p c x) c (λ next done. for_each (sort_candidate p) next xs)
      (x ∷ []) xs (sort_candidate-Sorts p c x) (λ mid. sort_all-Sorts p xs mid)

degrade-Sorts :
    (p : Platform) (c : PipelineContext) (s : Source)
    → post_init s ≡ ok s
    → s.status ≡ SourceStatus.active
    → Sorts p (degrade c s) c []
unfolding degrade
degrade-Sorts p c s v a =
    Sorts-nothing p c
      (record c {
        degraded_sources =
            add_new (record s { status = SourceStatus.deactivated }) c.degraded_sources;
      })
      (degrade c s) (rw (degrade, deactivate_total s v a) refl) refl refl

observe_source-Sorts :
    (p : Platform) (observe : SourceObserver) (c : PipelineContext) (s : Source)
    → post_init s ≡ ok s
    → Sorts p (observe_source p observe c s) c (observed observe s)
unfolding observe_source
observe_source-Sorts p observe c s v = elim (Bool-cases (s.status == SourceStatus.active)) [
  | inl a ↦ elim (Option-cases (observe s)) [
    | inl o ↦
        rw (a, o)
          (degrade-Sorts p c s v ((SourceStatus-eq.beq_iff s.status SourceStatus.active).0 a))
    | inr (xs, o) ↦ rw (a, o) (sort_all-Sorts p xs c)
  ]
  | inr a ↦ rw a (Sorts-nothing p c c _ refl refl refl)
]

observe_rest-Sorts :
    (p : Platform) (observe : SourceObserver) (ss : List Source) (c : PipelineContext)
    → All (λ s. post_init s ≡ ok s) ss
    → Sorts p (for_each (observe_source p observe) c ss) c (handed observe ss)
unfolding for_each
observe_rest-Sorts p observe [] c v = Sorts-nothing p c c _ refl refl refl
observe_rest-Sorts p observe (s ∷ ss) c v =
    and_then-Sorts p (observe_source p observe c s) c
      (λ next done. for_each (observe_source p observe) next ss) (observed observe s)
      (handed observe ss) (observe_source-Sorts p observe c s v.0)
      (λ mid. observe_rest-Sorts p observe ss mid v.1)

observe_all-Sorts :
    (p : Platform) (observe : SourceObserver) (c : PipelineContext)
    → All (λ s. post_init s ≡ ok s) c.sources
    → Sorts p (observe_all p (some observe) c) c (handed observe c.sources)
unfolding observe_all
observe_all-Sorts p observe c v = observe_rest-Sorts p observe c.sources c v

abbrev lists_of : PipelineContext → List CandidateObservation × List CandidateObservation
lists_of c = (c.candidates, c.flagged_candidates)

lists_of-emit : IgnoresEvents lists_of
unfolding emit
lists_of-emit e c = refl

start-sources :
    (p : Platform) (name : Text) (c : PipelineContext) → (start p name c).sources ≡ c.sources
unfolding start emit
start-sources p name c = refl

start-lists_of :
    (p : Platform) (name : Text) (c : PipelineContext) → lists_of (start p name c) ≡ lists_of c
unfolding start emit
start-lists_of p name c = refl

-- Where the sources are ones that their validation accepts, Stage 1 returns, whichever sources the
-- observer raises on. What the active sources hand over is split, in its order, into candidates that
-- are appended to the candidates and candidates that are appended to the flagged ones: each of the
-- former is not blank and has a timestamp with an offset that is neither in the future nor 31 days
-- old, and each of the latter fails one of these tests.
pub source_observation_sorts :
    (p : Platform) (observe : SourceObserver) (context : PipelineContext)
    → All (λ s. post_init s ≡ ok s) context.sources
    → (last : PipelineContext) × (r : StageResult) × (admitted : List CandidateObservation)
      × (flagged : List CandidateObservation) × (source_observation p (some observe) context
          ≡ returned last r)
      × (last.candidates ≡ context.candidates ++ admitted)
      × (last.flagged_candidates ≡ context.flagged_candidates ++ flagged)
      × IsSplit p (handed observe context.sources) admitted flagged
unfolding source_observation
source_observation_sorts p observe context v =
    let begun = start p (codes "S1") context in
    let (mid, ys, zs, e, f, g, split) =
      observe_all-Sorts p observe begun
        (subst (All (λ s. post_init s ≡ ok s)) (sym (start-sources p (codes "S1") context)) v) in
    let (last, r, k, l) =
      conclude_keeps p (codes "S1") observation_status lists_of lists_of-emit (stage_1_gates p) mid
        (λ d. refl, (λ d. refl, (λ d. refl, tt))) in
    let same = start-lists_of p (codes "S1") context in
    (
      last,
      r,
      ys,
      zs,
      rw (e, k) refl,
      ap (λ (q : List CandidateObservation × List CandidateObservation). q.0) l
          ∙ f
          ∙ ap (λ (q : List CandidateObservation × List CandidateObservation). q.0 ++ ys) same,
      ap (λ (q : List CandidateObservation × List CandidateObservation). q.1) l
          ∙ g
          ∙ ap (λ (q : List CandidateObservation × List CandidateObservation). q.1 ++ zs) same,
      subst (λ (ss : List Source). IsSplit p (handed observe ss) ys zs)
          (start-sources p (codes "S1") context) split,
    )
