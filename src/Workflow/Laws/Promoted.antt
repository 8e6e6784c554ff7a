-- ===== src/Workflow/Laws/Promoted.antt =====
-- A draft of Stage 3 becomes a verified signal or is rejected, and none is dropped.
use mathlib.Core.List.{append_assoc, append-nil}
use signalproject.Prelude.{
  ◌≡◌, ◌⊎◌, refl, sym, ap, ◌∙◌, true, false, List, [], ◌∷◌, ◌++◌, none, arith, All, ltb, length,
  map, Bool-cases, Result-cases, inl, inr, ok, is_ok,
}
use signalproject.Core.Lifecycle.Statuses.{SignalStatus}
use signalproject.Core.Signals.{Signal, EntityRef, verify, post_init}
use signalproject.Core.Signals.Laws.{IsWellFormed, transition-eq-ok}
use signalproject.Workflow.Context.{PipelineContext, RejectedDraft, stub}
use signalproject.Workflow.Gates.{Platform}
use signalproject.Workflow.Stages.{EntityResolver, Ran, returned, raised, and_then, for_each}
use signalproject.Workflow.Stages.Extraction.{reject_draft, is_claim, promote, sort_draft}
use signalproject.Workflow.Laws.Emitted.{IsEmitted}

-- A draft that Stage 3 cannot emit: its claim is vague or hedged, or its verification raises. What
-- stands for an evidence without an entity is never emitted.
abbrev pub IsUnfit : Platform → RejectedDraft → Type 0
IsUnfit p (RejectedDraft.signal s) = (is_claim p s.claim ≡ false) ⊎ (is_ok (verify s) ≡ false)
IsUnfit p (stub evidence_id reason) = Unit

-- A list of drafts, sifted into the signals that are emitted and the drafts that are rejected
pub data IsSifted (p : Platform)
    : (all : List RejectedDraft) (emitted : List Signal) (rejected : List RejectedDraft)
      → Type 0 where
  no_more : IsSifted p [] [] []
  emitting :
      {s t : Signal} {xs rs : List RejectedDraft} {ts : List Signal}
      → is_claim p s.claim ≡ true
      → verify s ≡ ok t
      → IsSifted p xs ts rs
      → IsSifted p (RejectedDraft.signal s ∷ xs) (t ∷ ts) rs
  rejecting :
      {x : RejectedDraft} {xs rs : List RejectedDraft} {ts : List Signal}
      → IsUnfit p x
      → IsSifted p xs ts rs
      → IsSifted p (x ∷ xs) ts (x ∷ rs)

IsSifted-append :
    (p : Platform) {xs rs us vs : List RejectedDraft} {ts ws : List Signal}
    → IsSifted p xs ts rs
    → IsSifted p us ws vs
    → IsSifted p (xs ++ us) (ts ++ ws) (rs ++ vs)
IsSifted-append p no_more k = k
IsSifted-append p (emitting c e rest) k = emitting c e (IsSifted-append p rest k)
IsSifted-append p (rejecting h rest) k = rejecting h (IsSifted-append p rest k)

verify-eq-ok :
    (s : Signal) {t : Signal}
    → verify s ≡ ok t
    → (t ≡ record s { status = SignalStatus.verified }) × (IsWellFormed t)
unfolding verify
verify-eq-ok s h = let (can, e, w) = transition-eq-ok s SignalStatus.verified h in (e, w)

IsWellFormed-grounded : (s : Signal) → IsWellFormed s → ltb (length s.evidence_ids) 1 ≡ false
unfolding post_init
IsWellFormed-grounded s h = ground arith

verify-IsEmitted :
    (p : Platform) (s t : Signal) → verify s ≡ ok t → is_claim p s.claim ≡ true → IsEmitted p t
verify-IsEmitted p s t h claims =
    let (e, w) = verify-eq-ok s h in
    record {
      verified = ap (λ (u : Signal). u.status) e;
      grounded = IsWellFormed-grounded t w;
      claims = ap (λ (u : Signal). is_claim p u.claim) e ∙ claims;
    }

pub sifted-AllEmitted :
    (p : Platform) {xs rs : List RejectedDraft} {ts : List Signal}
    → IsSifted p xs ts rs
    → All (IsEmitted p) ts
sifted-AllEmitted p no_more = tt
sifted-AllEmitted p (emitting {s} {t} c e rest) =
    (verify-IsEmitted p s t e c, sifted-AllEmitted p rest)
sifted-AllEmitted p (rejecting h rest) = sifted-AllEmitted p rest

-- A step sifts the drafts `xs` and keeps the entities; if it raises, the resolver did.
abbrev pub Sifts :
    {A : Type 0} → Platform → EntityResolver → PipelineContext → List RejectedDraft → Ran A → Type 0
Sifts p resolve c xs (returned next a) =
    (ts : List Signal) × (rs : List RejectedDraft) × (next.entities ≡ c.entities)
    × (next.signals ≡ c.signals ++ ts)
    × (next.rejected_signal_drafts ≡ c.rejected_signal_drafts ++ rs)
    × IsSifted p xs ts rs
Sifts p resolve c xs (raised next) = (ref : EntityRef) × (resolve ref ≡ none)

pub Sifts-nothing :
    (p : Platform) (resolve : EntityResolver) (c next : PipelineContext)
    → next.entities ≡ c.entities
    → next.signals ≡ c.signals
    → next.rejected_signal_drafts ≡ c.rejected_signal_drafts
    → Sifts {A = Unit {0}} p resolve c [] (returned next tt)
Sifts-nothing p resolve c next e s r = (
  [],
  [],
  e,
  s ∙ sym (append-nil c.signals),
  r ∙ sym (append-nil c.rejected_signal_drafts),
  no_more,
)

pub Sifts-rejecting :
    (p : Platform) (resolve : EntityResolver) (c : PipelineContext) (x : RejectedDraft)
    → IsUnfit p x
    → Sifts {A = Unit {0}} p resolve c (x ∷ []) (returned (reject_draft c x) tt)
unfolding reject_draft
Sifts-rejecting p resolve c x h =
    ([], x ∷ [], refl, sym (append-nil c.signals), refl, rejecting h no_more)

Sifts-behind :
    {A : Type 0} (p : Platform) (resolve : EntityResolver) (c mid : PipelineContext)
    (xs us rs : List RejectedDraft) (ts : List Signal) (q : Ran A)
    → mid.entities ≡ c.entities
    → mid.signals ≡ c.signals ++ ts
    → mid.rejected_signal_drafts ≡ c.rejected_signal_drafts ++ rs
    → IsSifted p xs ts rs
    → Sifts p resolve mid us q
    → Sifts p resolve c (xs ++ us) q
Sifts-behind p resolve c mid xs us rs ts (returned last a) e f g s (ws, vs, k, l, m, t) = (
  ts ++ ws,
  rs ++ vs,
  k ∙ e,
  l ∙ ap (λ (ss : List Signal). ss ++ ws) f ∙ append_assoc c.signals ts ws,
  m ∙ ap (λ (ds : List RejectedDraft). ds ++ vs) g ∙ append_assoc c.rejected_signal_drafts rs vs,
  IsSifted-append p s t,
)
Sifts-behind p resolve c mid xs us rs ts (raised last) e f g s t = t

pub and_then-Sifts :
    {A B : Type 0} (p : Platform) (resolve : EntityResolver) (c : PipelineContext)
    (xs us : List RejectedDraft) (r : Ran A) (next : PipelineContext → A → Ran B)
    → Sifts p resolve c xs r
    → ((mid : PipelineContext) (a : A)
        → mid.entities ≡ c.entities
        → Sifts p resolve mid us (next mid a))
    → Sifts p resolve c (xs ++ us) (and_then r next)
and_then-Sifts p resolve c xs us (returned mid a) next (ts, rs, e, f, g, s) k =
    Sifts-behind p resolve c mid xs us rs ts (next mid a) e f g s (k mid a e)
and_then-Sifts p resolve c xs us (raised mid) next h k = h

promote-Sifts :
    (p : Platform) (resolve : EntityResolver) (c : PipelineContext) (s : Signal)
    → is_claim p s.claim ≡ true
    → Sifts {A = Unit {0}} p resolve c (RejectedDraft.signal s ∷ []) (returned (promote c s) tt)
unfolding promote
promote-Sifts p resolve c s claims = elim (Result-cases (verify s)) [
  | inl (t, e) ↦
      rw (promote, e)
        (
          t ∷ [],
          [],
          refl,
          refl,
          sym (append-nil c.rejected_signal_drafts),
          emitting claims e no_more,
        )
  | inr (f, e) ↦
      rw (promote, e) (Sifts-rejecting p resolve c (RejectedDraft.signal s) (inr (rw e refl)))
]

sort_draft-Sifts :
    (p : Platform) (resolve : EntityResolver) (c : PipelineContext) (s : Signal)
    → Sifts p resolve c (RejectedDraft.signal s ∷ []) (sort_draft p c s)
unfolding sort_draft
sort_draft-Sifts p resolve c s = elim (Bool-cases (is_claim p s.claim)) [
  | inl b ↦ rw b (promote-Sifts p resolve c s b)
  | inr b ↦ rw b (Sifts-rejecting p resolve c (RejectedDraft.signal s) (inl b))
]

pub sort_drafts-Sifts :
    (p : Platform) (resolve : EntityResolver) (drafts : List Signal) (c : PipelineContext)
    → Sifts p resolve c (map RejectedDraft.signal drafts) (for_each (sort_draft p) c drafts)
unfolding for_each
sort_drafts-Sifts p resolve [] c = Sifts-nothing p resolve c c refl refl refl
sort_drafts-Sifts p resolve (s ∷ ss) c =
    and_then-Sifts p resolve c (RejectedDraft.signal s ∷ []) (map RejectedDraft.signal ss)
      (sort_draft p c s) (λ next done. for_each (sort_draft p) next ss)
      (sort_draft-Sifts p resolve c s) (λ mid done e. sort_drafts-Sifts p resolve ss mid)
