-- ===== src/Workflow/Laws/Recorded.antt =====
-- The loop of Stage 5 records concrete theses.
use signalproject.Prelude.{
  ◌≡◌, refl, ap, ◌∙◌, inl, inr, true, false, ◌||◌, Option, none, some, is_some, List, [], ◌∷◌,
  arith, All, All-append, Bool-cases, Option-cases, Result-cases, ok, contains,
}
use signalproject.Prelude.Text.{Text, Text-eq}
use signalproject.Core.Research.{Research}
use signalproject.Core.Theses.{Thesis, evolve, evolution_post_init, post_init}
use signalproject.Workflow.Context.{PipelineContext}
use signalproject.Workflow.Gates.{Platform}
use signalproject.Workflow.Gates.Early.{is_blank}
use signalproject.Workflow.Gates.Middle.{entity_ids}
use signalproject.Workflow.Gates.Late.{is_short}
use signalproject.Workflow.Stages.{ThesisCrystallizer, ThesesProvider, returned, for_each}
use signalproject.Workflow.Stages.Crystallization.{
  updated, file_thesis, crystallized, update_thesis,
}

-- An interpretation that the first two gates let pass
pub record IsConcrete (t : Thesis) : Type 0 where
  pub written : is_blank t.interpretation ≡ false
  pub long : is_short t.interpretation ≡ false

abbrev pub AllConcrete : PipelineContext → Type 0
AllConcrete c = All IsConcrete c.theses

pub evolve-interpretation :
    (now : Text) (t : Thesis) (text : Text) (ids : List Text) (by rationale : Text) {u : Thesis}
    → evolve now t text ids by rationale ≡ ok u
    → u.interpretation ≡ text
unfolding evolve evolution_post_init post_init
evolve-interpretation now t text ids by rationale h = ground arith

pub updated-interpretation :
    (p : Platform) (c : PipelineContext) (r : Research) (existing : Option Thesis) (t : Thesis)
    → (updated p c r existing t).interpretation ≡ t.interpretation
unfolding updated
updated-interpretation p c r none t = refl
updated-interpretation p c r (some prior) t =
    elim (Result-cases (evolve (p.now_utc c) prior t.interpretation (r.id ∷ []) r.id [])) [
      | inl (u, e) ↦ rw (updated, e) (evolve-interpretation _ prior t.interpretation _ _ _ e)
      | inr (f, e) ↦ rw (updated, e) refl
    ]

pub file_thesis-AllConcrete :
    (p : Platform) (c : PipelineContext) (r : Research) (existing : Option Thesis) (t : Thesis)
    → AllConcrete c
    → AllConcrete (file_thesis p c r existing t)
unfolding file_thesis
file_thesis-AllConcrete p c r existing t h =
    elim (Bool-cases (is_blank t.interpretation || is_short t.interpretation)) [
      | inl e ↦ rw e h
      | inr e ↦ elim (Bool-cases (contains (entity_ids c) t.entity_ref.id)) [
        | inl k ↦
            rw (e, k)
              (All-append IsConcrete c.theses (updated p c r existing t ∷ []) h (recorded e, tt))
        | inr k ↦ rw (e, k) h
      ]
    ]
  where
    recorded :
        (is_blank t.interpretation || is_short t.interpretation) ≡ false
        → IsConcrete (updated p c r existing t)
    recorded e = record {
      written = ap is_blank (updated-interpretation p c r existing t) ∙ ground arith;
      long = ap is_short (updated-interpretation p c r existing t) ∙ ground arith;
    }

-- What a ThesesProvider promises: it answers.
pub record IsProvider (provider : ThesesProvider) : Type 0 where
  pub answers : (id : Text) → is_some (provider id) ≡ true

pub update_thesis-AllConcrete :
    (p : Platform) (crystallizer : Option ThesisCrystallizer) (provider : ThesesProvider)
    (c : PipelineContext) (r : Research)
    → IsProvider provider
    → AllConcrete c
    → (next : PipelineContext) × (update_thesis p crystallizer provider c r ≡ returned next tt)
      × AllConcrete next
unfolding update_thesis
update_thesis-AllConcrete p crystallizer provider c r q h =
    elim (Option-cases (provider r.entity_ref.id)) [
      | inl e ↦ absurd (cc (e, q.answers r.entity_ref.id))
      | inr (existing, e) ↦ elim (Option-cases (crystallized crystallizer r existing)) [
        | inl k ↦ (c, rw (update_thesis, e, k) refl, h)
        | inr (t, k) ↦ (
          file_thesis p c r existing t,
          rw (update_thesis, e, k) refl,
          file_thesis-AllConcrete p c r existing t h,
        )
      ]
    ]

pub update_rest-AllConcrete :
    (p : Platform) (crystallizer : Option ThesisCrystallizer) (provider : ThesesProvider)
    → IsProvider provider
    → (rs : List Research) (c : PipelineContext) → AllConcrete c
    → (next : PipelineContext) × (for_each (update_thesis p crystallizer provider) c rs
        ≡ returned next tt)
      × AllConcrete next
unfolding for_each
update_rest-AllConcrete p crystallizer provider q [] c h = (c, refl, h)
update_rest-AllConcrete p crystallizer provider q (r ∷ rs) c h =
    let (mid, e, m) = update_thesis-AllConcrete p crystallizer provider c r q h in
    let (last, f, l) = update_rest-AllConcrete p crystallizer provider q rs mid m in
    (last, rw e f, l)
