-- ===== src/Workflow/Laws/Postponing.antt =====
-- Stage 6 moves the theses that it cannot integrate to the pending ones, and loses none.
use mathlib.Core.List.{append_assoc, append-nil}
use signalproject.Prelude.{
  ◌≡◌, refl, sym, ap, ◌∙◌, Bool, true, false, not, List, [], ◌∷◌, ◌++◌, keep, keep_in, keep_out,
  not_of_true, not_of_false, remove_behind, remove, All, All-append, some, Option, Bool-cases, inl,
  inr,
}
use signalproject.Core.Lifecycle.Statuses.{ThesisStatus-eq}
use signalproject.Core.Theses.{Thesis}
use signalproject.Workflow.Equality.{Thesis-eq}
use signalproject.Workflow.Context.{PipelineContext}
use signalproject.Workflow.Stages.{KnowledgeIntegrator, Ran, returned, and_then, for_each}
use signalproject.Workflow.Stages.Integration.{
  is_postponed, postpone, integrate_thesis, integrate_all,
}

module _ (integrator : Option KnowledgeIntegrator) where
  abbrev postponed : Thesis → Bool
  postponed t = is_postponed integrator t

  abbrev pub integrated : Thesis → Bool
  integrated t = not (is_postponed integrator t)

  -- The context behind the loop
  abbrev pub sorted : PipelineContext → PipelineContext
  sorted context = record context {
    theses = keep integrated context.theses;
    theses_pending = context.theses_pending ++ keep (is_postponed integrator) context.theses;
  }

  step_in :
      (t : Thesis) (context : PipelineContext)
      → is_postponed integrator t ≡ false
      → integrate_thesis integrator context t ≡ returned context tt
  unfolding integrate_thesis
  step_in t context h = rw h refl

  postpone_lem :
      (t : Thesis) (context : PipelineContext) (rest : List Thesis)
      → remove t context.theses ≡ some rest
      → postpone context t
        ≡ returned
            (record context { theses = rest; theses_pending = context.theses_pending ++ t ∷ [] })
            tt
  unfolding postpone
  postpone_lem t context rest h = rw (postpone, h) refl

  step_out :
      (t : Thesis) (context : PipelineContext) (kept rest : List Thesis)
      → context.theses ≡ kept ++ t ∷ rest
      → All (λ x. is_postponed integrator x ≡ false) kept
      → is_postponed integrator t ≡ true
      → integrate_thesis integrator context t
        ≡ returned
            (record context {
              theses = kept ++ rest;
              theses_pending = context.theses_pending ++ t ∷ [];
            })
            tt
  unfolding integrate_thesis
  step_out t context kept rest at h q = rw q (
      postpone_lem t context (kept ++ rest)
        (ap (remove t) at ∙ remove_behind (is_postponed integrator) t kept rest h q))

  integrate_rest :
      (kept rest : List Thesis) (context : PipelineContext)
      → context.theses ≡ kept ++ rest
      → All (λ x. is_postponed integrator x ≡ false) kept
      → for_each (integrate_thesis integrator) context rest
        ≡ returned
            (record context {
              theses = kept ++ keep integrated rest;
              theses_pending = context.theses_pending ++ keep (is_postponed integrator) rest;
            })
            tt
  unfolding for_each
  integrate_rest kept [] context at h = rw (sym at, append-nil context.theses_pending) refl
  integrate_rest kept (t ∷ rest) context at h = elim (Bool-cases (is_postponed integrator t)) [
    | inl q ↦
        rw
          (
            keep_in (is_postponed integrator) t rest q,
            keep_out integrated t rest (not_of_true (postponed t) q),
          )
          (ap
              (λ (r : Ran (Unit {0})).
                and_then r (λ next done. for_each (integrate_thesis integrator) next rest))
              (step_out t context kept rest at h q)
            ∙ integrate_rest kept rest
                (record context {
                  theses = kept ++ rest;
                  theses_pending = context.theses_pending ++ t ∷ [];
                })
                refl h
            ∙ ap
                (λ (ts : List Thesis).
                  returned
                    (record context { theses = kept ++ keep integrated rest; theses_pending = ts })
                    tt)
                (append_assoc context.theses_pending (t ∷ [])
                  (keep (is_postponed integrator) rest)))
    | inr q ↦
        rw
          (
            keep_out (is_postponed integrator) t rest q,
            keep_in integrated t rest (not_of_false (postponed t) q),
          )
          (ap
              (λ (r : Ran (Unit {0})).
                and_then r (λ next done. for_each (integrate_thesis integrator) next rest))
              (step_in t context q)
            ∙ integrate_rest (kept ++ t ∷ []) rest context
                (at ∙ sym (append_assoc kept (t ∷ []) rest))
                (All-append (λ (x : Thesis). is_postponed integrator x ≡ false) kept (t ∷ []) h
                  (q, tt))
            ∙ ap
                (λ (ts : List Thesis).
                  returned
                    (record context {
                      theses = ts;
                      theses_pending =
                          context.theses_pending ++ keep (is_postponed integrator) rest;
                    })
                    tt)
                (append_assoc kept (t ∷ []) (keep integrated rest)))
  ]

  pub integrate_all_lem :
      (context : PipelineContext) → integrate_all integrator context ≡ returned (sorted context) tt
  unfolding integrate_all
  integrate_all_lem context = integrate_rest [] context.theses context refl tt
