-- ===== src/Workflow/Laws/Retrieval.antt =====
-- S2-G4 moves the evidences that cannot be retrieved, and no other.
use mathlib.Core.List.{append_assoc}
use signalproject.Prelude.{
  keep_in, keep_out, not_of_true, not_of_false, ◌≡◌, refl, sym, ap, ◌∙◌, Bool, true, false, not,
  List, [], ◌∷◌, ◌++◌, keep, remove_behind, add_new, All, All-append, Bool-cases, inl, inr,
}
use signalproject.Core.Evidence.{Evidence}
use signalproject.Workflow.Equality.{Evidence-eq}
use signalproject.Workflow.Context.{PipelineContext}
use signalproject.Workflow.Gates.Early.{non_retrievable, exclude, exclude_all, s2_g4_validate}

abbrev pub is_retrievable : Evidence → Bool
is_retrievable e = e.retrievable

abbrev pub is_lost : Evidence → Bool
is_lost e = not e.retrievable

-- The loop's appends
abbrev pub add_lost : List Evidence → List Evidence → List Evidence
add_lost [] lost = lost
add_lost (e ∷ es) lost = add_lost es (add_new e lost)

exclude_head :
    (e : Evidence) (context : PipelineContext) (kept rest : List Evidence)
    → context.evidences ≡ kept ++ e ∷ rest
    → All (λ x. is_lost x ≡ false) kept
    → is_lost e ≡ true
    → exclude e context ≡ record context {
      evidences = kept ++ rest;
      non_retrievable_evidences = add_new e context.non_retrievable_evidences;
    }
unfolding exclude
exclude_head e context kept rest at h lost = rw (at, remove_behind is_lost e kept rest h lost) refl

pub exclude_all_lem :
    (kept rest : List Evidence) (context : PipelineContext)
    → context.evidences ≡ kept ++ rest
    → All (λ x. is_lost x ≡ false) kept
    → exclude_all (keep is_lost rest) context ≡ record context {
      evidences = kept ++ keep is_retrievable rest;
      non_retrievable_evidences = add_lost (keep is_lost rest) context.non_retrievable_evidences;
    }
unfolding exclude_all
exclude_all_lem kept [] context at h =
    ap (λ (es : List Evidence). record context { evidences = es }) at
exclude_all_lem kept (e ∷ rest) context at h = elim (Bool-cases (is_retrievable e)) [
  | inl r ↦
      rw
        (
          keep_in is_retrievable e rest r,
          keep_out is_lost e rest (not_of_true (is_retrievable e) r),
          sym (append_assoc kept (e ∷ []) (keep is_retrievable rest)),
        )
        (exclude_all_lem (kept ++ e ∷ []) rest context (at ∙ sym (append_assoc kept (e ∷ []) rest))
          (All-append (λ (x : Evidence). is_lost x ≡ false) kept (e ∷ []) h
            (not_of_true (is_retrievable e) r, tt)))
  | inr r ↦
      rw
        (
          keep_out is_retrievable e rest r,
          keep_in is_lost e rest (not_of_false (is_retrievable e) r),
        )
        (ap (exclude_all (keep is_lost rest))
            (exclude_head e context kept rest at h (not_of_false (is_retrievable e) r))
          ∙ exclude_all_lem kept rest
              (record context {
                evidences = kept ++ rest;
                non_retrievable_evidences = add_new e context.non_retrievable_evidences;
              })
              refl h)
]

-- What S2-G4 leaves: the evidences that can be retrieved, in their order; each of the others is
-- added to the non-retrievable ones unless it is there.
pub s2_g4_lem :
    (context : PipelineContext)
    → (s2_g4_validate context).0 ≡ record context {
      evidences = keep is_retrievable context.evidences;
      non_retrievable_evidences =
          add_lost (keep is_lost context.evidences) context.non_retrievable_evidences;
    }
unfolding s2_g4_validate non_retrievable
s2_g4_lem context = exclude_all_lem [] context.evidences context refl tt
