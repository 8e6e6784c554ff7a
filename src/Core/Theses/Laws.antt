-- ===== src/Core/Theses/Laws.antt =====
-- What the methods of a Thesis do and keep.
use signalproject.Prelude.{
  ◌≡◌, ◌≢◌, ◌≤◌, false, length, ◌⊎◌, refl, sym, subst, ok-injective, inl, inr, Bool-cases, contains,
  true, List, [], ◌∷◌, ◌++◌, arith, Result, ok, err, is_ok, if◌then◌else◌, ◌==◌,
}
use mathlib.Core.List.{append-nil}
use signalproject.Prelude.Text.{Text, is_empty, codes, Text-eq}
use signalproject.Prelude.Dict.{lookup}
use signalproject.Core.Lifecycle.{Raised, lifecycle_error, can_transition, allowed_from}
use signalproject.Core.Lifecycle.Laws.{assert_transition-eq-can_transition}
use signalproject.Core.Lifecycle.Graphs.{thesis_lifecycle}
use signalproject.Core.Lifecycle.Statuses.{ThesisStatus, ThesisStatus-eq}
use signalproject.Core.Theses.{
  Thesis, ThesisEvolution, evolved_status, evolution_post_init, post_init, transition, evolve,
  mature, mark_superseded, supersede, supersede_with, retire, hold_with_open_question,
  add_supporting_research,
}

abbrev pub IsWellFormed : Thesis → Type 0
IsWellFormed t = post_init t ≡ ok t

-- A call of a method that changes a thesis, with what it is given. Thesis.supersede_with is not one: it
-- makes a new thesis.
pub data Method : Type 0 where
  evolving : (now interpretation : Text) (research : List Text) (by rationale : Text) → Method
  transitioning : (new_status : ThesisStatus) → Method
  maturing : Method
  superseding : (now by : Text) → Method
  retiring : Method
  holding : (question : Text) → Method
  supporting : (research_id : Text) → Method

abbrev pub call : Method → Thesis → Result (Raised ThesisStatus) Thesis
call (evolving now interpretation research by rationale) t =
    evolve now t interpretation research by rationale
call (transitioning new_status) t = transition t new_status
call maturing t = mature t
call (superseding now by) t = supersede now t by
call retiring t = retire t
call (holding question) t = hold_with_open_question t question
call (supporting research_id) t = add_supporting_research t research_id

-- What every method leaves alone, and what it only adds to.
pub record Keeps (t u : Thesis) : Type 0 where
  pub id : u.id ≡ t.id
  pub entity_ref : u.entity_ref ≡ t.entity_ref
  pub created_at : u.created_at ≡ t.created_at
  pub history :
      (added : List ThesisEvolution) × (u.evolution_history ≡ t.evolution_history ++ added)
  pub research :
      (added : List Text) × (u.supporting_research_ids ≡ t.supporting_research_ids ++ added)
  pub questions : (added : List Text) × (u.open_questions ≡ t.open_questions ++ added)

Keeps-status : (t : Thesis) (status : ThesisStatus) → Keeps t (record t { status = status })
Keeps-status t status = record {
  id = refl;
  entity_ref = refl;
  created_at = refl;
  history = ([], sym (append-nil _));
  research = ([], sym (append-nil _));
  questions = ([], sym (append-nil _));
}

post_init-eq-ok : (t : Thesis) {u : Thesis} → post_init t ≡ ok u → u ≡ t
unfolding post_init
post_init-eq-ok t h = ground arith

transition-eq-ok :
    (t : Thesis) (target : ThesisStatus) {u : Thesis}
    → transition t target ≡ ok u
    → (can_transition thesis_lifecycle t.status target ≡ true) × (u ≡ record t { status = target })
unfolding transition post_init
transition-eq-ok t target h =
    ground (arith, assert_transition-eq-can_transition thesis_lifecycle t.status target)

-- The entry that `evolve` or `supersede` adds.
abbrev entry : Text → Text → Text → Thesis → Text → List Text → Text → ThesisEvolution
entry now by kind t interpretation research rationale = record {
  at = now;
  by = by;
  kind = kind;
  prior_interpretation = t.interpretation;
  new_interpretation = interpretation;
  contributing_research_ids = research;
  rationale = rationale;
}

evolve-eq-ok :
    (now : Text) (t : Thesis) (interpretation : Text) (research : List Text) (by rationale : Text)
    {u : Thesis}
    → evolve now t interpretation research by rationale ≡ ok u
    → u ≡ record t {
      interpretation = interpretation;
      status = evolved_status t.status;
      evolution_history =
          t.evolution_history
          ++ entry now by (codes "evolve") t interpretation research rationale ∷ [];
    }
unfolding evolve evolution_post_init post_init
evolve-eq-ok now t interpretation research by rationale h = ground arith

mark_superseded-eq-ok :
    (now : Text) (t : Thesis) (by : Text) {u : Thesis}
    → mark_superseded now t by ≡ ok u
    → (can_transition thesis_lifecycle t.status ThesisStatus.superseded ≡ true)
      × (u ≡ record t {
        status = ThesisStatus.superseded;
        evolution_history =
            t.evolution_history
            ++ entry now by (codes "supersede") t (codes "(superseded)") [] [] ∷ [];
      })
unfolding mark_superseded transition evolution_post_init post_init
mark_superseded-eq-ok now t by h =
    ground
      (arith, assert_transition-eq-can_transition thesis_lifecycle t.status ThesisStatus.superseded)

Keeps-history :
    (t : Thesis) (interpretation : Text) (status : ThesisStatus) (e : ThesisEvolution)
    → Keeps t (record t {
      interpretation = interpretation;
      status = status;
      evolution_history = t.evolution_history ++ e ∷ [];
    })
Keeps-history t interpretation status e = record {
  id = refl;
  entity_ref = refl;
  created_at = refl;
  history = (e ∷ [], refl);
  research = ([], sym (append-nil _));
  questions = ([], sym (append-nil _));
}

Keeps-self : (t : Thesis) → Keeps t t
Keeps-self t = Keeps-status t t.status

transition-Keeps :
    (t : Thesis) (target : ThesisStatus) {u : Thesis} → transition t target ≡ ok u → Keeps t u
transition-Keeps t target h =
    subst (Keeps t) (sym (transition-eq-ok t target h).1) (Keeps-status t target)

-- Every call of transition, evolve, mature, supersede, retire, hold_with_open_question or
-- add_supporting_research that succeeds keeps the thesis's id, its entity and its creation time, and
-- only appends to its evolution history, its supporting research and its open questions.
pub call-Keeps : (m : Method) (t : Thesis) {u : Thesis} → call m t ≡ ok u → Keeps t u
unfolding mature supersede retire hold_with_open_question add_supporting_research
call-Keeps (evolving now interpretation research by rationale) t h =
    subst (Keeps t) (sym (evolve-eq-ok now t interpretation research by rationale h))
      (Keeps-history t interpretation (evolved_status t.status) _)
call-Keeps (transitioning new_status) t h = transition-Keeps t new_status h
call-Keeps maturing t h = transition-Keeps t ThesisStatus.mature h
call-Keeps (superseding now by) t h = elim (Bool-cases (t.status == ThesisStatus.superseded)) [
  | inl e ↦ subst (Keeps t) (ok-injective (rw e at h)) (Keeps-self t)
  | inr e ↦
      subst (Keeps t) (sym (mark_superseded-eq-ok now t by (rw e at h)).1)
        (Keeps-history t t.interpretation ThesisStatus.superseded _)
]
call-Keeps retiring t h = elim (Bool-cases (t.status == ThesisStatus.retired)) [
  | inl e ↦ subst (Keeps t) (ok-injective (rw e at h)) (Keeps-self t)
  | inr e ↦ transition-Keeps t ThesisStatus.retired (rw e at h)
]
call-Keeps (holding question) t h = subst (Keeps t) (sym (post_init-eq-ok _ h)) (record {
  id = refl;
  entity_ref = refl;
  created_at = refl;
  history = ([], sym (append-nil _));
  research = ([], sym (append-nil _));
  questions = (question ∷ [], refl);
})
call-Keeps (supporting research_id) t h =
    elim (Bool-cases (contains t.supporting_research_ids research_id)) [
      | inl e ↦ subst (Keeps t) (ok-injective (rw e at h)) (Keeps-self t)
      | inr e ↦ subst (Keeps t) (sym (post_init-eq-ok _ (rw e at h))) (record {
        id = refl;
        entity_ref = refl;
        created_at = refl;
        history = ([], sym (append-nil _));
        research = (research_id ∷ [], refl);
        questions = ([], sym (append-nil _));
      })
    ]

no_way_out :
    (status target : ThesisStatus)
    → (status ≡ ThesisStatus.superseded) ⊎ (status ≡ ThesisStatus.retired)
    → can_transition thesis_lifecycle status target ≢ true
unfolding can_transition
no_way_out status target over h = ground arith

-- Superseded and retired theses stay so: no call of transition, evolve, mature, supersede, retire,
-- hold_with_open_question or add_supporting_research that succeeds changes their status.
pub call-terminal :
    (m : Method) (t : Thesis) {u : Thesis}
    → (t.status ≡ ThesisStatus.superseded) ⊎ (t.status ≡ ThesisStatus.retired)
    → call m t ≡ ok u
    → u.status ≡ t.status
unfolding mature supersede retire hold_with_open_question add_supporting_research post_init
    can_transition
call-terminal (evolving now interpretation research by rationale) t over h =
    ground (arith, evolve-eq-ok now t interpretation research by rationale h)
call-terminal (transitioning new_status) t over h =
    absurd (no_way_out t.status new_status over ((transition-eq-ok t new_status h).0))
call-terminal maturing t over h = ground (arith, transition-eq-ok t ThesisStatus.mature h)
call-terminal (superseding now by) t over h =
    elim (Bool-cases (t.status == ThesisStatus.superseded)) [
      | inl e ↦ ground arith
      | inr e ↦ ground (arith, mark_superseded-eq-ok now t by (rw e at h))
    ]
call-terminal retiring t over h = elim (Bool-cases (t.status == ThesisStatus.retired)) [
  | inl e ↦ ground arith
  | inr e ↦ ground (arith, transition-eq-ok t ThesisStatus.retired (rw e at h))
]
call-terminal (holding question) t over h = ground arith
call-terminal (supporting research_id) t over h = ground arith

-- `retire` on every branch, for a thesis that its validation accepts: a retired thesis comes back
-- unchanged; one whose status allows it changes its status and nothing else, so its history does not
-- show the retirement; any other one raises the LifecycleError.
pub retire_lem :
    (t : Thesis)
    → IsWellFormed t
    → retire t ≡ (
        if t.status == ThesisStatus.retired
        then ok t
        else if can_transition thesis_lifecycle t.status ThesisStatus.retired
        then ok (record t { status = ThesisStatus.retired })
        else err (
            lifecycle_error t.status ThesisStatus.retired
              (allowed_from (lookup t.status thesis_lifecycle))))
unfolding retire transition post_init
retire_lem t h =
    ground
      (arith, assert_transition-eq-can_transition thesis_lifecycle t.status ThesisStatus.retired)

-- What `supersede` leaves behind.
pub supersede-superseded :
    (now : Text) (t : Thesis) (by : Text) {u : Thesis}
    → supersede now t by ≡ ok u
    → (u.status ≡ ThesisStatus.superseded) × (u.id ≡ t.id) × (u.interpretation ≡ t.interpretation)
unfolding supersede
supersede-superseded now t by h = elim (Bool-cases (t.status == ThesisStatus.superseded)) [
  | inl e ↦ ground arith
  | inr e ↦ ground (arith, mark_superseded-eq-ok now t by (rw e at h))
]

-- What `supersede_with` makes.
pub supersede_with-eq-ok :
    (now created_at fresh_id : Text) (t : Thesis) (interpretation by prior_id : Text) {u : Thesis}
    → supersede_with now created_at fresh_id t interpretation by prior_id ≡ ok u
    → (u.status ≡ ThesisStatus.emerging)
      × (u.id ≡ fresh_id)
      × (u.interpretation ≡ interpretation)
      × (u.entity_ref ≡ t.entity_ref)
unfolding supersede_with evolution_post_init post_init
supersede_with-eq-ok now created_at fresh_id t interpretation by prior_id h = ground arith

pub supersede_with_total :
    (now created_at fresh_id : Text) (t : Thesis) (interpretation by prior_id : Text)
    → is_empty interpretation ≡ false
    → length interpretation ≤ 2000
    → is_empty by ≡ false
    → is_empty now ≡ false
    → is_empty fresh_id ≡ false
    → is_ok (supersede_with now created_at fresh_id t interpretation by prior_id) ≡ true
unfolding supersede_with evolution_post_init post_init
supersede_with_total now created_at fresh_id t interpretation by prior_id i l b n f = ground arith

pub supersede_total :
    (now : Text) (t : Thesis) (by : Text)
    → IsWellFormed t
    → t.status ≢ ThesisStatus.retired
    → is_empty by ≡ false
    → is_empty now ≡ false
    → is_ok (supersede now t by) ≡ true
unfolding supersede mark_superseded evolution_post_init transition post_init can_transition
supersede_total now t by w live b n =
    ground
      (arith, assert_transition-eq-can_transition thesis_lifecycle t.status ThesisStatus.superseded)
