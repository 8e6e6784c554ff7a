-- ===== src/Persistence/Lifecycle/Laws.antt =====
-- The supersession pair.
use signalproject.Prelude.{
  ◌≤◌, true, false, length, is_ok, ◌≡◌, ◌≢◌, arith, some, ok, if◌then◌else◌, ◌==◌, >>=-eq-ok,
  ok-injective, ap, ◌∙◌, sym,
}
use signalproject.Prelude.Text.{Text, Text-eq, is_empty}
use signalproject.Prelude.Dict.{lookup-insert}
use signalproject.Core.Lifecycle.Statuses.{ThesisStatus, ThesisStatus-eq}
use signalproject.Core.Theses
use signalproject.Core.Theses.{Thesis}
use signalproject.Core.Theses.Laws.{
  IsWellFormed, supersede-superseded, supersede_with-eq-ok, supersede_with_total, supersede_total,
}
use signalproject.Persistence.Store.{Store, get_thesis, put_thesis}
use signalproject.Persistence.Lifecycle.{supersede_thesis}

get-put_thesis :
    (s : Store) (x : Thesis) (k : Text)
    → get_thesis (put_thesis s x) k ≡ (if x.id == k then some x else get_thesis s k)
unfolding get_thesis put_thesis
get-put_thesis s x k = lookup-insert x.id k x s.theses

module _ (now created_at fresh_id later : Text) (store : Store) (prior : Thesis)
    (interpretation by : Text) where
  supersede_thesis-parts :
      {successor : Thesis} {after : Store}
      → supersede_thesis now created_at fresh_id later store prior interpretation by
        ≡ ok (successor, after)
      → (marked : Thesis) × (Theses.supersede_with now created_at fresh_id prior interpretation by
            prior.id
          ≡ ok successor)
        × (Theses.supersede later prior by ≡ ok marked)
        × (after ≡ put_thesis (put_thesis store marked) successor)
  unfolding supersede_thesis
  supersede_thesis-parts {successor} {after} h =
      let (s, made, rest) = >>=-eq-ok _ _ h in
      let (m, marked, done) = >>=-eq-ok _ _ rest in
      let same : ◌≡◌ {A = Thesis × Store} (s, put_thesis (put_thesis store m) s)
          (successor, after) =
        ok-injective done in
      (
        m,
        made ∙ ap (λ (p : Thesis × Store). ok p.0) same,
        marked,
        sym (ap (λ (p : Thesis × Store). p.1) same)
            ∙ ap (λ (p : Thesis × Store). put_thesis (put_thesis store m) p.0) same,
      )

  -- When `supersede_thesis` returns, the store reads the emerging successor with the new
  -- interpretation under its fresh id, the prior, superseded and with its own interpretation, under
  -- the prior's id (unless that is the fresh one), and every other thesis as before.
  pub supersede_thesis_pair :
      {successor : Thesis} {after : Store}
      → supersede_thesis now created_at fresh_id later store prior interpretation by
        ≡ ok (successor, after)
      → (successor.status ≡ ThesisStatus.emerging)
        × (successor.interpretation ≡ interpretation)
        × (marked : Thesis) × (marked.status ≡ ThesisStatus.superseded)
        × (marked.interpretation ≡ prior.interpretation)
        × ((k : Text)
            → get_thesis after k ≡ (
                if fresh_id == k
                then some successor
                else if prior.id == k
                then some marked
                else get_thesis store k))
  supersede_thesis_pair {successor} {after} h =
      let (m, made, marked, same) = supersede_thesis-parts h in
      let (emerging, id, text, _) =
        supersede_with-eq-ok now created_at fresh_id prior interpretation by prior.id made in
      let (over, m_id, m_text) = supersede-superseded later prior by marked in
      (
        emerging,
        text,
        m,
        over,
        m_text,
        λ k. ground (
          arith,
          same,
          id,
          m_id,
          get-put_thesis (put_thesis store m) successor k,
          get-put_thesis store m k,
        ),
      )

  -- `supersede_thesis` succeeds on a well-formed prior that is not retired, given an interpretation of
  -- 1 to 2000 characters and non-empty texts for `by`, the times and the fresh id.
  pub supersede_thesis_total :
      IsWellFormed prior
      → prior.status ≢ ThesisStatus.retired
      → is_empty interpretation ≡ false
      → length interpretation ≤ 2000
      → is_empty by ≡ false
      → is_empty now ≡ false
      → is_empty later ≡ false
      → is_empty fresh_id ≡ false
      → is_ok (supersede_thesis now created_at fresh_id later store prior interpretation by) ≡ true
  unfolding supersede_thesis
  supersede_thesis_total w live given short named n l f = ground (
    arith,
    supersede_with_total now created_at fresh_id prior interpretation by prior.id,
    supersede_total later prior by,
  )
