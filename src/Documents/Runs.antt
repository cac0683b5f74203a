-- ===== src/Documents/Runs.antt =====
-- The runs of the task on one document that Celery makes: `task.retry` in
-- app/tasks/document_processing.py asks for the next one, with one more retry counted.
use rag_kb.Base.{
  ℕ, zero, suc, ◌+◌, ◌≤◌, ◌≡◌, ◌≢◌, refl, sym, ◌∙◌, ap, ◌⊎◌, inl, inr, List, ◌++◌, none, some,
  arith,
}
use rag_kb.Documents.{processing, ready, failed, ErrorMessage, Document, ChunkRow, get_by_id}
use rag_kb.Documents.Processing.{
  Task, Stores, VectorPoint, Ending, finished, retry, uncaught, process_document,
}
use rag_kb.Documents.Lifecycle.{Left, AskedAgain, process_document-ends}

module _ {Content Vector : Type 0} (env : ℕ → Task Content Vector) (i : ℕ) where
  -- The runs from the one with `n` retries behind it: `env n` is what the calls of that run give.
  pub data Runs : ℕ → Stores Content Vector → Ending → Stores Content Vector → Type 0 where
    last :
        {n : ℕ} {w w' : Stores Content Vector} {ending : Ending}
        → process_document Content Vector (env n) i w ≡ (ending, w')
        → ending ≢ retry
        → Runs n w ending w'
    again :
        {n : ℕ} {w w1 w' : Stores Content Vector} {ending : Ending}
        → process_document Content Vector (env n) i w ≡ (retry, w1)
        → Runs (suc n) w1 ending w'
        → Runs n w ending w'

  abbrev pub number_of :
      {n : ℕ} {w w' : Stores Content Vector} {ending : Ending} → Runs n w ending w' → ℕ
  number_of (last done over) = 1
  number_of (again asked rest) = suc (number_of rest)

  -- How the document is left in the end: READY, with the rows and the points of one run; FAILED with
  -- a message, or PROCESSING behind an exception of an unknown class, with no row and no point.
  abbrev pub Settled : Document → Stores Content Vector → Ending → Stores Content Vector → Type 0
  Settled d w ending w' =
      ((rows : List ChunkRow) × (points : List (VectorPoint Vector)) × (ending ≡ finished)
        × (get_by_id i w'.documents ≡ some (record d { status = ready; error_message = none }))
        × (w'.chunks ≡ w.chunks ++ rows)
        × (w'.points ≡ w.points ++ points))
      ⊎ ((message : ErrorMessage) × (ending ≡ finished) × Left i d w w' failed (some message))
      ⊎ ((ending ≡ uncaught) × Left i d w w' processing none)

  abbrev pub Ended : ℕ → ℕ → Document → Stores Content Vector → Type 0
  Ended n bound d w =
      (ending : Ending) × (w' : Stores Content Vector) × (runs : Runs n w ending w') × (number_of
          runs
        ≤ bound)
      × Settled d w ending w'

  -- A run is the last one, unless it asks for the next.
  ends_run :
      (n bound : ℕ) (d : Document) (w : Stores Content Vector)
      → get_by_id i w.documents ≡ some d
      → 1 ≤ bound
      → (AskedAgain (env n) i d w (process_document Content Vector (env n) i w) → Ended n bound d w)
      → Ended n bound d w
  ends_run n bound d w found one next = elim (process_document-ends (env n) i d w found) [
    | inl (chunks, rows, points, fin, status, cut, some_there, shape, new_rows, new_points) ↦ (
      _,
      _,
      last refl (λ p. cc (sym fin ∙ p)),
      one,
      inl (rows, points, fin, status, new_rows, new_points),
    )
    | inr (inl (message, fin, left)) ↦
        (_, _, last refl (λ p. cc (sym fin ∙ p)), one, inr (inl (message, fin, left)))
    | inr (inr (inl asked)) ↦ next asked
    | inr (inr (inr (stuck, left))) ↦
        (_, _, last refl (λ p. cc (sym stuck ∙ p)), one, inr (inr (stuck, left)))
  ]

  -- What the runs behind the first one leave, for the stores that were there before it.
  Settled-before :
      (d : Document) (w w1 : Stores Content Vector) (ending : Ending) (w' : Stores Content Vector)
      → Left i d w w1 processing none
      → Settled (record d { status = processing; error_message = none }) w1 ending w'
      → Settled d w ending w'
  Settled-before d w w1 ending w' (found, rows_kept, points_kept) settled = elim settled [
    | inl (rows, points, fin, status, new_rows, new_points) ↦ inl (
      rows,
      points,
      fin,
      status,
      new_rows ∙ ap (λ l. l ++ rows) rows_kept,
      new_points ∙ ap (λ l. l ++ points) points_kept,
    )
    | inr (inl (message, fin, (status, rows, points))) ↦
        inr (inl (message, fin, (status, rows ∙ rows_kept, points ∙ points_kept)))
    | inr (inr (stuck, (status, rows, points))) ↦
        inr (inr (stuck, (status, rows ∙ rows_kept, points ∙ points_kept)))
  ]

  module _ (limit : ℕ) (counted : (n : ℕ) → (env n).retries ≡ n)
      (bounded : (n : ℕ) → (env n).max_retries ≡ limit) where
    ends_from :
        (k n : ℕ) (d : Document) (w : Stores Content Vector)
        → n + k ≡ limit
        → get_by_id i w.documents ≡ some d
        → Ended n (suc k) d w
    ends_from zero n d w e found =
        ends_run n 1 d w found (omega arith)
          (λ (asked, left, more). absurd (omega (arith, more, counted n, bounded n, e)))
    ends_from (suc k) n d w e found =
        ends_run n (suc (suc k)) d w found (omega arith) (λ (asked, left, more).
          go left.0
            (ends_from k (suc n) (record d { status = processing; error_message = none })
              (process_document Content Vector (env n) i w).1 (omega (arith, e)) left.0)
            asked left)
      where
        w1 : Stores Content Vector
        w1 = (process_document Content Vector (env n) i w).1

        go :
            get_by_id i w1.documents ≡ some (record d { status = processing; error_message = none })
            → Ended (suc n) (suc k) (record d { status = processing; error_message = none }) w1
            → (process_document Content Vector (env n) i w).0 ≡ retry
            → Left i d w w1 processing none
            → Ended n (suc (suc k)) d w
        go there (ending, w', runs, few, settled) asked left = (
          ending,
          w',
          again (ap (λ (x : Ending). (x, w1)) asked) runs,
          omega (arith, few),
          Settled-before d w w1 ending w' left settled,
        )

    -- However its calls fail, the task on a document comes to an end: after at most one run more than
    -- the limit of retries there is a last run, which does not ask for another, and it leaves the
    -- document READY with the rows and points of one run, FAILED with a message, or PROCESSING
    -- behind an exception of an unknown class, and in the last two cases with no new row or point.
    pub runs_end :
        (d : Document) (w : Stores Content Vector)
        → get_by_id i w.documents ≡ some d
        → Ended 0 (limit + 1) d w
    runs_end d w found =
        let (ending, w', runs, few, settled) = ends_from limit 0 d w (omega arith) found in
        (ending, w', runs, omega (arith, few), settled)
