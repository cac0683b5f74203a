-- ===== src/Documents/Lifecycle.antt =====
-- How a run of the task leaves a document, its rows and its points.
use rag_kb.Base.{
  ℕ, ◌<◌, ◌≡◌, refl, sym, ap, ◌∙◌, ◌⊎◌, inl, inr, false, List, [], ◌∷◌, ◌++◌, Option, none, some,
  leb, is_empty, arith, Bool-cases,
}
use rag_kb.Errors.{err, validation}
use rag_kb.Chunking.{Chunk}
use rag_kb.Documents.{
  DocumentStatus, processing, ready, failed, Failure, ErrorMessage, no_content, text_of,
  after_retries, Document, ChunkRow, get_by_id, update_status, get_by_id-update_status,
}
use rag_kb.Documents.Processing.{
  Attempt, FailureKind, permanent, retryable, unrecognised, kind_of, returned, raised, Task, Stores,
  VectorPoint, Ending, finished, retry, uncaught, text_chunks, indexed, handle, process_document,
  retry_document_processing,
}
use rag_kb.Documents.Rows.{RowsOf, indexed-RowsOf}

kind-cases : (k : FailureKind) → (k ≡ permanent) ⊎ (k ≡ retryable) ⊎ (k ≡ unrecognised)
kind-cases permanent = inl refl
kind-cases retryable = inr (inl refl)
kind-cases unrecognised = inr (inr refl)

Attempt-cases :
    {A : Type 0} (m : Attempt A) → ((a : A) × (m ≡ returned a)) ⊎ ((e : Failure) × (m ≡ raised e))
Attempt-cases (returned a) = inl (a, refl)
Attempt-cases (raised e) = inr (e, refl)

module _ {Content Vector : Type 0} where
  -- What a run leaves of the document `d`: its status and message, and nothing else changed.
  abbrev pub Left :
      ℕ
      → Document
      → Stores Content Vector
      → Stores Content Vector
      → DocumentStatus
      → Option ErrorMessage
      → Type 0
  Left i d w w' status message =
      (get_by_id i w'.documents ≡ some (record d { status = status; error_message = message }))
      × (w'.chunks ≡ w.chunks)
      × (w'.points ≡ w.points)

  handle-ends :
      (t : Task Content Vector) (i : ℕ) (e : Failure) (d : Document) (w : Stores Content Vector)
      → get_by_id i w.documents ≡ some d
      → ((message : ErrorMessage) × ((handle Content Vector t i e w).0 ≡ finished)
          × Left i d w (handle Content Vector t i e w).1 failed (some message))
        ⊎ ((handle Content Vector t i e w ≡ (retry, w)) × (t.retries < t.max_retries))
        ⊎ ((handle Content Vector t i e w ≡ (uncaught, w)) × (kind_of e ≡ unrecognised))
  unfolding handle
  handle-ends t i e d w h = elim (kind-cases (kind_of e)) [
    | inl kind ↦ inl (
      text_of e,
      rw kind,
      rw kind (get_by_id-update_status i failed (some (text_of e)) d w.documents h, refl, refl),
    )
    | inr (inl kind) ↦ elim (Bool-cases (leb t.max_retries t.retries)) [
      | inl last ↦ inl (
        after_retries t.retries e,
        rw kind (rw last),
        rw kind (
            rw last (
              get_by_id-update_status i failed (some (after_retries t.retries e)) d w.documents h,
              refl,
              refl,
            )),
      )
      | inr more ↦ inr (inl (rw kind (rw more), ground arith))
    ]
    | inr (inr kind) ↦ inr (inr (rw kind, kind))
  ]

  -- How a run of the task on the document `d` ends, as its outcome and the stores that it leaves.
  abbrev pub Ready :
      Task Content Vector
      → ℕ
      → Document
      → Stores Content Vector
      → Ending × Stores Content Vector
      → Type 0
  Ready t i d w (ending, w') =
      (chunks : List Chunk) × (rows : List ChunkRow) × (points : List (VectorPoint Vector))
      × (ending ≡ finished)
      × (get_by_id i w'.documents ≡ some (record d { status = ready; error_message = none }))
      × (text_chunks Content Vector t d ≡ returned chunks)
      × (is_empty chunks ≡ false)
      × RowsOf chunks rows points
      × (w'.chunks ≡ w.chunks ++ rows)
      × (w'.points ≡ w.points ++ points)

  abbrev pub Failed : ℕ → Document → Stores Content Vector → Ending × Stores Content Vector → Type 0
  Failed i d w (ending, w') =
      (message : ErrorMessage) × (ending ≡ finished) × Left i d w w' failed (some message)

  abbrev pub AskedAgain :
      Task Content Vector
      → ℕ
      → Document
      → Stores Content Vector
      → Ending × Stores Content Vector
      → Type 0
  AskedAgain t i d w (ending, w') =
      (ending ≡ retry) × Left i d w w' processing none × (t.retries < t.max_retries)

  abbrev pub Stuck : ℕ → Document → Stores Content Vector → Ending × Stores Content Vector → Type 0
  Stuck i d w (ending, w') = (ending ≡ uncaught) × Left i d w w' processing none

  -- The document as `PROCESSING`, which is committed before the work starts.
  abbrev started : ℕ → Stores Content Vector → Stores Content Vector
  started i w = record w {
    tables = record w.tables { documents = update_status i processing none w.documents };
  }

  handle-Failed :
      (t : Task Content Vector) (i : ℕ) (e : Failure) (d : Document) (w : Stores Content Vector)
      → get_by_id i w.documents ≡ some d
      → Failed i d w (handle Content Vector t i e (started i w))
        ⊎ AskedAgain t i d w (handle Content Vector t i e (started i w))
        ⊎ Stuck i d w (handle Content Vector t i e (started i w))
  handle-Failed t i e d w h =
      let now_processing = get_by_id-update_status i processing none d w.documents h in
      elim (handle-ends t i e (record d { status = processing; error_message = none }) (started i w)
        now_processing) [
          | inl failed_run ↦ inl failed_run
          | inr (inl (same, more)) ↦
              inr (inl (ap (λ p. p.0) same, rw same (now_processing, refl, refl), more))
          | inr (inr (same, _)) ↦
              inr (inr (ap (λ p. p.0) same, rw same (now_processing, refl, refl)))
        ]

  -- A run of the task on a document ends in one of four ways. It finishes with the document READY:
  -- then the text had chunks, and there is one new row for each chunk, in order and numbered from 0,
  -- and one new point for each row, with its id, number and text. It finishes with the document
  -- FAILED and a message, and no row and no point is added. It asks to be run again while retries are
  -- left, or an exception of an unknown class leaves it: then the document stays PROCESSING and no
  -- row and no point is added.
  pub process_document-ends :
      (t : Task Content Vector) (i : ℕ) (d : Document) (w : Stores Content Vector)
      → get_by_id i w.documents ≡ some d
      → Ready t i d w (process_document Content Vector t i w)
        ⊎ Failed i d w (process_document Content Vector t i w)
        ⊎ AskedAgain t i d w (process_document Content Vector t i w)
        ⊎ Stuck i d w (process_document Content Vector t i w)
  unfolding process_document
  process_document-ends t i d w h = elim (Attempt-cases (text_chunks Content Vector t d)) [
    | inr (e, raised_by) ↦ rw h (rw raised_by (inr (handle-Failed t i e d w h)))
    | inl ([], none_found) ↦ rw h (
        rw none_found (
          inr (
            inl (
              no_content,
              refl,
              (get_by_id-update_status i failed (some no_content) _ _ now_processing, refl, refl),
            ))))
    | inl (c ∷ cs, cut) ↦ elim (Attempt-cases (indexed Content Vector t d (c ∷ cs))) [
      | inr (e, raised_by) ↦ rw h (rw cut (rw raised_by (inr (handle-Failed t i e d w h))))
      | inl ((rows, points), done) ↦ rw h (
          rw cut (
            rw done (
              inl (
                c ∷ cs,
                rows,
                points,
                refl,
                get_by_id-update_status i ready none _ _ now_processing,
                refl,
                refl,
                indexed-RowsOf t d (c ∷ cs) rows points done,
                refl,
                refl,
              ))))
    ]
  ]
    where
      now_processing :
          get_by_id i (update_status i processing none w.documents)
          ≡ some (record d { status = processing; error_message = none })
      now_processing = get_by_id-update_status i processing none d w.documents h

-- A document whose processing an exception of an unknown class has stopped is refused by
-- `retry_document_processing`: it stays PROCESSING.
pub stuck_is_refused :
    {Content Vector : Type 0} (t : Task Content Vector) (i : ℕ) (d : Document)
    (w : Stores Content Vector)
    → get_by_id i w.documents ≡ some d
    → (process_document Content Vector t i w).0 ≡ uncaught
    → retry_document_processing i (process_document Content Vector t i w).1.documents
      ≡ (err validation, (process_document Content Vector t i w).1.documents)
stuck_is_refused {Content} {Vector} t i d w h e = elim (process_document-ends t i d w h) [
  | inl (_, _, _, fin, _, _, _, _, _, _) ↦ absurd (cc (sym fin ∙ e))
  | inr (inl (_, fin, _)) ↦ absurd (cc (sym fin ∙ e))
  | inr (inr (inl (again, _, _))) ↦ absurd (cc (sym again ∙ e))
  | inr (inr (inr (_, (found, _, _)))) ↦ unfold retry_document_processing in rw found
]
