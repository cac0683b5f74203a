-- ===== src/Documents/Processing.antt =====
-- app/tasks/document_processing.py: one run of the task that turns an uploaded file into chunks, and
-- `retry_document_processing` of app/services/admin_service.py. Each commit writes the tables, a
-- rollback goes back to the last commit.
use rag_kb.Base.{
  ℕ, suc, String, Bool, true, false, List, [], ◌∷◌, ◌++◌, map, Option, none, some, if◌then◌else◌,
  leb, zip_strict,
}
use rag_kb.Base.Text.{Text}
use rag_kb.Errors.{AppError, Result, ok, err, not_found, validation, vector_store_error}
use rag_kb.Chunking.{Chunk}
use rag_kb.Chunking.Factory
use rag_kb.Chunking.Factory.{ChunkingFactory, Strategy, recursive}
use rag_kb.Documents.{
  DocumentStatus, pending, processing, ready, failed, Failure, app, connection, timeout, other,
  ErrorMessage, no_content, text_of, after_retries, Document, ChunkRow, Tables, get_by_id,
  update_document, update_status,
}

-- What a call into the outside returns or raises.
pub data Attempt {ℓ} (A : Type ℓ) : Type ℓ where
  returned : A → Attempt A
  raised : Failure → Attempt A

-- How a run ends: it returns, it asks Celery to run it again, or an exception leaves it.
pub data Ending : Type 0 where
  finished retry uncaught : Ending

-- Which `except` clause takes a failure: the permanent ones, also every other `AppException`; the
-- retryable ones; or none.
pub data FailureKind : Type 0 where
  permanent retryable unrecognised : FailureKind

abbrev pub kind_of : Failure → FailureKind
kind_of (app vector_store_error m) = retryable
kind_of (app _ m) = permanent
kind_of (connection m) = retryable
kind_of (timeout m) = retryable
kind_of (other m) = unrecognised

infixl 5 ◌>>=◌
abbrev pub ◌>>=◌ : {A B : Type 0} → Attempt A → (A → Attempt B) → Attempt B
returned a >>= f = f a
raised e >>= f = raised e

-- `zip(..., strict=True)`, with its `ValueError`.
abbrev pub zipped : {A B : Type 0} → List A → List B → Attempt (List (A × B))
zipped xs ys = elim (zip_strict xs ys) [
  | none ↦ raised (other "zip() argument 2 has another length")
  | some ps ↦ returned ps
]

module _ (Vector : Type 0) where
  pub record VectorPoint : Type 0 where
    pub chunk_id : String
    pub document_id : ℕ
    pub knowledge_base_id : ℕ
    pub chunk_index : ℕ
    pub text : Text
    pub vector : Vector

  pub record Embedded : Type 0 where
    pub vectors : List Vector
    pub dimension : ℕ

  -- The second loop: the points of the pairs of a row and its vector.
  unfoldable pub vector_points : Document → List (ChunkRow × Vector) → List VectorPoint
  vector_points d = map (λ (row, v). record {
    chunk_id = row.id;
    document_id = d.id;
    knowledge_base_id = d.knowledge_base_id;
    chunk_index = row.chunk_index;
    text = row.text;
    vector = v;
  })

module _ (Content Vector : Type 0) where
  -- What the task calls during one run: the file storage, the loader of an extension, the embedding
  -- service, the vector store; the ids that the database gives to new rows; and the message of a
  -- chunking error.
  pub record Task : Type 0 where
    pub read : String → Attempt Content
    pub load : Text → Content → Attempt Text
    pub chunking_factory : ChunkingFactory
    pub embed_texts : List Text → Attempt (Embedded Vector)
    pub new_chunk_id : ℕ → String
    pub upsert : ℕ → List (VectorPoint Vector) → ℕ → Attempt (Unit {0})
    pub retries : ℕ
    pub max_retries : ℕ
    pub message_of : AppError → String

  -- The tables, and the points that the vector store has taken, in order.
  pub record Stores : Type 0 where
    pub tables : Tables
    pub open tables use *
    pub points : List (VectorPoint Vector)

  abbrev lifted : {A : Type 0} → Task → Result A → Attempt A
  lifted t (ok a) = returned a
  lifted t (err e) = raised (app e (t.message_of e))

  -- The first loop: the rows of the pairs of a chunk and its vector, numbered from `i`.
  unfoldable pub chunk_rows : Task → Document → ℕ → List (Chunk × Vector) → List ChunkRow
  chunk_rows t d i [] = []
  chunk_rows t d i ((c, v) ∷ pairs) =
      record {
        id = t.new_chunk_id i;
        document_id = d.id;
        knowledge_base_id = d.knowledge_base_id;
        chunk_index = i;
        text = c.text;
      }
      ∷ chunk_rows t d (suc i) pairs

  -- The text of the file, cut into chunks.
  unfoldable pub text_chunks : Task → Document → Attempt (List Chunk)
  unfolding Factory.get_strategy Factory.chunk
  text_chunks t d = do
    content ← t.read d.storage_ref
    text ← t.load d.file_extension content
    chunker ← lifted t (Factory.get_strategy t.chunking_factory recursive none none)
    returned (Factory.chunk chunker text)

  -- The rest of the `try` block, for chunks that are there: the new rows and the points.
  unfoldable pub indexed :
      Task → Document → List Chunk → Attempt (List ChunkRow × List (VectorPoint Vector))
  unfolding chunk_rows vector_points
  indexed t d chunks = do
    embed_result ← t.embed_texts (map (λ (c : Chunk). c.text) chunks)
    pairs ← zipped chunks embed_result.vectors
    let rows = chunk_rows t d 0 pairs
    row_pairs ← zipped rows embed_result.vectors
    let points = vector_points Vector d row_pairs
    stored ← t.upsert d.knowledge_base_id points embed_result.dimension
    returned (rows, points)

  abbrev with_status : ℕ → DocumentStatus → Option ErrorMessage → Stores → Stores
  with_status i status message w = record w {
    tables = record w.tables { documents = update_status i status message w.documents };
  }

  -- `except _RETRYABLE_FAILURE_TYPES`
  abbrev give_up_or_retry : Task → ℕ → Failure → Stores → Ending × Stores
  give_up_or_retry t i e w =
      if leb t.max_retries t.retries
      then (finished, with_status i failed (some (after_retries t.retries e)) w)
      else (retry, w)

  abbrev by_kind : Task → ℕ → Failure → Stores → FailureKind → Ending × Stores
  by_kind t i e w permanent = (finished, with_status i failed (some (text_of e)) w)
  by_kind t i e w retryable = give_up_or_retry t i e w
  by_kind t i e w unrecognised = (uncaught, w)

  -- The `except` clauses.
  unfoldable pub handle : Task → ℕ → Failure → Stores → Ending × Stores
  unfolding update_status
  handle t i e w = by_kind t i e w (kind_of e)

  -- The end of the `try` block: rows, points and status.
  abbrev saved : ℕ → Stores → List ChunkRow × List (VectorPoint Vector) → Stores
  saved i w (rows, points) = record {
    tables = record w.tables {
      documents = update_status i ready none w.documents;
      chunks = w.chunks ++ rows;
    };
    points = w.points ++ points;
  }

  abbrev after_indexing :
      Task → ℕ → Stores → Attempt (List ChunkRow × List (VectorPoint Vector)) → Ending × Stores
  after_indexing t i w (returned done) = (finished, saved i w done)
  after_indexing t i w (raised e) = handle t i e w

  abbrev after_chunking : Task → Document → ℕ → Stores → Attempt (List Chunk) → Ending × Stores
  after_chunking t d i w (raised e) = handle t i e w
  after_chunking t d i w (returned []) = (finished, with_status i failed (some no_content) w)
  after_chunking t d i w (returned (c ∷ cs)) = after_indexing t i w (indexed t d (c ∷ cs))

  abbrev with_document : Task → ℕ → Stores → Option Document → Ending × Stores
  with_document t i w none = (finished, w)
  with_document t i w (some d) =
      after_chunking t d i (with_status i processing none w) (text_chunks t d)

  -- `_process_document_async`
  unfoldable pub process_document : Task → ℕ → Stores → Ending × Stores
  unfolding get_by_id update_status text_chunks indexed handle
  process_document t i w = with_document t i w (get_by_id i w.documents)

-- `AdminService.retry_document_processing`: the document that is sent to the task again, and the
-- table.
abbrev status_is_processing : DocumentStatus → Bool
status_is_processing processing = true
status_is_processing _ = false

abbrev retried : List Document → Option Document → Result Document × List Document
retried docs none = (err not_found, docs)
retried docs (some d) =
    let reset = record d { status = pending; error_message = none } in
    if status_is_processing d.status
    then (err validation, docs)
    else (ok reset, update_document reset docs)

unfoldable pub retry_document_processing : ℕ → List Document → Result Document × List Document
unfolding get_by_id update_document
retry_document_processing i docs = retried docs (get_by_id i docs)
