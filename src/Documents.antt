-- ===== src/Documents.antt =====
-- The tables of knowledge bases, documents and chunks with their queries:
-- app/models/{knowledge_base,document,chunk}.py, app/repositories/base.py,
-- knowledge_base_repository.py and document_repository.py. Rows stand in the order of creation.
pub mod Service
pub mod Ownership
pub mod Processing
pub mod Rows
pub mod Lifecycle
pub mod Runs
use rag_kb.Base.{
  ℕ, ◌+◌, String, ◌≡◌, refl, Bool, true, false, not, ◌&&◌, List, [], ◌∷◌, ◌++◌, map, Option, none,
  some, if◌then◌else◌, find_first, filterb, arith, nat_beq_iff,
}
use rag_kb.Base.Equality.{◌==◌, nat_eq}
use rag_kb.Base.Text.{Text}
use rag_kb.Errors.{AppError}

pub record KnowledgeBase : Type 0 where
  pub id : ℕ
  pub owner_id : ℕ
  pub name : String
  pub description : Option String

pub data DocumentStatus : Type 0 where
  pending processing ready failed : DocumentStatus

-- What the code between `try` and the handlers of the task may raise, with its text.
pub data Failure : Type 0 where
  app : AppError → String → Failure
  connection timeout other : String → Failure

-- The texts that are written to `error_message`.
pub data ErrorMessage : Type 0 where
  no_content : ErrorMessage
  text_of : Failure → ErrorMessage
  after_retries : ℕ → Failure → ErrorMessage

pub record Document : Type 0 where
  pub id : ℕ
  pub knowledge_base_id : ℕ
  pub original_filename : Text
  pub file_extension : Text
  pub content_type : String
  pub size_bytes : ℕ
  pub storage_ref : String
  pub status : DocumentStatus
  pub error_message : Option ErrorMessage

-- A row of the table of chunks.
pub record ChunkRow : Type 0 where
  pub id : String
  pub document_id : ℕ
  pub knowledge_base_id : ℕ
  pub chunk_index : ℕ
  pub text : Text

pub record Tables : Type 0 where
  pub knowledge_bases : List KnowledgeBase
  pub documents : List Document
  pub chunks : List ChunkRow

-- `KnowledgeBaseRepository.get_for_user`
unfoldable pub get_for_user : ℕ → ℕ → List KnowledgeBase → Option KnowledgeBase
get_for_user kb_id owner_id =
    find_first (λ (kb : KnowledgeBase). (kb.id == kb_id) && (kb.owner_id == owner_id))

-- `get_by_id`
unfoldable pub get_by_id : ℕ → List Document → Option Document
get_by_id i = find_first (λ (d : Document). d.id == i)

-- `DocumentRepository.get_for_knowledge_base`
unfoldable pub get_for_knowledge_base : ℕ → ℕ → List Document → Option Document
get_for_knowledge_base document_id kb_id =
    find_first (λ (d : Document). (d.id == document_id) && (d.knowledge_base_id == kb_id))

-- `update`, for a document whose fields have been set.
unfoldable pub update_document : Document → List Document → List Document
update_document d = map (λ (e : Document). if e.id == d.id then d else e)

abbrev set_status :
    DocumentStatus → Option ErrorMessage → Option Document → List Document → List Document
set_status status message none docs = docs
set_status status message (some d) docs =
    update_document (record d { status = status; error_message = message }) docs

-- `update_status`
unfoldable pub update_status :
    ℕ → DocumentStatus → Option ErrorMessage → List Document → List Document
unfolding get_by_id update_document
update_status i status message docs = set_status status message (get_by_id i docs) docs

-- What is found after `update_status`.
pub get_by_id-update_status :
    (i : ℕ) (status : DocumentStatus) (message : Option ErrorMessage) (d : Document)
    (docs : List Document)
    → get_by_id i docs ≡ some d
    → get_by_id i (update_status i status message docs)
      ≡ some (record d { status = status; error_message = message })
unfolding get_by_id update_status update_document
get_by_id-update_status i status message d docs h = rw h (go docs h (found docs h))
  where
    found : (rows : List Document) → get_by_id i rows ≡ some d → d.id ≡ i
    found [] e = cc
    found (x ∷ rows) e = ground (arith, found rows, nat_beq_iff x.id i)

    go :
        (rows : List Document)
        → get_by_id i rows ≡ some d
        → d.id ≡ i
        → get_by_id i (update_document (record d { status = status; error_message = message }) rows)
          ≡ some (record d { status = status; error_message = message })
    go [] e same = cc
    go (x ∷ rows) e same = ground (arith, go rows, nat_beq_iff x.id i, nat_beq_iff x.id d.id)
