-- ===== src/Tests/Files.antt =====
-- An upload, a run of the task, and a deletion.
use rag_kb.Base.{
  All, ℕ, if◌then◌else◌, ◌≤◌, ◌≡◌, refl, ◌⊎◌, true, false, not, ◌&&◌, [], ◌∷◌, ◌++◌, map, none,
  arith, ltb, length,
}
use rag_kb.Base.Equality.{◌==◌, elem, list_eq, nat_eq}
use rag_kb.Base.Text.{Text, codes}
use rag_kb.Errors.{Result, ok, err, validation, not_found}
use rag_kb.Documents.{Document, pending, Tables, get_by_id, connection}
use rag_kb.Documents.Service
use rag_kb.Documents.Service.{DocumentService, upload, get, delete, extract_extension}
use rag_kb.Documents.Ownership.{
  IsOwner, IsForeign, IsElsewhere, Deleted, upload_exact, delete_exact,
}
use rag_kb.Documents.Processing
use rag_kb.Documents.Processing.{
  Task, returned, raised, uncaught, process_document, retry_document_processing,
}
use rag_kb.Documents.Runs.{Ended, runs_end}
use rag_kb.Documents.Lifecycle.{Ready, Failed, AskedAgain, Stuck, process_document-ends}
use rag_kb.Tests.Inputs.{per_character}

abbrev document : Document
document = record {
  id = 7;
  knowledge_base_id = 2;
  original_filename = codes "notes.txt";
  file_extension = codes "txt";
  content_type = "text/plain";
  size_bytes = 5;
  storage_ref = "ref";
  status = pending;
  error_message = none;
}

abbrev tables : Tables
tables = record {
  knowledge_bases = record { id = 2; owner_id = 1; name = "kb"; description = none } ∷ [];
  documents = document ∷ [];
  chunks = [];
}

abbrev stores : Service.Stores
stores = record { tables = tables; files = []; queue = []; dropped = [] }

abbrev service : DocumentService
service = record {
  max_upload_size_bytes = 10;
  allowed_extensions = codes "txt" ∷ [];
  lower = λ t. t;
  storage_ref = λ a b c t. "ref";
  has_conversation_service = true;
}

abbrev new_file : Result Document × Service.Stores
new_file = upload service 8 2 1 (codes "a.txt") "text/plain" (codes "hello") stores

upload_exact_example :
    ((d : Document) × IsOwner 2 1 stores
      × (elem (extract_extension service.lower (codes "a.txt")) service.allowed_extensions ≡ true)
      × (length (codes "hello") ≤ 10)
      × (new_file.0 ≡ ok d)
      × (d.status ≡ pending)
      × (d.knowledge_base_id ≡ 2)
      × (new_file.1.documents ≡ stores.documents ++ d ∷ [])
      × (new_file.1.files ≡ stores.files ++ (d.storage_ref, codes "hello") ∷ [])
      × (new_file.1.queue ≡ stores.queue ++ 8 ∷ []))
    ⊎ (IsForeign 2 1 stores × (new_file ≡ (err not_found, stores)))
    ⊎ (IsOwner 2 1 stores
        × ((elem (extract_extension service.lower (codes "a.txt")) service.allowed_extensions
              && not (ltb 10 (length (codes "hello"))))
            ≡ false)
        × (new_file ≡ (err validation, stores)))
upload_exact_example =
    upload_exact service 8 2 1 (codes "a.txt") "text/plain" (codes "hello") stores

delete_exact_example :
    ((d : Document) × IsOwner 2 1 stores
      × (d.id ≡ 7)
      × (d.knowledge_base_id ≡ 2)
      × (get 7 2 1 stores ≡ ok d)
      × Deleted 7 9 stores (delete service 7 2 1 stores))
    ⊎ ((IsForeign 2 1 stores ⊎ All (IsElsewhere 7 2) stores.documents)
        × (delete service 7 2 1 stores ≡ (err not_found, stores)))
delete_exact_example = delete_exact service 7 9 2 1 stores (ground arith)

abbrev task : Task Text ℕ
task = record {
  read = λ r. returned (codes "hello");
  load = λ ext content. returned content;
  chunking_factory = record {
    default_chunk_size_tokens = 9;
    default_chunk_overlap_tokens = 4;
    token_counter = per_character;
  };
  embed_texts = λ texts. returned (record { vectors = map length texts; dimension = 1 });
  new_chunk_id = λ i. "chunk";
  upsert = λ kb points dimension. returned tt;
  retries = 0;
  max_retries = 3;
  message_of = λ e. "error";
}

abbrev index : Processing.Stores Text ℕ
index = record { tables = tables; points = [] }

process_document-ends_example :
    Ready task 7 document index (process_document Text ℕ task 7 index)
    ⊎ Failed 7 document index (process_document Text ℕ task 7 index)
    ⊎ AskedAgain task 7 document index (process_document Text ℕ task 7 index)
    ⊎ Stuck 7 document index (process_document Text ℕ task 7 index)
process_document-ends_example =
    process_document-ends task 7 document index (unfold get_by_id in refl)

-- The file storage cannot be reached in the first run.
abbrev runs_of : ℕ → Task Text ℕ
runs_of n = record task {
  read = λ r. if n == 0 then raised (connection "refused") else returned (codes "hello");
  retries = n;
  max_retries = 1;
}

runs_end_example : Ended runs_of 7 0 2 document index
runs_end_example =
    runs_end runs_of 7 1 (λ n. refl) (λ n. refl) document index (unfold get_by_id in refl)
