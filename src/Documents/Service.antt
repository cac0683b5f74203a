-- ===== src/Documents/Service.antt =====
-- app/services/knowledge_base_service.py and app/services/document_service.py.
use rag_kb.Base.{
  ℕ, String, Bool, not, List, [], ◌∷◌, ◌++◌, map, Option, none, some, if◌then◌else◌, ltb, filterb,
  length, page,
}
use rag_kb.Base.Equality.{◌==◌, nat_eq, string_eq, list_eq, elem}
use rag_kb.Base.Text.{Text}
use rag_kb.Errors.{Result, ok, err, not_found, validation}
use rag_kb.Documents.{
  KnowledgeBase, Document, DocumentStatus, pending, Tables, get_for_user, get_for_knowledge_base,
}

-- The stores that a request writes: the tables, the saved files, the queue of the task, and the
-- knowledge bases whose cached responses were asked to be dropped.
pub record Stores : Type 0 where
  pub tables : Tables
  pub open tables use *
  pub files : List (String × Text)
  pub queue : List ℕ
  pub dropped : List ℕ

abbrev pub Action : Type 0 → Type 0
Action A = Stores → Result A × Stores

-- `KnowledgeBaseService._get_owned_or_404`, also `get`.
abbrev owned : Option KnowledgeBase → Result KnowledgeBase
owned none = err not_found
owned (some kb) = ok kb

unfoldable pub get_owned_or_404 : ℕ → ℕ → Stores → Result KnowledgeBase
unfolding get_for_user
get_owned_or_404 kb_id owner_id w = owned (get_for_user kb_id owner_id w.knowledge_bases)

-- `KnowledgeBaseRepository.list_for_user`
unfoldable pub list_for_user : ℕ → ℕ → ℕ → List KnowledgeBase → List KnowledgeBase
list_for_user owner_id limit offset rows =
    page limit offset (filterb (λ (k : KnowledgeBase). k.owner_id == owner_id) rows)

-- `count_for_user`
unfoldable pub count_for_user : ℕ → List KnowledgeBase → ℕ
count_for_user owner_id rows = length (filterb (λ (k : KnowledgeBase). k.owner_id == owner_id) rows)

-- `KnowledgeBaseService.list`
unfoldable pub list_kbs : ℕ → ℕ → ℕ → Stores → List KnowledgeBase × ℕ
unfolding list_for_user count_for_user
list_kbs owner_id limit offset w = (
  list_for_user owner_id limit offset w.knowledge_bases,
  count_for_user owner_id w.knowledge_bases,
)

-- `KnowledgeBaseService.create`
unfoldable pub create_kb : ℕ → ℕ → String → Option String → Action KnowledgeBase
create_kb new_id owner_id name description w =
    let kb : KnowledgeBase = record {
      id = new_id;
      owner_id = owner_id;
      name = name;
      description = description;
    } in
    (
      ok kb,
      record w { tables = record w.tables { knowledge_bases = w.knowledge_bases ++ kb ∷ [] } },
    )

abbrev or_old : Option String → String → String
or_old none old = old
or_old (some new) old = new

abbrev or_kept : Option String → Option String → Option String
or_kept none old = old
or_kept (some new) old = some new

abbrev changed :
    Option String → Option String → Stores → Result KnowledgeBase → Result KnowledgeBase × Stores
changed name description w (err e) = (err e, w)
changed name description w (ok kb) =
    let new : KnowledgeBase = record kb {
      name = or_old name kb.name;
      description = or_kept description kb.description;
    } in
    (
      ok new,
      record w {
        tables = record w.tables {
          knowledge_bases =
              map (λ (k : KnowledgeBase). if k.id == kb.id then new else k) w.knowledge_bases;
        };
      },
    )

-- `KnowledgeBaseService.update`
unfoldable pub update_kb : ℕ → ℕ → Option String → Option String → Action KnowledgeBase
unfolding get_owned_or_404
update_kb kb_id owner_id name description w =
    changed name description w (get_owned_or_404 kb_id owner_id w)

-- The rows that a knowledge base takes with it: `ondelete="CASCADE"`.
abbrev without_kb : ℕ → Tables → Tables
without_kb kb_id t = record {
  knowledge_bases = filterb (λ (k : KnowledgeBase). not (k.id == kb_id)) t.knowledge_bases;
  documents = filterb (λ (d : Document). not (d.knowledge_base_id == kb_id)) t.documents;
  chunks = filterb (λ (c : rag_kb.Documents.ChunkRow). not (c.knowledge_base_id == kb_id)) t.chunks;
}

abbrev removed_kb : Stores → Result KnowledgeBase → Result (Unit {0}) × Stores
removed_kb w (err e) = (err e, w)
removed_kb w (ok kb) = (ok tt, record w { tables = without_kb kb.id w.tables })

-- `KnowledgeBaseService.delete`
unfoldable pub delete_kb : ℕ → ℕ → Action (Unit {0})
unfolding get_owned_or_404
delete_kb kb_id owner_id w = removed_kb w (get_owned_or_404 kb_id owner_id w)

-- The last part of a text behind a character, if it has the character.
abbrev after_last : ℕ → Option Text → Text → Option Text
after_last c found [] = found
after_last c found (x ∷ xs) = if x == c then after_last c (some xs) xs else after_last c found xs

-- `_extract_extension`, with the `lower` of Python's strings.
unfoldable pub extract_extension : (Text → Text) → Text → Text
extract_extension lower filename = elim (after_last 46 none filename) [
  | none ↦ []
  | some ext ↦ lower ext
]

-- `DocumentService.__init__`, and the `lower` of strings.
pub record DocumentService : Type 0 where
  pub max_upload_size_bytes : ℕ
  pub allowed_extensions : List Text
  pub lower : Text → Text
  -- `FileStorage.save`: the reference that a path is saved under.
  pub storage_ref : ℕ → ℕ → ℕ → Text → String
  pub has_conversation_service : Bool

-- `invalidate_response_cache` is asked for, if there is a conversation service.
abbrev drop_cache : DocumentService → ℕ → Stores → Stores
drop_cache s kb_id w = record w {
  dropped = if s.has_conversation_service then w.dropped ++ kb_id ∷ [] else w.dropped;
}

abbrev pub new_document : DocumentService → ℕ → ℕ → ℕ → Text → String → Text → Document
new_document s new_id kb_id owner_id filename content_type content = record {
  id = new_id;
  knowledge_base_id = kb_id;
  original_filename = filename;
  file_extension = extract_extension s.lower filename;
  content_type = content_type;
  size_bytes = length content;
  storage_ref = s.storage_ref owner_id kb_id new_id filename;
  status = pending;
  error_message = none;
}

abbrev accepted : DocumentService → ℕ → Text → Document → Stores → Stores
accepted s kb_id content d w = drop_cache s kb_id (record {
  tables = record w.tables { documents = w.documents ++ d ∷ [] };
  files = w.files ++ (d.storage_ref, content) ∷ [];
  queue = w.queue ++ d.id ∷ [];
  dropped = w.dropped;
})

abbrev uploaded :
    DocumentService
    → ℕ
    → ℕ
    → ℕ
    → Text
    → String
    → Text
    → Stores
    → Result KnowledgeBase
    → Result Document × Stores
uploaded s new_id kb_id owner_id filename content_type content w (err e) = (err e, w)
uploaded s new_id kb_id owner_id filename content_type content w (ok kb) =
    let d = new_document s new_id kb_id owner_id filename content_type content in
    if not (elem d.file_extension s.allowed_extensions)
    then (err validation, w)
    else if ltb s.max_upload_size_bytes (length content)
    then (err validation, w)
    else (ok d, accepted s kb_id content d w)

-- `DocumentService.upload`
unfoldable pub upload : DocumentService → ℕ → ℕ → ℕ → Text → String → Text → Action Document
unfolding get_owned_or_404 extract_extension
upload s new_id kb_id owner_id filename content_type content w =
    uploaded s new_id kb_id owner_id filename content_type content w
      (get_owned_or_404 kb_id owner_id w)

-- `DocumentRepository.list_for_knowledge_base`
unfoldable pub documents_of : ℕ → ℕ → ℕ → List Document → List Document
documents_of kb_id limit offset rows =
    page limit offset (filterb (λ (d : Document). d.knowledge_base_id == kb_id) rows)

-- `DocumentRepository.count_for_knowledge_base`
unfoldable pub count_documents_of : ℕ → List Document → ℕ
count_documents_of kb_id rows =
    length (filterb (λ (d : Document). d.knowledge_base_id == kb_id) rows)

abbrev listed : ℕ → ℕ → ℕ → Stores → Result KnowledgeBase → Result (List Document × ℕ)
listed kb_id limit offset w (err e) = err e
listed kb_id limit offset w (ok kb) =
    ok (documents_of kb_id limit offset w.documents, count_documents_of kb_id w.documents)

-- `DocumentService.list`
unfoldable pub list_documents : ℕ → ℕ → ℕ → ℕ → Stores → Result (List Document × ℕ)
unfolding get_owned_or_404 documents_of count_documents_of
list_documents kb_id owner_id limit offset w =
    listed kb_id limit offset w (get_owned_or_404 kb_id owner_id w)

abbrev found_document : Option Document → Result Document
found_document none = err not_found
found_document (some d) = ok d

abbrev in_kb : ℕ → ℕ → Stores → Result KnowledgeBase → Result Document
in_kb document_id kb_id w (err e) = err e
in_kb document_id kb_id w (ok kb) =
    found_document (get_for_knowledge_base document_id kb_id w.documents)

-- `DocumentService.get`, with `_get_or_404`.
unfoldable pub get : ℕ → ℕ → ℕ → Stores → Result Document
unfolding get_owned_or_404 get_for_knowledge_base
get document_id kb_id owner_id w = in_kb document_id kb_id w (get_owned_or_404 kb_id owner_id w)

-- A document takes its chunk rows with it.
abbrev without_document : ℕ → Tables → Tables
without_document document_id t = record t {
  documents = filterb (λ (d : Document). not (d.id == document_id)) t.documents;
  chunks = filterb (λ (c : rag_kb.Documents.ChunkRow). not (c.document_id == document_id)) t.chunks;
}

abbrev removed : DocumentService → ℕ → Stores → Result Document → Result (Unit {0}) × Stores
removed s kb_id w (err e) = (err e, w)
removed s kb_id w (ok d) = (
  ok tt,
  drop_cache s kb_id (record {
    tables = without_document d.id w.tables;
    files = filterb (λ f. not (f.0 == d.storage_ref)) w.files;
    queue = w.queue;
    dropped = w.dropped;
  }),
)

-- `DocumentService.delete`
unfoldable pub delete : DocumentService → ℕ → ℕ → ℕ → Action (Unit {0})
unfolding get
delete s document_id kb_id owner_id w = removed s kb_id w (get document_id kb_id owner_id w)
