-- ===== src/Conversations.antt =====
-- The tables of conversations and messages with their queries: app/models/{conversation,message}.py
-- and app/repositories/{conversation,message,chunk}_repository.py. The id of a
-- message, which only the HTTP interface shows, is left out.
pub mod Service
pub mod Sending
pub mod History
pub mod Access
pub mod Turns
pub mod Replies
pub mod Cached
pub mod Streams
pub mod Ownership
use rag_kb.Base.{
  ℕ, zero, suc, ◌-◌, String, Bool, not, ◌&&◌, List, [], ◌∷◌, ◌++◌, map, Option, none, some,
  if◌then◌else◌, ltb, length, drop, page, filterb, find_first,
}
use rag_kb.Base.Equality.{◌==◌, nat_eq}
use rag_kb.Base.Text.{Text}
use rag_kb.Documents.{ChunkRow}
use rag_kb.Documents.Service.{Stores as DocumentStores}
use rag_kb.Retrieval.{Bm25Document}
use rag_kb.Errors.{Outcome, returned, raised, uncaught}

pub record Conversation : Type 0 where
  pub id : ℕ
  pub knowledge_base_id : ℕ
  pub title : Option Text

pub data MessageRole : Type 0 where
  from_user from_assistant : MessageRole

pub record Message : Type 0 where
  pub conversation_id : ℕ
  pub role : MessageRole
  pub content : Text
  pub created_at : ℕ

-- What is cached of an answer.
pub record CachedResponse : Type 0 where
  pub content : Text
  pub sources : List Text

-- What a turn reads and writes: the stores of documents, the two tables, the state of Redis, and the
-- time of the transaction, which the database gives its rows.
pub record Stores (Cache : Type 0) : Type 0 where
  pub documents : DocumentStores
  pub conversations : List Conversation
  pub messages : List Message
  pub cache : Cache
  pub now : ℕ

-- A method of the service: what was written before an exception stays in the session.
abbrev pub Action : Type 0 → Type 0 → Type 0
Action Cache A = Stores Cache → Outcome A × Stores Cache

module _ {Cache A : Type 0} where
  abbrev pub pure : A → Action Cache A
  pure a w = (returned a, w)

  abbrev pub lift : Outcome A → Action Cache A
  lift o w = (o, w)

  abbrev pub gets : (Stores Cache → Outcome A) → Action Cache A
  gets f w = (f w, w)

abbrev pub continue :
    {Cache A B : Type 0}
    → Outcome A × Stores Cache
    → (A → Action Cache B)
    → Outcome B × Stores Cache
continue (returned a, w) f = f a w
continue (raised e, w) f = (raised e, w)
continue (uncaught, w) f = (uncaught, w)

infixl 5 ◌>>=◌
abbrev pub ◌>>=◌ : {Cache A B : Type 0} → Action Cache A → (A → Action Cache B) → Action Cache B
m >>= f = λ w. continue (m w) f

-- `messages[-limit:]`: the last ones, and all for the limit 0, since -0 is 0.
abbrev pub from_end {ℓ} : {A : Type ℓ} → ℕ → List A → List A
from_end zero xs = xs
from_end (suc n) xs = drop (length xs - suc n) xs

abbrev limited : Option ℕ → List Message → List Message
limited none rows = rows
limited (some limit) rows = if ltb limit (length rows) then from_end limit rows else rows

abbrev pub in_conversation : ℕ → List Message → List Message
in_conversation conversation_id = filterb (λ (m : Message). m.conversation_id == conversation_id)

-- `MessageRepository.list_for_conversation`, for the order in which the database gives rows by their
-- `created_at`; it may give rows of one time in any order.
unfoldable pub list_for_conversation :
    (List Message → List Message) → ℕ → Option ℕ → List Message → List Message
list_for_conversation ordered conversation_id limit rows =
    limited limit (ordered (in_conversation conversation_id rows))

-- `ConversationRepository.list_for_knowledge_base`
unfoldable pub list_for_knowledge_base : ℕ → ℕ → ℕ → List Conversation → List Conversation
list_for_knowledge_base kb_id limit offset rows =
    page limit offset (filterb (λ (c : Conversation). c.knowledge_base_id == kb_id) rows)

-- `count_for_knowledge_base`
unfoldable pub count_for_knowledge_base : ℕ → List Conversation → ℕ
count_for_knowledge_base kb_id rows =
    length (filterb (λ (c : Conversation). c.knowledge_base_id == kb_id) rows)

-- `get_for_knowledge_base`
unfoldable pub get_for_knowledge_base : ℕ → ℕ → List Conversation → Option Conversation
get_for_knowledge_base conversation_id kb_id =
    find_first (λ (c : Conversation). (c.id == conversation_id) && (c.knowledge_base_id == kb_id))

-- `update`, for a conversation whose fields have been set.
unfoldable pub update_conversation : Conversation → List Conversation → List Conversation
update_conversation c = map (λ (d : Conversation). if d.id == c.id then c else d)

-- `ChunkRepository.list_for_knowledge_base`
unfoldable pub chunks_for_knowledge_base : ℕ → List ChunkRow → List ChunkRow
chunks_for_knowledge_base kb_id = filterb (λ (c : ChunkRow). c.knowledge_base_id == kb_id)

-- The `BM25Document` of a row.
abbrev pub bm25_document : ChunkRow → Bm25Document
bm25_document c = record {
  chunk_id = c.id;
  document_id = c.document_id;
  chunk_index = c.chunk_index;
  text = c.text;
}
