-- ===== src/Conversations/Sending.antt =====
-- `send_message` and `send_message_streaming` of app/services/conversation_service.py, with the
-- private methods behind them, and the request around `send_message`. The stores behind a method are
-- those that its session sees; what a request keeps of them is `requested`.
use rag_kb.Base.{ℕ, Bool, ◌&&◌, List, [], ◌∷◌, map, Option, none, some, if◌then◌else◌, is_empty}
use rag_kb.Base.Equality.{nat_eq}
use rag_kb.Base.Text.{Text, codes, join}
use rag_kb.Base.Dict
use rag_kb.Base.Dict.{Dict}
use rag_kb.Base.Sets.{unique, sorted_set}
use rag_kb.Errors.{AppError, Outcome, returned, raised, uncaught, of_result, of_option}
use rag_kb.Cache
use rag_kb.Cache.{Redis, Json, build_key}
use rag_kb.Guardrails.{check_input, check_output}
use rag_kb.Documents.{Document, get_by_id}
use rag_kb.Documents.Service.{get_owned_or_404}
use rag_kb.Retrieval.{CompressedChunk}
use rag_kb.Retrieval.Pipeline.{stages}
use rag_kb.Prompts.{ChatMessage, ChunkWithSource, PromptResult, build}
use rag_kb.Conversations.{
  Conversation, from_user, from_assistant, Message, CachedResponse, Stores, Action, pure, lift,
  gets, continue, ◌>>=◌, list_for_conversation, chunks_for_knowledge_base, bm25_document,
}
use rag_kb.Conversations.Service.{
  ConversationService, checked_input, checked_output, chat_message, retitled, get_kb,
  get_conversation_or_404, create_message, set_title,
}

-- `_resolve_document_filenames`
unfoldable pub resolve_document_filenames : List ℕ → List Document → Dict ℕ Text
unfolding get_by_id Dict.insert
resolve_document_filenames [] docs = []
resolve_document_filenames (i ∷ ids) docs = elim (get_by_id i docs) [
  | none ↦ resolve_document_filenames ids docs
  | some d ↦ Dict.insert i d.original_filename (resolve_document_filenames ids docs)
]

abbrev pub with_filename : {S : Type 0} → Dict ℕ Text → CompressedChunk S → ChunkWithSource S
with_filename filenames c = record {
  chunk = c;
  source_filename = Dict.get_or c.document_id (codes "unknown document") filenames;
}

-- The chunks with the filenames of their documents.
unfoldable pub with_filenames :
    {S : Type 0} → List Document → List (CompressedChunk S) → List (ChunkWithSource S)
unfolding resolve_document_filenames unique Dict.get_or
with_filenames {S} docs compressed =
    let ids = unique (map (λ (c : CompressedChunk S). c.document_id) compressed) in
    map (with_filename (resolve_document_filenames ids docs)) compressed

-- A turn of a conversation, up to its answer.
pub record Turn : Type 0 where
  pub conversation : Conversation
  pub history : List ChatMessage
  pub user_message : Message

module _ (s : ConversationService) where
  abbrev pub State : Type 0
  State = s.redis.State

  abbrev pub Score : Type 0
  Score = s.pipeline.floats.F

  -- `_load_conversation_history`
  unfoldable pub load_conversation_history : ℕ → List Message → List ChatMessage
  unfolding list_for_conversation
  load_conversation_history conversation_id rows = map chat_message (
      list_for_conversation s.order_by_created_at conversation_id (some s.max_history_messages)
        rows)

  -- `_retrieve_context`
  unfoldable pub retrieve_context : ℕ → Text → Action State (List (ChunkWithSource Score))
  unfolding chunks_for_knowledge_base stages with_filenames
  retrieve_context kb_id query = do
    compressed ← gets (λ w.
        stages s.pipeline kb_id query
          (map bm25_document (chunks_for_knowledge_base kb_id w.documents.chunks)))
    gets (λ w. returned (with_filenames w.documents.documents compressed))

  abbrev pub response_key : ℕ → Text → Text
  response_key kb_id content = build_key s.sha (codes "rag_response") (s.id_text kb_id) content

  -- Whether there is a `cache_key`: only without a history.
  abbrev pub is_cached : List ChatMessage → Bool
  is_cached history = s.has_cache && is_empty history

  -- The read of the cache.
  abbrev pub cached_response : List ChatMessage → ℕ → Text → State → Option CachedResponse
  cached_response history kb_id content state =
      if is_cached history
      then Cache.get s.redis s.json s.cache_enabled (response_key kb_id content) state
      else none

  -- The write of the cache.
  abbrev pub cache_response : List ChatMessage → ℕ → Text → CachedResponse → Action State (Unit {0})
  cache_response history kb_id content response w = (
    returned tt,
    record w {
      cache =
          if is_cached history
          then Cache.set s.redis s.json s.cache_enabled (response_key kb_id content) response
              s.response_cache_ttl_seconds w.cache
          else w.cache;
    },
  )

  -- `cited_filenames`
  abbrev pub cited_filenames : List (ChunkWithSource Score) → List Text
  cited_filenames chunks =
      sorted_set (map (λ (item : ChunkWithSource Score). item.source_filename) chunks)

  -- The beginning of both ways to send a message: the guardrails, the knowledge base, the
  -- conversation, its history, the question and the title.
  unfoldable pub begin_turn : ℕ → ℕ → ℕ → Text → Action State Turn
  unfolding check_input get_owned_or_404 get_conversation_or_404 load_conversation_history retitled
  begin_turn conversation_id kb_id owner_id content = do
    allowed ← lift (checked_input s.guardrails content)
    kb ← get_kb kb_id owner_id
    conversation ← get_conversation_or_404 conversation_id kb_id
    history ← gets (λ w. returned (load_conversation_history conversation.id w.messages))
    user_message ← create_message conversation.id from_user content
    titled ← set_title conversation content
    pure (record { conversation = conversation; history = history; user_message = user_message })

  -- The end of both: the answer is stored, and cached.
  unfoldable pub end_turn :
      ℕ → Text → Turn → List (ChunkWithSource Score) → Text → Action State (Message × List Text)
  unfolding check_output Cache.set build_key sorted_set
  end_turn kb_id content t chunks answer = do
    let answer_text = checked_output s.guardrails answer
    let cited = cited_filenames chunks
    assistant_message ← create_message t.conversation.id from_assistant answer_text
    stored ←
        cache_response t.history kb_id content (record { content = answer_text; sources = cited })
    pure (assistant_message, cited)

  abbrev pub prompt_for : Turn → Text → List (ChunkWithSource Score) → Outcome PromptResult
  prompt_for t content chunks = of_option (build content chunks (some t.history))

  abbrev pub Reply : Type 0
  Reply = Message × Message × List Text

  -- `send_message`, behind the read of the cache.
  abbrev pub answer : ℕ → Text → Turn → Option CachedResponse → Action State Reply
  answer kb_id content t (some cached) = do
    assistant_message ← create_message t.conversation.id from_assistant cached.content
    pure (t.user_message, assistant_message, cached.sources)
  answer kb_id content t none = do
    chunks ← retrieve_context kb_id content
    prompt ← lift (prompt_for t content chunks)
    llm_response ← lift (of_result (s.chat prompt.messages))
    (assistant_message, cited) ← end_turn kb_id content t chunks llm_response.content
    pure (t.user_message, assistant_message, cited)

  -- `send_message`
  unfoldable pub send_message : ℕ → ℕ → ℕ → Text → Action State Reply
  unfolding begin_turn end_turn retrieve_context build Cache.get build_key
  send_message conversation_id kb_id owner_id content = do
    t ← begin_turn conversation_id kb_id owner_id content
    cached ← gets (λ w. returned (cached_response t.history kb_id content w.cache))
    answer kb_id content t cached

  -- The tables as they were, and the rest as it is.
  abbrev pub rolled_back : Stores State → Stores State → Stores State
  rolled_back w w' = record w' {
    documents = record w'.documents { tables = w.documents.tables };
    conversations = w.conversations;
    messages = w.messages;
  }

  abbrev pub settled :
      {A : Type 0} → Stores State → Outcome A × Stores State → Outcome A × Stores State
  settled w (returned a, w') = (returned a, w')
  settled w (raised e, w') = (raised e, rolled_back w w')
  settled w (uncaught, w') = (uncaught, rolled_back w w')

  -- `get_db_session` around a method: what it did is committed, or rolled back behind an exception.
  unfoldable pub requested : {A : Type 0} → Action State A → Action State A
  requested m w = settled w (m w)

  -- What a stream gives: the chunks that it yields, how it ends, and the stores.
  abbrev pub Streamed : Type 0
  Streamed = List Text × (Outcome (Unit {0}) × Stores State)

  abbrev pub finish_stream :
      ℕ
      → Text
      → Turn
      → List (ChunkWithSource Score)
      → List Text
      → Option AppError
      → Stores State
      → Streamed
  finish_stream kb_id content t chunks yielded (some e) w = (yielded, (raised e, w))
  finish_stream kb_id content t chunks yielded none w =
      (yielded, continue (end_turn kb_id content t chunks (join [] yielded) w) (λ _. pure tt))

  abbrev pub stream_prompt :
      ℕ
      → Text
      → Outcome (Turn × List (ChunkWithSource Score) × PromptResult) × Stores State
      → Streamed
  stream_prompt kb_id content (returned (t, chunks, prompt), w) =
      let stream = s.stream_chat prompt.messages in
      finish_stream kb_id content t chunks stream.chunks stream.failure w
  stream_prompt kb_id content (raised e, w) = ([], (raised e, w))
  stream_prompt kb_id content (uncaught, w) = ([], (uncaught, w))

  -- The context and the prompt of a turn.
  abbrev pub context_and_prompt :
      ℕ → Text → Turn → Action State (Turn × List (ChunkWithSource Score) × PromptResult)
  context_and_prompt kb_id content t = do
    chunks ← retrieve_context kb_id content
    prompt ← lift (prompt_for t content chunks)
    pure (t, chunks, prompt)

  -- The turn, its context and its prompt, before the first chunk of the stream.
  abbrev pub prepared :
      ℕ → ℕ → ℕ → Text → Action State (Turn × List (ChunkWithSource Score) × PromptResult)
  prepared conversation_id kb_id owner_id content = do
    t ← begin_turn conversation_id kb_id owner_id content
    context_and_prompt kb_id content t

  -- `send_message_streaming`, for a client that reads the stream to its end.
  unfoldable pub send_message_streaming : ℕ → ℕ → ℕ → Text → Stores State → Streamed
  unfolding begin_turn end_turn retrieve_context build
  send_message_streaming conversation_id kb_id owner_id content w =
      stream_prompt kb_id content (prepared conversation_id kb_id owner_id content w)
