-- ===== src/Conversations/Service.antt =====
-- app/services/conversation_service.py.
use rag_kb.Base.{
  ℕ, Bool, not, List, [], ◌∷◌, ◌++◌, Option, none, some, if◌then◌else◌, ltb, length, take, filterb,
}
use rag_kb.Base.Equality.{◌==◌, nat_eq}
use rag_kb.Base.Text.{Text, codes}
use rag_kb.Errors.{Result, ok, err, not_found, Outcome, returned, raised, of_result}
use rag_kb.Cache.{Redis, Json}
use rag_kb.Llm.{Stream}
use rag_kb.Guardrails.{GuardrailService, check_input, check_output}
use rag_kb.Documents.{KnowledgeBase}
use rag_kb.Documents.Service.{get_owned_or_404}
use rag_kb.Retrieval.Pipeline.{Pipeline}
use rag_kb.Prompts
use rag_kb.Prompts.{ChatMessage, ChunkWithSource, PromptResult, LlmResponse, build}
use rag_kb.Conversations.{
  Conversation, MessageRole, from_user, from_assistant, Message, CachedResponse, Action, gets,
  ◌>>=◌, list_for_conversation, list_for_knowledge_base, count_for_knowledge_base,
  get_for_knowledge_base, update_conversation,
}

-- `ConversationService.__init__`: what it calls, and its settings.
pub record ConversationService : Type 1 where
  pub redis : Redis
  pub json : Json CachedResponse
  pub sha : Text → Text
  -- Whether there is a cache service, and whether that is enabled.
  pub has_cache : Bool
  pub cache_enabled : Bool
  pub response_cache_ttl_seconds : ℕ
  pub guardrails : Option GuardrailService
  pub pipeline : Pipeline
  pub chat : List ChatMessage → Result LlmResponse
  pub stream_chat : List ChatMessage → Stream
  pub max_history_messages : ℕ
  -- `str` of the id of a knowledge base.
  pub id_text : ℕ → Text
  -- `order_by(Message.created_at.asc())`
  pub order_by_created_at : List Message → List Message

abbrev pub unit_of : Result (Unit {0}) → Outcome (Unit {0})
unit_of (ok _) = returned tt
unit_of (err e) = raised e

abbrev pub checked_input : Option GuardrailService → Text → Outcome (Unit {0})
checked_input none content = returned tt
checked_input (some g) content = unit_of (check_input g content)

abbrev pub checked_output : Option GuardrailService → Text → Text
checked_output none text = text
checked_output (some g) text = check_output g text

abbrev pub found_conversation : Option Conversation → Outcome Conversation
found_conversation none = raised not_found
found_conversation (some c) = returned c

-- `role_map`
abbrev pub prompt_role : MessageRole → Prompts.MessageRole
prompt_role from_user = Prompts.MessageRole.user
prompt_role from_assistant = Prompts.MessageRole.assistant

abbrev pub chat_message : Message → ChatMessage
chat_message m = record { role = prompt_role m.role; content = m.content }

-- The title that the first question gives.
abbrev pub auto_title : Text → Text
auto_title content = take 60 content ++ (if ltb 60 (length content) then codes "..." else [])

-- The rows behind the question: the title is written, if there is none yet.
unfoldable pub retitled : Conversation → Text → Option Text → List Conversation → List Conversation
unfolding update_conversation
retitled c content none rows =
    update_conversation (record c { title = some (auto_title content) }) rows
retitled c content (some t) rows = rows

module _ {Cache : Type 0} where
  -- `kb_service.get`
  abbrev pub get_kb : ℕ → ℕ → Action Cache KnowledgeBase
  get_kb kb_id owner_id = gets (λ w. of_result (get_owned_or_404 kb_id owner_id w.documents))

  -- `_get_conversation_or_404`
  unfoldable pub get_conversation_or_404 : ℕ → ℕ → Action Cache Conversation
  unfolding get_for_knowledge_base
  get_conversation_or_404 conversation_id kb_id =
      gets (λ w. found_conversation (get_for_knowledge_base conversation_id kb_id w.conversations))

  -- `create_conversation`
  unfoldable pub create_conversation : ℕ → ℕ → ℕ → Option Text → Action Cache Conversation
  unfolding get_owned_or_404
  create_conversation new_id kb_id owner_id title = do
    kb ← get_kb kb_id owner_id
    let created : Conversation = record { id = new_id; knowledge_base_id = kb_id; title = title }
    λ w. (returned created, record w { conversations = w.conversations ++ created ∷ [] })

  -- `list_conversations`
  unfoldable pub list_conversations : ℕ → ℕ → ℕ → ℕ → Action Cache (List Conversation × ℕ)
  unfolding get_owned_or_404 list_for_knowledge_base count_for_knowledge_base
  list_conversations kb_id owner_id limit offset = do
    kb ← get_kb kb_id owner_id
    gets (λ w. returned (
      list_for_knowledge_base kb_id limit offset w.conversations,
      count_for_knowledge_base kb_id w.conversations,
    ))

  -- `get_conversation_with_messages`
  unfoldable pub get_conversation_with_messages :
      (List Message → List Message) → ℕ → ℕ → ℕ → Action Cache (Conversation × List Message)
  unfolding get_owned_or_404 get_conversation_or_404 list_for_conversation
  get_conversation_with_messages ordered conversation_id kb_id owner_id = do
    kb ← get_kb kb_id owner_id
    conversation ← get_conversation_or_404 conversation_id kb_id
    gets (λ w.
        returned (conversation, list_for_conversation ordered conversation.id none w.messages))

  -- The rows that a conversation takes with it: its messages.
  abbrev pub removed : Conversation → Action Cache (Unit {0})
  removed c w = (
    returned tt,
    record w {
      conversations = filterb (λ (d : Conversation). not (d.id == c.id)) w.conversations;
      messages = filterb (λ (m : Message). not (m.conversation_id == c.id)) w.messages;
    },
  )

  -- `delete_conversation`
  unfoldable pub delete_conversation : ℕ → ℕ → ℕ → Action Cache (Unit {0})
  unfolding get_owned_or_404 get_conversation_or_404
  delete_conversation conversation_id kb_id owner_id = do
    kb ← get_kb kb_id owner_id
    conversation ← get_conversation_or_404 conversation_id kb_id
    removed conversation

  -- `message_repo.create`
  abbrev pub create_message : ℕ → MessageRole → Text → Action Cache Message
  create_message conversation_id role content w =
      let m : Message = record {
        conversation_id = conversation_id;
        role = role;
        content = content;
        created_at = w.now;
      } in
      (returned m, record w { messages = w.messages ++ m ∷ [] })

  -- The title of a conversation that has none yet.
  abbrev pub set_title : Conversation → Text → Action Cache (Unit {0})
  set_title c content w =
      (returned tt, record w { conversations = retitled c content c.title w.conversations })
