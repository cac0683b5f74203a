-- ===== src/Conversations/Streams.antt =====
-- `send_message_streaming` beside the request of `send_message`.
use rag_kb.Base.{◌≡◌, List, [], none, ◌⊎◌}
use rag_kb.Base.Text.{Text, join}
use rag_kb.Errors.{AppError, ok, Outcome, returned, raised, uncaught}
use rag_kb.Prompts.{LlmResponse, ChatMessage}
use rag_kb.Conversations.{Stores}
use rag_kb.Conversations.Service.{ConversationService}
use rag_kb.Conversations.Sending.{State, Reply, Streamed}

module _ (s : ConversationService) where
  -- The stream for some messages is complete and adds up to what `chat` says for them.
  abbrev pub Agrees : List ChatMessage → Type 0
  Agrees messages =
      (said : LlmResponse) × (s.chat messages ≡ ok said)
      × ((s.stream_chat messages).failure ≡ none)
      × (join [] (s.stream_chat messages).chunks ≡ said.content)

  -- Both ways end with an answer in the same stores; or both with the same exception, and the stores
  -- are those in front of the answer.
  abbrev pub EndAlike :
      Stores (State s) → Outcome (Reply s) × Stores (State s) → Streamed s → Type 0
  EndAlike w sent streamed =
      ((r : Reply s) × (w' : Stores (State s)) × (sent ≡ (returned r, w'))
        × (streamed.1 ≡ (returned tt, w')))
      ⊎ ((e : AppError) × (sent ≡ (raised e, w)) × (streamed.1 ≡ (raised e, w)))
      ⊎ ((sent ≡ (uncaught, w)) × (streamed.1 ≡ (uncaught, w)))
