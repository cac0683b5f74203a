-- ===== src/Conversations/Replies.antt =====
-- `send_message`: what each way it can end writes.
use rag_kb.Base.{ℕ, ◌≡◌, refl, ◌⊎◌, inl, inr, List, [], ◌∷◌, ◌++◌, none, some, Option-cases}
use rag_kb.Base.Text.{Text}
use rag_kb.Errors.{AppError, ok, Outcome, returned, raised, uncaught}
use rag_kb.Prompts.{LlmResponse, ChunkWithSource}
use rag_kb.Conversations.{CachedResponse, Stores}
use rag_kb.Conversations.Service.{ConversationService, retitled}
use rag_kb.Conversations.Sending.{
  Turn, State, Score, begin_turn, retrieve_context, cached_response, cache_response, Reply,
  send_message, requested,
}
use rag_kb.Conversations.Turns.{
  prompt_of, user_row, assistant_row, asked, answered, response_of, answer-none-cases, Unanswered,
}

module _ (s : ConversationService) where
  -- A reply that is stored: the question and the answer are the two new messages, the title is set
  -- where there was none, and documents are left alone. The answer is the cached one, with its
  -- sources, and the cache is as before; or, where none is cached, it is what the model says to the
  -- prompt with the retrieved chunks, as the output guardrails leave it, with the sorted filenames of
  -- the chunks, and it is written to the cache, if there is no history.
  pub record Replied (kb_id : ℕ) (content : Text) (t : Turn) (w w' : Stores (State s)) (r : Reply s)
      : Type 0 where
    pub response : CachedResponse
    pub reply : r ≡ (
      t.user_message,
      assistant_row s w.now t.conversation.id response.content,
      response.sources,
    )
    pub messages :
        w'.messages
        ≡ (w.messages ++ user_row s w.now t.conversation.id content ∷ [])
          ++ assistant_row s w.now t.conversation.id response.content ∷ []
    pub title :
        w'.conversations ≡ retitled t.conversation content t.conversation.title w.conversations
    pub documents : w'.documents ≡ w.documents
    pub source :
        ((cached_response s t.history kb_id content w.cache ≡ some response) × (w'.cache ≡ w.cache))
        ⊎ ((cached_response s t.history kb_id content w.cache ≡ none)
            × ((chunks : List (ChunkWithSource (Score s))) × (said : LlmResponse)
                × ((retrieve_context s kb_id content (asked s t.conversation content w)).0
                    ≡ returned chunks)
                × (s.chat (prompt_of content chunks t).messages ≡ ok said)
                × (response ≡ response_of s chunks said.content)
                × (w'.cache ≡ (cache_response s t.history kb_id content response w).1.cache)))

  -- How a turn ends that has begun.
  abbrev pub EndsTurn : ℕ → ℕ → ℕ → Text → Turn → Stores (State s) → Type 0
  EndsTurn conversation_id kb_id owner_id content t w =
      ((o : Outcome (Reply s)) × (send_message s conversation_id kb_id owner_id content w
          ≡ (o, asked s t.conversation content w))
        × (cached_response s t.history kb_id content w.cache ≡ none)
        × Unanswered s kb_id content t (asked s t.conversation content w) o)
      ⊎ ((r : Reply s) × (w' : Stores (State s)) × (send_message s conversation_id kb_id owner_id
              content w
            ≡ (returned r, w'))
          × Replied kb_id content t w w' r)

  pub begun-EndsTurn :
      (conversation_id kb_id owner_id : ℕ) (content : Text) (t : Turn) (w : Stores (State s))
      → begin_turn s conversation_id kb_id owner_id content w
        ≡ (returned t, asked s t.conversation content w)
      → EndsTurn conversation_id kb_id owner_id content t w
  unfolding send_message
  begun-EndsTurn conversation_id kb_id owner_id content t w began =
      elim (Option-cases (cached_response s t.history kb_id content w.cache)) [
        | inr (response, hit) ↦ inr (
          (
            t.user_message,
            assistant_row s w.now t.conversation.id response.content,
            response.sources,
          ),
          record (asked s t.conversation content w) {
            messages =
                (w.messages ++ user_row s w.now t.conversation.id content ∷ [])
                ++ assistant_row s w.now t.conversation.id response.content ∷ [];
          },
          rw began (rw hit refl),
          record {
            response = response;
            reply = refl;
            messages = refl;
            title = refl;
            documents = refl;
            source = inl (hit, refl);
          },
        )
        | inl miss ↦ elim (answer-none-cases s kb_id content t (asked s t.conversation content w)) [
          | inl (o, ends, why) ↦ inl (o, rw began (rw miss ends), miss, why)
          | inr (chunks, said, found, spoke, ends) ↦
              let response = response_of s chunks said.content in
              inr (
                (
                  t.user_message,
                  assistant_row s w.now t.conversation.id response.content,
                  response.sources,
                ),
                answered s kb_id content t response (asked s t.conversation content w),
                rw began (rw miss ends),
                record {
                  response = response;
                  reply = refl;
                  messages = refl;
                  title = refl;
                  documents = refl;
                  source = inr (miss, (chunks, said, found, spoke, refl, refl));
                },
              )
        ]
      ]

  -- How the request of a turn ends that has begun: without a reply where none is cached and the
  -- retrieval or the model fails, with nothing changed; or with a reply that is stored.
  abbrev pub EndsRequest : ℕ → ℕ → ℕ → Text → Turn → Stores (State s) → Type 0
  EndsRequest conversation_id kb_id owner_id content t w =
      ((o : Outcome (Reply s)) × (requested s
            (send_message s conversation_id kb_id owner_id content) w
          ≡ (o, w))
        × (cached_response s t.history kb_id content w.cache ≡ none)
        × Unanswered s kb_id content t (asked s t.conversation content w) o)
      ⊎ ((r : Reply s) × (w' : Stores (State s)) × (requested s
              (send_message s conversation_id kb_id owner_id content) w
            ≡ (returned r, w'))
          × Replied kb_id content t w w' r)

  pub Unanswered-exception :
      (kb_id : ℕ) (content : Text) (t : Turn) (w : Stores (State s)) (o : Outcome (Reply s))
      → Unanswered s kb_id content t w o
      → ((e : AppError) × (o ≡ raised e)) ⊎ (o ≡ uncaught)
  Unanswered-exception kb_id content t w o (inl (e, _, same)) = inl (e, same)
  Unanswered-exception kb_id content t w o (inr (inl (_, same))) = inr same
  Unanswered-exception kb_id content t w o (inr (inr (_, e, _, _, same))) = inl (e, same)
