-- ===== src/Conversations/Turns.antt =====
-- The parts of a turn: how its beginning and its answer can end, and what each writes.
use rag_kb.Base.{
  ℕ, ◌≡◌, ◌≢◌, refl, ap, ◌∙◌, ◌⊎◌, inl, inr, List, [], ◌∷◌, ◌++◌, map, Option, none, some,
}
use rag_kb.Base.Text.{Text}
use rag_kb.Errors.{
  AppError, Result, Result-cases, ok, err, not_found, Outcome, Outcome-cases, returned, raised,
  uncaught,
}
use rag_kb.Guardrails.{check_input}
use rag_kb.Retrieval.Pipeline.{stages}
use rag_kb.Prompts.{
  LlmResponse, ChunkWithSource, PromptResult, prompt_messages, build_source_references,
}
use rag_kb.Prompts.Sources.{context_of, context_tokens, build_exact}
use rag_kb.Conversations.{
  Conversation, from_user, from_assistant, Message, CachedResponse, Stores, Action, pure, continue,
  get_for_knowledge_base, bm25_document, chunks_for_knowledge_base,
}
use rag_kb.Conversations.Access.{MaySee, MayNotSee, access-cases}
use rag_kb.Conversations.Service.{
  ConversationService, checked_input, checked_output, retitled, get_conversation_or_404,
}
use rag_kb.Conversations.Sending.{
  Turn, State, Score, load_conversation_history, begin_turn, retrieve_context, end_turn,
  cache_response, cited_filenames, with_filenames, answer, Reply,
}

-- The prompt that `build` gives.
abbrev pub prompt_of : {S : Type 0} → Text → List (ChunkWithSource S) → Turn → PromptResult
prompt_of content chunks t = record {
  messages = prompt_messages (context_of chunks) content t.history;
  sources = build_source_references chunks;
  total_context_tokens = context_tokens chunks;
}

module _ (s : ConversationService) where
  abbrev pub user_row : ℕ → ℕ → Text → Message
  user_row now conversation_id content = record {
    conversation_id = conversation_id;
    role = from_user;
    content = content;
    created_at = now;
  }

  abbrev pub assistant_row : ℕ → ℕ → Text → Message
  assistant_row now conversation_id content = record {
    conversation_id = conversation_id;
    role = from_assistant;
    content = content;
    created_at = now;
  }

  -- The stores behind the question.
  abbrev pub asked : Conversation → Text → Stores (State s) → Stores (State s)
  asked c content w = record w {
    conversations = retitled c content c.title w.conversations;
    messages = w.messages ++ user_row w.now c.id content ∷ [];
  }

  -- What makes a turn begin: the guardrails let the question pass, the knowledge base belongs to the
  -- user, and the conversation is one of it.
  pub record Begun (conversation_id kb_id owner_id : ℕ) (content : Text) (w : Stores (State s))
      (t : Turn) : Type 0 where
    pub allowed : checked_input s.guardrails content ≡ returned tt
    pub may_see : MaySee conversation_id kb_id owner_id w t.conversation
    pub history : t.history ≡ load_conversation_history s t.conversation.id w.messages
    pub question : t.user_message ≡ user_row w.now t.conversation.id content

  -- Why a turn does not begin: the guardrails block the question, or the conversation is none that
  -- the user may see.
  abbrev pub Refused : ℕ → ℕ → ℕ → Text → Stores (State s) → AppError → Type 0
  Refused conversation_id kb_id owner_id content w e =
      (checked_input s.guardrails content ≡ raised e)
      ⊎ ((e ≡ not_found) × MayNotSee conversation_id kb_id owner_id w)

  pub begin_turn-cases :
      (conversation_id kb_id owner_id : ℕ) (content : Text) (w : Stores (State s))
      → ((e : AppError) × Refused conversation_id kb_id owner_id content w e
          × (begin_turn s conversation_id kb_id owner_id content w ≡ (raised e, w)))
        ⊎ ((t : Turn) × (begin_turn s conversation_id kb_id owner_id content w
              ≡ (returned t, asked t.conversation content w))
            × Begun conversation_id kb_id owner_id content w t)
  unfolding begin_turn get_conversation_or_404
  begin_turn-cases conversation_id kb_id owner_id content w =
      elim (passes (checked_input s.guardrails content) (checked_input_cases s.guardrails)) [
        | inr (e, blocked) ↦ inl (e, inl blocked, rw blocked)
        | inl allowed ↦ elim (access-cases conversation_id kb_id owner_id w) [
          | inr (may_not, inl foreign) ↦
              inl (not_found, inr (refl, may_not), rw allowed (rw foreign))
          | inr (may_not, inr (kb, owned, missing)) ↦
              inl (not_found, inr (refl, may_not), rw allowed (rw owned (rw missing)))
          | inl (kb, c, owned, (owner, found, same, there)) ↦ inr (
            record {
              conversation = c;
              history = load_conversation_history s c.id w.messages;
              user_message = user_row w.now c.id content;
            },
            rw allowed (rw owned (rw found)),
            record {
              allowed = allowed;
              may_see = (owner, found, same, there);
              history = refl;
              question = refl;
            },
          )
        ]
      ]
    where
      passes :
          (o : Outcome (Unit {0}))
          → o ≢ uncaught
          → (o ≡ returned tt) ⊎ ((e : AppError) × (o ≡ raised e))
      passes (returned tt) h = inl refl
      passes (raised e) h = inr (e, refl)
      passes uncaught h = absurd (h refl)

      checked_input_cases :
          (g : Option rag_kb.Guardrails.GuardrailService) → checked_input g content ≢ uncaught
      checked_input_cases none = λ h. cc
      checked_input_cases (some g) = unit (check_input g content)
        where
          unit : (r : Result (Unit {0})) → rag_kb.Conversations.Service.unit_of r ≢ uncaught
          unit (ok _) = λ h. cc
          unit (err e) = λ h. cc

  pub retrieve_context-reads :
      (kb_id : ℕ) (query : Text) (w : Stores (State s))
      → (o : Outcome (List (ChunkWithSource (Score s)))) × (retrieve_context s kb_id query w
          ≡ (o, w))
  unfolding retrieve_context
  retrieve_context-reads kb_id query w =
      elim (Outcome-cases (
        stages s.pipeline kb_id query
          (map bm25_document (chunks_for_knowledge_base kb_id w.documents.chunks)))) [
            | inl (cs, done) ↦ (returned (with_filenames w.documents.documents cs), rw done refl)
            | inr (inl (e, failed)) ↦ (raised e, rw failed)
            | inr (inr broken) ↦ (uncaught, rw broken)
          ]

  -- The stores behind an answer: the row, and the write of the cache.
  abbrev pub answered : ℕ → Text → Turn → CachedResponse → Stores (State s) → Stores (State s)
  answered kb_id content t response w =
      (cache_response s t.history kb_id content response (record w {
        messages = w.messages ++ assistant_row w.now t.conversation.id response.content ∷ [];
      })).1

  -- What the model's answer becomes.
  abbrev pub response_of : List (ChunkWithSource (Score s)) → Text → CachedResponse
  response_of chunks text = record {
    content = checked_output s.guardrails text;
    sources = cited_filenames s chunks;
  }

  pub end_turn_lem :
      (kb_id : ℕ) (content : Text) (t : Turn) (chunks : List (ChunkWithSource (Score s)))
      (text : Text) (w : Stores (State s))
      → let response = response_of chunks text in
        end_turn s kb_id content t chunks text w ≡ (
          returned (assistant_row w.now t.conversation.id response.content, response.sources),
          answered kb_id content t response w,
        )
  unfolding end_turn
  end_turn_lem kb_id content t chunks text w = refl

  -- Why there is no answer: the retrieval fails, or the model does, and with which exception.
  abbrev pub Unanswered : ℕ → Text → Turn → Stores (State s) → Outcome (Reply s) → Type 0
  Unanswered kb_id content t w o =
      ((e : AppError) × ((retrieve_context s kb_id content w).0 ≡ raised e) × (o ≡ raised e))
      ⊎ (((retrieve_context s kb_id content w).0 ≡ uncaught) × (o ≡ uncaught))
      ⊎ ((chunks : List (ChunkWithSource (Score s))) × (e : AppError) × ((retrieve_context s kb_id
              content w).0
            ≡ returned chunks)
          × (s.chat (prompt_of content chunks t).messages ≡ err e)
          × (o ≡ raised e))

  -- How an answer that is not cached ends: it leaves the stores, or it is stored and cached.
  pub answer-none-cases :
      (kb_id : ℕ) (content : Text) (t : Turn) (w : Stores (State s))
      → ((o : Outcome (Reply s)) × (answer s kb_id content t none w ≡ (o, w))
          × Unanswered kb_id content t w o)
        ⊎ ((chunks : List (ChunkWithSource (Score s))) × (said : LlmResponse) × ((retrieve_context s
                kb_id content w).0
              ≡ returned chunks)
            × (s.chat (prompt_of content chunks t).messages ≡ ok said)
            × (answer s kb_id content t none w ≡ (
              returned (
                t.user_message,
                assistant_row w.now t.conversation.id (response_of chunks said.content).content,
                (response_of chunks said.content).sources,
              ),
              answered kb_id content t (response_of chunks said.content) w,
            )))
  answer-none-cases kb_id content t w =
      let (o, reads) = retrieve_context-reads kb_id content w in
      elim (Outcome-cases o) [
        | inr (inl (e, failed)) ↦
            inl (raised e, rw reads (rw failed refl), inl (e, outcome reads ∙ failed, refl))
        | inr (inr broken) ↦
            inl (uncaught, rw reads (rw broken refl), inr (inl (outcome reads ∙ broken, refl)))
        | inl (chunks, done) ↦ elim (Result-cases (s.chat (prompt_of content chunks t).messages)) [
          | inr (e, failed) ↦ inl (
            raised e,
            rw reads (rw done (rw (build_exact content chunks (some t.history)) (rw failed))),
            inr (inr (chunks, e, outcome reads ∙ done, failed, refl)),
          )
          | inl (response, said) ↦ inr (
            chunks,
            response,
            outcome reads ∙ done,
            said,
            rw reads (
                rw done (
                  rw (build_exact content chunks (some t.history))
                    (rw said (rw (end_turn_lem kb_id content t chunks response.content w) refl)))),
          )
        ]
      ]
    where
      outcome :
          {o : Outcome (List (ChunkWithSource (Score s)))}
          → retrieve_context s kb_id content w ≡ (o, w)
          → (retrieve_context s kb_id content w).0 ≡ o
      outcome reads =
          ap (λ (x : Outcome (List (ChunkWithSource (Score s))) × Stores (State s)). x.0) reads
