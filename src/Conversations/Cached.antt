-- ===== src/Conversations/Cached.antt =====
-- A question that is asked again, in a conversation without a history.
use rag_kb.Base.{ℕ, ◌≡◌, refl, ap, sym, ◌∙◌, ◌⊎◌, inl, inr, true, some, List}
use rag_kb.Base.Text.{Text}
use rag_kb.Cache.{IsRedis, get-set}
use rag_kb.Errors.{AppError, Outcome, returned, raised, uncaught}
use rag_kb.Conversations.{CachedResponse, Stores}
use rag_kb.Conversations.Service.{ConversationService}
use rag_kb.Conversations.Sending.{
  Turn, State, Reply, begin_turn, is_cached, cached_response, cache_response, response_key,
  send_message,
}
use rag_kb.Conversations.Turns.{assistant_row, asked}
use rag_kb.Conversations.Replies.{Replied, begun-EndsTurn, Unanswered-exception}

module _ (s : ConversationService) where
  -- What the cache gives for a question behind its answer.
  cached-again :
      (history later : List rag_kb.Prompts.ChatMessage) (kb_id : ℕ) (content : Text)
      (response : CachedResponse) (w : Stores (State s))
      → IsRedis s.redis
      → is_cached s history ≡ true
      → is_cached s later ≡ true
      → (cached_response s later kb_id content
            (cache_response s history kb_id content response w).1.cache
          ≡ some response)
        ⊎ ((cache_response s history kb_id content response w).1.cache ≡ w.cache)
  cached-again history later kb_id content response w laws h k = rw h (
      rw k (
        get-set s.redis s.json s.cache_enabled (response_key s kb_id content) response
          s.response_cache_ttl_seconds w.cache laws))

  second_reply :
      (conversation_id kb_id owner_id : ℕ) (content : Text) (w : Stores (State s)) (t : Turn)
      (response : CachedResponse)
      → begin_turn s conversation_id kb_id owner_id content w
        ≡ (returned t, asked s t.conversation content w)
      → cached_response s t.history kb_id content w.cache ≡ some response
      → (send_message s conversation_id kb_id owner_id content w).0
        ≡ returned (
          t.user_message,
          assistant_row s w.now t.conversation.id response.content,
          response.sources,
        )
  unfolding send_message
  second_reply conversation_id kb_id owner_id content w t response began hit =
      rw began (rw hit refl)

  -- A question is asked in a conversation without a history and gets a reply; then it is asked again
  -- in such a conversation of the knowledge base, by whichever user, and whatever has happened to all
  -- but the cache meanwhile. The second reply has the content
  -- and the sources of the first one, whatever the model would say now, unless the first turn has
  -- left the cache as it was.
  pub asked_again :
      (conversation_id later_id kb_id owner_id later_owner_id : ℕ) (content : Text)
      (w w' v : Stores (State s)) (t later : Turn) (first : Reply s)
      → IsRedis s.redis
      → begin_turn s conversation_id kb_id owner_id content w
        ≡ (returned t, asked s t.conversation content w)
      → is_cached s t.history ≡ true
      → send_message s conversation_id kb_id owner_id content w ≡ (returned first, w')
      → v.cache ≡ w'.cache
      → begin_turn s later_id kb_id later_owner_id content v
        ≡ (returned later, asked s later.conversation content v)
      → is_cached s later.history ≡ true
      → ((send_message s later_id kb_id later_owner_id content v).0
          ≡ returned (
            later.user_message,
            assistant_row s v.now later.conversation.id first.1.content,
            first.2,
          ))
        ⊎ (w'.cache ≡ w.cache)
  asked_again conversation_id later_id kb_id owner_id later_owner_id content w w' v t later first
        laws began h sent unchanged again k =
      elim (begun-EndsTurn s conversation_id kb_id owner_id content t w began) [
        | inl (o, ends, _, why) ↦ absurd (
            no_reply o (outcomes o _ (sym ends ∙ sent))
              (Unanswered-exception s kb_id content t (asked s t.conversation content w) o why))
        | inr (r, w2, ends, replied) ↦
            by_source r w2 (replies r w2 (sym ends ∙ sent)) (stores r w2 (sym ends ∙ sent)) replied
      ]
    where
      no_reply :
          (o : Outcome (Reply s))
          → o ≡ returned first
          → ((e : AppError) × (o ≡ raised e)) ⊎ (o ≡ uncaught)
          → ⊥
      no_reply o a (inl (e, b)) = cc
      no_reply o a (inr b) = cc

      outcomes :
          (o : Outcome (Reply s)) (w2 : Stores (State s))
          → ◌≡◌ {A = Outcome (Reply s) × Stores (State s)} (o, w2) (returned first, w')
          → o ≡ returned first
      outcomes o w2 e = ap (λ (x : Outcome (Reply s) × Stores (State s)). x.0) e

      replies :
          (r : Reply s) (w2 : Stores (State s))
          → ◌≡◌ {A = Outcome (Reply s) × Stores (State s)} (returned r, w2) (returned first, w')
          → r ≡ first
      replies r w2 e = cc

      stores :
          (r : Reply s) (w2 : Stores (State s))
          → ◌≡◌ {A = Outcome (Reply s) × Stores (State s)} (returned r, w2) (returned first, w')
          → w2 ≡ w'
      stores r w2 e = ap (λ (x : Outcome (Reply s) × Stores (State s)). x.1) e

      by_source :
          (r : Reply s) (w2 : Stores (State s))
          → r ≡ first
          → w2 ≡ w'
          → Replied s kb_id content t w w2 r
          → ((send_message s later_id kb_id later_owner_id content v).0
              ≡ returned (
                later.user_message,
                assistant_row s v.now later.conversation.id first.1.content,
                first.2,
              ))
            ⊎ (w'.cache ≡ w.cache)
      by_source r w2 same same_stores replied = elim replied.source [
        | inl (hit, kept) ↦ inr (ap (λ (x : Stores (State s)). x.cache) (sym same_stores) ∙ kept)
        | inr (miss, (chunks, said, found, spoke, made, written)) ↦
            let cache_of : w'.cache
                ≡ (cache_response s t.history kb_id content replied.response w).1.cache =
              ap (λ (x : Stores (State s)). x.cache) (sym same_stores) ∙ written in
            let reply = sym same ∙ replied.reply in
            elim (cached-again t.history later.history kb_id content replied.response w laws h k) [
              | inr kept ↦ inr (cache_of ∙ kept)
              | inl hit ↦ inl (
                  rw reply (
                    second_reply later_id kb_id later_owner_id content v later replied.response
                      again (rw unchanged (rw cache_of hit))))
            ]
      ]
