-- ===== src/Conversations/Ownership.antt =====
-- Whose conversations a user sees and deletes, and the title of one.
use rag_kb.Base.{
  ℕ, ◌≡◌, ◌≢◌, refl, ◌∙◌, ◌⊎◌, inl, inr, not, List, [], ◌∷◌, filterb, arith, All, Bool-cases,
  nat_beq_iff,
}
use rag_kb.Base.Equality.{◌==◌, nat_eq}
use rag_kb.Errors.{not_found, returned, raised}
use rag_kb.Conversations.{Conversation, Message, Stores, in_conversation}
use rag_kb.Conversations.Access.{MaySee, MayNotSee, access-cases}
use rag_kb.Conversations.Service.{get_conversation_or_404, delete_conversation}

abbrev pub rows_of : ℕ → List Conversation → List Conversation
rows_of conversation_id = filterb (λ (c : Conversation). c.id == conversation_id)

module _ {Cache : Type 0} where
  abbrev without : Conversation → Stores Cache → Stores Cache
  without c w = record w {
    conversations = filterb (λ (d : Conversation). not (d.id == c.id)) w.conversations;
    messages = filterb (λ (m : Message). not (m.conversation_id == c.id)) w.messages;
  }

  -- A deletion succeeds exactly for a conversation that the user may see: one of the id and in the
  -- knowledge base that are asked for, which is the user's. It takes the conversation and its
  -- messages, and leaves every other conversation with its messages, the documents and the cache as
  -- they were. Else it is not found, and nothing changes.
  pub delete_conversation_exact :
      (conversation_id kb_id owner_id other : ℕ) (w : Stores Cache)
      → other ≢ conversation_id
      → (MayNotSee conversation_id kb_id owner_id w
          × (delete_conversation conversation_id kb_id owner_id w ≡ (raised not_found, w)))
        ⊎ ((c : Conversation) × (w' : Stores Cache) × MaySee conversation_id kb_id owner_id w c
            × (delete_conversation conversation_id kb_id owner_id w ≡ (returned tt, w'))
            × (in_conversation conversation_id w'.messages ≡ [])
            × All (λ (d : Conversation). d.id ≢ conversation_id) w'.conversations
            × (rows_of other w'.conversations ≡ rows_of other w.conversations)
            × (in_conversation other w'.messages ≡ in_conversation other w.messages)
            × (w'.documents ≡ w.documents)
            × (w'.cache ≡ w.cache))
  unfolding delete_conversation get_conversation_or_404
  delete_conversation_exact i kb_id owner_id other w ne = elim (access-cases i kb_id owner_id w) [
    | inr (may_not, inl foreign) ↦ inl (may_not, rw foreign)
    | inr (may_not, inr (kb, owned, missing)) ↦ inl (may_not, rw owned (rw missing))
    | inl (kb, c, owned, (owner, found, same, there)) ↦ inr (
      c,
      without c w,
      (owner, found, same, there),
      rw owned (rw found refl),
      rw (← same) (gone c w.messages),
      not_there c same w.conversations,
      other_rows c (λ p. ne (p ∙ same)) w.conversations,
      kept c (λ p. ne (p ∙ same)) w.messages,
      refl,
      refl,
    )
  ]
    where
      gone :
          (c : Conversation) (ms : List Message)
          → in_conversation c.id (filterb (λ (m : Message). not (m.conversation_id == c.id)) ms)
            ≡ []
      gone c [] = refl
      gone c (m ∷ ms) = elim (Bool-cases (m.conversation_id == c.id)) [
        | inl own ↦ rw (own, filterb) (gone c ms)
        | inr foreign ↦ rw (foreign, filterb) (rw (foreign, filterb) (gone c ms))
      ]

      kept :
          (c : Conversation)
          → other ≢ c.id
          → (ms : List Message)
          → in_conversation other (filterb (λ (m : Message). not (m.conversation_id == c.id)) ms)
            ≡ in_conversation other ms
      kept c ne [] = refl
      kept c ne (m ∷ ms) = ground (
        arith,
        kept c ne ms,
        nat_beq_iff m.conversation_id c.id,
        nat_beq_iff m.conversation_id other,
        ne,
      )

      not_there :
          (c : Conversation)
          → c.id ≡ i
          → (rows : List Conversation)
          → All
              (λ (d : Conversation). d.id ≢ i)
              (filterb (λ (d : Conversation). not (d.id == c.id)) rows)
      not_there c same [] = tt
      not_there c same (d ∷ rows) = elim (Bool-cases (d.id == c.id)) [
        | inl own ↦ rw (own, filterb) (not_there c same rows)
        | inr foreign ↦
            rw (foreign, filterb)
              (
                (λ p. ground (arith, foreign, nat_beq_iff d.id c.id, p, same)),
                not_there c same rows,
              )
      ]

      other_rows :
          (c : Conversation)
          → other ≢ c.id
          → (rows : List Conversation)
          → rows_of other (filterb (λ (d : Conversation). not (d.id == c.id)) rows)
            ≡ rows_of other rows
      other_rows c ne [] = refl
      other_rows c ne (d ∷ rows) =
          ground (arith, other_rows c ne rows, nat_beq_iff d.id c.id, nat_beq_iff d.id other, ne)
