-- ===== src/Conversations/Access.antt =====
-- Whose conversations a user reaches: the two checks at the beginning of a method of
-- app/services/conversation_service.py.
use rag_kb.Base.{
  ℕ, ◌≡◌, ◌⊎◌, inl, inr, List, [], ◌∷◌, none, some, find_first-passes, arith, Option-cases,
  &&-eq-true, nat_beq_iff, All,
}
use rag_kb.Base.Equality.{◌==◌, nat_eq}
use rag_kb.Errors.{ok, err, not_found}
use rag_kb.Documents.{KnowledgeBase}
use rag_kb.Documents.Service.{get_owned_or_404}
use rag_kb.Documents.Ownership.{IsOwner, IsForeign, IsOwner-cases}
use rag_kb.Conversations.{Conversation, Stores, get_for_knowledge_base}

-- A conversation that is another one, or of another knowledge base.
abbrev pub IsElsewhere : ℕ → ℕ → Conversation → Type 0
IsElsewhere conversation_id kb_id c = c.id ≡ conversation_id → c.knowledge_base_id ≡ kb_id → ⊥

find_first-IsElsewhere :
    (conversation_id kb_id : ℕ) (rows : List Conversation)
    → get_for_knowledge_base conversation_id kb_id rows ≡ none
    → All (IsElsewhere conversation_id kb_id) rows
unfolding get_for_knowledge_base
find_first-IsElsewhere conversation_id kb_id [] h = tt
find_first-IsElsewhere conversation_id kb_id (c ∷ rows) h = (
  λ same there. ground (
    arith,
    h,
    same,
    there,
    nat_beq_iff c.id conversation_id,
    nat_beq_iff c.knowledge_base_id kb_id,
  ),
  find_first-IsElsewhere conversation_id kb_id rows (ground (arith, h)),
)

module _ {Cache : Type 0} where
  -- A user may see a conversation: it is found, in the knowledge base that is asked for, and that
  -- belongs to the user.
  abbrev pub MaySee : ℕ → ℕ → ℕ → Stores Cache → Conversation → Type 0
  MaySee conversation_id kb_id owner_id w c =
      IsOwner kb_id owner_id w.documents
      × (get_for_knowledge_base conversation_id kb_id w.conversations ≡ some c)
      × (c.id ≡ conversation_id)
      × (c.knowledge_base_id ≡ kb_id)

  -- The knowledge base is not one of the user's, or no conversation in it has the id.
  abbrev pub MayNotSee : ℕ → ℕ → ℕ → Stores Cache → Type 0
  MayNotSee conversation_id kb_id owner_id w =
      IsForeign kb_id owner_id w.documents ⊎ All (IsElsewhere conversation_id kb_id) w.conversations

  -- How the two checks end.
  pub access-cases :
      (conversation_id kb_id owner_id : ℕ) (w : Stores Cache)
      → ((kb : KnowledgeBase) × (c : Conversation) × (get_owned_or_404 kb_id owner_id w.documents
            ≡ ok kb)
          × MaySee conversation_id kb_id owner_id w c)
        ⊎ (MayNotSee conversation_id kb_id owner_id w
            × ((get_owned_or_404 kb_id owner_id w.documents ≡ err not_found)
                ⊎ ((kb : KnowledgeBase) × (get_owned_or_404 kb_id owner_id w.documents ≡ ok kb)
                    × (get_for_knowledge_base conversation_id kb_id w.conversations ≡ none))))
  unfolding get_owned_or_404 get_for_knowledge_base
  access-cases conversation_id kb_id owner_id w = elim (IsOwner-cases kb_id owner_id w.documents) [
    | inr (missing, foreign) ↦ inr (inl (missing, foreign), inl (rw missing))
    | inl (kb, owned, a, b) ↦
        elim (Option-cases (get_for_knowledge_base conversation_id kb_id w.conversations)) [
          | inl gone ↦ inr (
            inr (find_first-IsElsewhere conversation_id kb_id w.conversations gone),
            inr (kb, rw owned, gone),
          )
          | inr (c, found) ↦
              let (p, q) =
                &&-eq-true (c.id == conversation_id) _
                  (find_first-passes _ w.conversations c found) in
              inl (
                kb,
                c,
                rw owned,
                (
                  (kb, owned, a, b),
                  found,
                  (nat_beq_iff c.id conversation_id).0 p,
                  (nat_beq_iff c.knowledge_base_id kb_id).0 q,
                ),
              )
        ]
  ]
