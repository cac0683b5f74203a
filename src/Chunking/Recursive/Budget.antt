-- ===== src/Chunking/Recursive/Budget.antt =====
-- The budget of the recursive chunker, chunk by chunk.
use rag_kb.Base.{
  false, ℕ, ◌+◌, ◌≤◌, ◌<◌, ◌≡◌, refl, ◌⊎◌, inl, inr, ◌&&◌, not, List, [], ◌∷◌, ◌++◌, ltb, is_empty,
  arith, Bool-cases, All, All-append, All-of, sum_of-append, sum_of,
}
use rag_kb.Base.Text.{Text, strip, join, blank_line}
use rag_kb.Chunking.{Chunk, ChunkingStrategy, count}
use rag_kb.Chunking.Fixed
use rag_kb.Chunking.Fixed.Coverage.{chunk-within_budget}
use rag_kb.Chunking.Sentence
use rag_kb.Chunking.Recursive.{
  refine, split_oversized_paragraph, build_chunk, flush, paragraph_loop, chunk, paragraphs,
}

module _ (s : ChunkingStrategy) where
  abbrev Within : Chunk → Type 0
  Within c = c.token_count ≤ s.chunk_size_tokens

  -- A chunk of whole paragraphs of `text`, whose own token counts make up at most the budget.
  abbrev pub FromParagraphs : Text → Chunk → Type 0
  FromParagraphs text c =
      (ps : List Text) × (c ≡ build_chunk s text ps)
      × (sum_of (count s.token_counter) ps ≤ s.chunk_size_tokens)

  abbrev pub IsBudgeted : Text → Chunk → Type 0
  IsBudgeted text c = (c.token_count ≤ s.chunk_size_tokens) ⊎ FromParagraphs text c

module _ (s : ChunkingStrategy) (advance : s.chunk_overlap_tokens < s.chunk_size_tokens) where
  refine-Within : (cs : List Chunk) → All (Within s) (refine s cs)
  unfolding refine
  refine-Within [] = tt
  refine-Within (c ∷ cs) = elim (Bool-cases (ltb s.chunk_size_tokens c.token_count)) [
    | inl e ↦
        rw (e, refine)
          (All-append (Within s) (Fixed.chunk s c.text) (refine s cs)
            (All-of _ (λ c h. h.1) (Fixed.chunk s c.text) (chunk-within_budget s c.text advance))
            (refine-Within cs))
    | inr e ↦ rw (e, refine) (ground arith, refine-Within cs)
  ]

  -- The test that a grown group passed: there is room for `k` more tokens.
  room_left :
      (current : List Text) (n k : ℕ)
      → n ≡ sum_of (count s.token_counter) current
      → ltb s.chunk_size_tokens k ≡ false
      → (ltb s.chunk_size_tokens (n + k) && not (is_empty current)) ≡ false
      → n + k ≤ s.chunk_size_tokens
  room_left [] n k e small room = ground arith
  room_left (p ∷ ps) n k e small room = ground arith

  -- The pieces of a paragraph that is too large are all within the budget.
  split_oversized_paragraph-Within : (p : Text) → All (Within s) (split_oversized_paragraph s p)
  unfolding split_oversized_paragraph
  split_oversized_paragraph-Within p = refine-Within (Sentence.chunk s p)

  module _ (text : Text) where
    oversized-IsBudgeted : (p : Text) → All (IsBudgeted s text) (split_oversized_paragraph s p)
    oversized-IsBudgeted p =
        All-of (Within s) (λ c h. inl h) (split_oversized_paragraph s p)
          (split_oversized_paragraph-Within p)

    flush-IsBudgeted :
        (ps : List Text)
        → sum_of (count s.token_counter) ps ≤ s.chunk_size_tokens
        → All (IsBudgeted s text) (flush s text ps)
    flush-IsBudgeted [] h = tt
    flush-IsBudgeted (p ∷ ps) h = (inr (p ∷ ps, refl, h), tt)

    paragraph_loop-IsBudgeted :
        (ps current : List Text) (n : ℕ)
        → n ≡ sum_of (count s.token_counter) current
        → n ≤ s.chunk_size_tokens
        → All (IsBudgeted s text) (paragraph_loop s text current n ps)
    unfolding paragraph_loop
    paragraph_loop-IsBudgeted [] current n e h = flush-IsBudgeted current (omega arith)
    paragraph_loop-IsBudgeted (p ∷ ps) current n e h =
        let k = count s.token_counter p in
        elim (Bool-cases (ltb s.chunk_size_tokens k)) [
          | inl big ↦
              rw (big, paragraph_loop)
                (All-append (IsBudgeted s text) (flush s text current) _
                  (flush-IsBudgeted current (omega arith))
                  (All-append (IsBudgeted s text) (split_oversized_paragraph s p) _
                    (oversized-IsBudgeted p)
                    (paragraph_loop-IsBudgeted ps [] 0 refl (omega arith))))
          | inr small ↦
              elim (Bool-cases (ltb s.chunk_size_tokens (n + k) && not (is_empty current))) [
                | inl full ↦
                    rw (small, full, paragraph_loop)
                      (All-append (IsBudgeted s text) (flush s text current) _
                        (flush-IsBudgeted current (omega arith))
                        (paragraph_loop-IsBudgeted ps (p ∷ []) k (omega arith) (ground arith)))
                | inr room ↦
                    rw (small, room, paragraph_loop)
                      (paragraph_loop-IsBudgeted ps (current ++ p ∷ []) (n + k)
                        (omega (arith, sum_of-append (count s.token_counter) current (p ∷ [])))
                        (room_left current n k e small room))
              ]
        ]

-- Every chunk of `RecursiveChunker.chunk` counts at most `chunk_size_tokens` tokens, or is a chunk
-- of whole paragraphs whose own token counts make up at most `chunk_size_tokens`, if the overlap
-- is smaller than the size.
pub chunk-IsBudgeted :
    (s : ChunkingStrategy) (text : Text)
    → s.chunk_overlap_tokens < s.chunk_size_tokens
    → All (IsBudgeted s text) (chunk s text)
unfolding chunk
chunk-IsBudgeted s text advance = elim (Bool-cases (is_empty (strip text))) [
  | inl e ↦ rw e tt
  | inr e ↦
      rw e (paragraph_loop-IsBudgeted s advance text (paragraphs text) [] 0 refl (omega arith))
]

-- The blank lines between paragraphs are not counted: two paragraphs that fit together are one
-- chunk, which passes the budget whenever the joined text does.
pub separator_passes_budget :
    (s : ChunkingStrategy) (text p q : Text)
    → count s.token_counter p + count s.token_counter q ≤ s.chunk_size_tokens
    → s.chunk_size_tokens < count s.token_counter (join blank_line (p ∷ q ∷ []))
    → let c = build_chunk s text (p ∷ q ∷ []) in
      (paragraph_loop s text [] 0 (p ∷ q ∷ []) ≡ c ∷ []) × (s.chunk_size_tokens < c.token_count)
unfolding paragraph_loop build_chunk
separator_passes_budget s text p q h k = (ground arith, k)
