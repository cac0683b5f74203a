-- ===== src/Retrieval/Compress.antt =====
-- app/retrieval/context_compressor.py: what of the ranked chunks fits the context.
use rag_kb.Base.{
  ℕ, ◌+◌, ◌<◌, ◌≤◌, ◌≡◌, refl, ap, ◌⊎◌, inl, inr, false, List, [], ◌∷◌, map, Option, none, some,
  length, take, get_elem?, ltb, if◌then◌else◌, is_empty, arith, Bool-cases, sum_of,
}
use rag_kb.Chunking.{TokenCounter, count}
use rag_kb.Retrieval.{RankedChunk, CompressedChunk}
use rag_kb.Errors.{Result, ok, err}

module _ {S : Type 0} (tc : TokenCounter) where
  abbrev pub compressed : RankedChunk S → CompressedChunk S
  compressed c = record {
    chunk_id = c.chunk_id;
    document_id = c.document_id;
    chunk_index = c.chunk_index;
    text = c.text;
    rerank_score = c.rerank_score;
    token_count = count tc c.text;
  }

  -- The loop over the deduplicated chunks, with its `break`.
  unfoldable pub budget_loop : ℕ → ℕ → List (RankedChunk S) → List (CompressedChunk S)
  unfolding count
  budget_loop max_context_tokens total_tokens [] = []
  budget_loop max_context_tokens total_tokens (c ∷ cs) =
      let token_count = count tc c.text in
      let rest = compressed c ∷ budget_loop max_context_tokens (total_tokens + token_count) cs in
      if ltb max_context_tokens (total_tokens + token_count) then [] else rest

  abbrev after_dedup :
      ℕ → Result (Option (List (RankedChunk S))) → Result (Option (List (CompressedChunk S)))
  after_dedup max_context_tokens (err e) = err e
  after_dedup max_context_tokens (ok none) = ok none
  after_dedup max_context_tokens (ok (some cs)) = ok (some (budget_loop max_context_tokens 0 cs))

  -- `ContextCompressor.compress`, with `Deduplicator.deduplicate` as an argument.
  unfoldable pub compress :
      (List (RankedChunk S) → Result (Option (List (RankedChunk S))))
      → ℕ
      → List (RankedChunk S)
      → Result (Option (List (CompressedChunk S)))
  unfolding budget_loop
  compress deduplicate max_context_tokens chunks =
      if is_empty chunks then ok (some []) else after_dedup max_context_tokens (deduplicate chunks)

  abbrev pub tokens_of : List (CompressedChunk S) → ℕ
  tokens_of = sum_of (λ (c : CompressedChunk S). c.token_count)

  -- The chunks that the loop returns are the longest run from the start that fits the budget.
  pub record IsFitting (max_context_tokens total : ℕ) (cs : List (RankedChunk S))
      (out : List (CompressedChunk S)) : Type 0 where
    pub fits : total + tokens_of out ≤ max_context_tokens
    pub prefix : out ≡ map compressed (take (length out) cs)
    pub maximal :
        (length out ≡ length cs)
        ⊎ ((c : RankedChunk S) × (get_elem? cs (length out) ≡ some c)
            × (max_context_tokens < total + tokens_of out + count tc c.text))

  budget_loop-IsFitting :
      (max_context_tokens total : ℕ) (cs : List (RankedChunk S))
      → total ≤ max_context_tokens
      → IsFitting max_context_tokens total cs (budget_loop max_context_tokens total cs)
  unfolding budget_loop
  budget_loop-IsFitting limit total [] h = record {
    fits = omega arith;
    prefix = refl;
    maximal = inl refl;
  }
  budget_loop-IsFitting limit total (c ∷ cs) h =
      let n = count tc c.text in
      elim (Bool-cases (ltb limit (total + n))) [
        | inl e ↦
            rw (e, budget_loop)
              (record { fits = omega arith; prefix = refl; maximal = inr (c, refl, ground arith) })
        | inr e ↦
            let ih = budget_loop-IsFitting limit (total + n) cs (ground arith) in
            rw (e, budget_loop)
              (record {
                fits = omega (arith, ih.fits);
                prefix = ap (λ l. compressed c ∷ l) ih.prefix;
                maximal = elim ih.maximal [
                  | inl all ↦ inl (omega (arith, all))
                  | inr (d, place, large) ↦ inr (d, place, omega (arith, large))
                ];
              })
      ]

  -- Whatever the deduplication returns, the context is the longest run of its chunks from the start
  -- whose tokens are at most `max_context_tokens` together: it is within the budget, no chunk is
  -- skipped or cut, and one more chunk would pass the budget.
  pub compress-IsFitting :
      (deduplicate : List (RankedChunk S) → Result (Option (List (RankedChunk S))))
      (max_context_tokens : ℕ) (chunks kept : List (RankedChunk S))
      → is_empty chunks ≡ false
      → deduplicate chunks ≡ ok (some kept)
      → (out : List (CompressedChunk S)) × (compress deduplicate max_context_tokens chunks
          ≡ ok (some out))
        × IsFitting max_context_tokens 0 kept out
  unfolding compress
  compress-IsFitting deduplicate limit chunks kept h e =
      (budget_loop limit 0 kept, rw h (rw e), budget_loop-IsFitting limit 0 kept (omega arith))
