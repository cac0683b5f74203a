-- ===== src/Chunking/Fixed.antt =====
-- app/chunking/fixed_size_chunker.py: windows of tokens at a fixed step.
pub mod Coverage
use rag_kb.Base.{
  ℕ, zero, suc, ◌+◌, ◌-◌, List, [], ◌∷◌, map, Option, none, some, length, take, drop, ltb, is_empty,
  if◌then◌else◌,
}
use rag_kb.Base.Text.{Text, strip, find_or_zero}
use rag_kb.Chunking.{Chunk, ChunkingStrategy, no_metadata}

-- `step`: positive, since the constructor refuses an overlap of the chunk size or more.
unfoldable pub step : ChunkingStrategy → ℕ
step s = s.chunk_size_tokens - s.chunk_overlap_tokens

-- `tokens[position : position + chunk_size_tokens]`
unfoldable pub window : ChunkingStrategy → List ℕ → ℕ → List ℕ
window s tokens position = take s.chunk_size_tokens (drop position tokens)

-- The `while position < len(tokens)` loop, over the window that each round takes.
unfoldable pub window_loop : ChunkingStrategy → List ℕ → ℕ → ℕ → List (List ℕ)
unfolding step window
window_loop s tokens zero position = []
window_loop s tokens (suc fuel) position =
    let rest = window_loop s tokens fuel (position + step s) in
    if ltb position (length tokens) then window s tokens position ∷ rest else []

-- Each round moves on by at least one token, so that the number of tokens is enough fuel.
unfoldable pub windows : ChunkingStrategy → List ℕ → List (List ℕ)
unfolding window_loop
windows s tokens = window_loop s tokens (length tokens) 0

-- What one round of the loop makes of its window.
unfoldable pub window_chunk : ChunkingStrategy → Text → List ℕ → Chunk
window_chunk s text window_tokens =
    let chunk_text = s.token_counter.decode window_tokens in
    let start = if is_empty chunk_text then 0 else find_or_zero (take 50 chunk_text) text in
    record {
      text = chunk_text;
      start_index = start;
      end_index = start + length chunk_text;
      token_count = length window_tokens;
      metadata = no_metadata;
    }

-- `FixedSizeChunker.chunk`
unfoldable pub chunk : ChunkingStrategy → Text → List Chunk
unfolding windows window_chunk
chunk s text =
    if is_empty (strip text)
    then []
    else map (window_chunk s text) (windows s (s.token_counter.encode text))
