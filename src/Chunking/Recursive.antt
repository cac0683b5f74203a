-- ===== src/Chunking/Recursive.antt =====
-- app/chunking/recursive_chunker.py: paragraphs grouped up to a budget; a paragraph that is too
-- large alone is split by sentences, and a sentence group that is still too large by tokens.
pub mod Budget
use rag_kb.Base.{
  ℕ, ◌+◌, ◌&&◌, not, List, [], ◌∷◌, ◌++◌, map, length, ltb, is_empty, if◌then◌else◌, filterb,
}
use rag_kb.Base.Text.{Text, strip, join, find_or_zero, split_blank, blank_line}
use rag_kb.Chunking.{Chunk, ChunkingStrategy, count, paragraph_count}
use rag_kb.Chunking.Fixed
use rag_kb.Chunking.Sentence

-- The paragraphs of `chunk`; a text with none is one paragraph.
unfoldable pub paragraphs : Text → List Text
unfolding split_blank strip
paragraphs text =
    let found = filterb (λ p. not (is_empty p)) (map strip (split_blank text)) in
    if is_empty found then strip text ∷ [] else found

-- The loop of `_split_oversized_paragraph` over the sentence chunks.
unfoldable pub refine : ChunkingStrategy → List Chunk → List Chunk
unfolding Fixed.chunk
refine s [] = []
refine s (c ∷ cs) =
    let rest = refine s cs in
    if ltb s.chunk_size_tokens c.token_count then Fixed.chunk s c.text ++ rest else c ∷ rest

-- `_split_oversized_paragraph`
unfoldable pub split_oversized_paragraph : ChunkingStrategy → Text → List Chunk
unfolding refine Sentence.chunk
split_oversized_paragraph s paragraph = refine s (Sentence.chunk s paragraph)

abbrev first_or_empty : List Text → Text
first_or_empty [] = []
first_or_empty (x ∷ xs) = x

-- `_build_chunk`
unfoldable pub build_chunk : ChunkingStrategy → Text → List Text → Chunk
unfolding join find_or_zero count
build_chunk s original_text ps =
    let chunk_text = join blank_line ps in
    let start = if is_empty ps then 0 else find_or_zero (first_or_empty ps) original_text in
    record {
      text = chunk_text;
      start_index = start;
      end_index = start + length chunk_text;
      token_count = count s.token_counter chunk_text;
      metadata = paragraph_count (length ps);
    }

-- `if current_paragraphs: chunks.append(self._build_chunk(...))`
abbrev pub flush : ChunkingStrategy → Text → List Text → List Chunk
flush s text [] = []
flush s text (p ∷ ps) = build_chunk s text (p ∷ ps) ∷ []

-- The `for paragraph in paragraphs` loop of `chunk`, with its last flush.
unfoldable pub paragraph_loop : ChunkingStrategy → Text → List Text → ℕ → List Text → List Chunk
unfolding count split_oversized_paragraph build_chunk
paragraph_loop s text current current_token_count [] = flush s text current
paragraph_loop s text current current_token_count (p ∷ ps) =
    let paragraph_tokens = count s.token_counter p in
    let oversized =
      flush s text current ++ (split_oversized_paragraph s p ++ paragraph_loop s text [] 0 ps) in
    let flushed = flush s text current ++ paragraph_loop s text (p ∷ []) paragraph_tokens ps in
    let grown =
      paragraph_loop s text (current ++ p ∷ []) (current_token_count + paragraph_tokens) ps in
    if ltb s.chunk_size_tokens paragraph_tokens
    then oversized
    else if ltb s.chunk_size_tokens (current_token_count + paragraph_tokens)
        && not (is_empty current)
    then flushed
    else grown

-- `RecursiveChunker.chunk`
unfoldable pub chunk : ChunkingStrategy → Text → List Chunk
unfolding paragraphs paragraph_loop
chunk s text = if is_empty (strip text) then [] else paragraph_loop s text [] 0 (paragraphs text)
