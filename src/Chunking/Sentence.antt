-- ===== src/Chunking/Sentence.antt =====
-- app/chunking/sentence_chunker.py: whole sentences grouped up to a budget, with some of them
-- repeated at the start of the next group.
pub mod Groups
use rag_kb.Base.{
  ℕ, ◌+◌, Bool, true, false, ◌&&◌, ◌||◌, not, List, [], ◌∷◌, ◌++◌, map, length, ltb, leb, is_empty,
  if◌then◌else◌, filterb, sum_of, nat_beq,
}
use mathlib.Core.List.{reverse}
use rag_kb.Base.Text.{Text, is_space, strip, join, find_or_zero, cons_head, codes}
use rag_kb.Chunking.{Chunk, ChunkingStrategy, TokenCounter, count, sentence_count}

-- `[.!?]`
abbrev is_end : ℕ → Bool
is_end c = nat_beq c b'.' || nat_beq c b'!' || nat_beq c b'?'

-- `[A-Z0-9]`
abbrev opens : ℕ → Bool
opens c = (leb b'A' c && leb c b'Z') || (leb b'0' c && leb c b'9')

-- Whether a sentence opens behind the white space that the text begins with.
opens_after_space : Text → Bool
unfolding is_space
opens_after_space [] = false
opens_after_space (c ∷ cs) = elim (is_space c) [ true ↦ opens_after_space cs | false ↦ opens c ]

-- Where the scan for `(?<=[.!?])\s+(?=[A-Z0-9])` stands: within the white space of a match, or in
-- a sentence, with whether the character before it ended one.
pub data Mode : Type 0 where
  gap : Mode
  sentence : Bool → Mode

-- `_SENTENCE_BOUNDARY_PATTERN.split`
unfoldable pub boundary_split : Mode → Text → List Text
unfolding opens_after_space is_space
boundary_split mode [] = [] ∷ []
boundary_split gap (c ∷ cs) = elim (is_space c) [
  | true ↦ boundary_split gap cs
  | false ↦ cons_head c (boundary_split (sentence (is_end c)) cs)
]
boundary_split (sentence ended) (c ∷ cs) = elim (ended && is_space c && opens_after_space cs) [
  | true ↦ [] ∷ boundary_split gap cs
  | false ↦ cons_head c (boundary_split (sentence (is_end c)) cs)
]

-- `_split_sentences`
unfoldable pub split_sentences : Text → List Text
unfolding boundary_split strip
split_sentences text =
    filterb (λ s. not (is_empty s)) (map strip (boundary_split (sentence false) (strip text)))

-- The loop of `_carry_over_for_overlap`, over the sentences last to first.
unfoldable pub carry_loop : ChunkingStrategy → List Text → List Text → ℕ → List Text
unfolding count
carry_loop s [] carried carried_tokens = carried
carry_loop s (x ∷ xs) carried carried_tokens =
    let sentence_tokens = count s.token_counter x in
    let rest = carry_loop s xs (x ∷ carried) (carried_tokens + sentence_tokens) in
    if ltb s.chunk_overlap_tokens (carried_tokens + sentence_tokens) && not (is_empty carried)
    then carried
    else rest

-- `_carry_over_for_overlap`
unfoldable pub carry_over_for_overlap : ChunkingStrategy → List Text → List Text
unfolding carry_loop
carry_over_for_overlap s sentences = carry_loop s (reverse sentences) [] 0

abbrev pub token_sum : ChunkingStrategy → List Text → ℕ
token_sum s = sum_of (count s.token_counter)

-- The `for sentence in sentences` loop of `chunk`, over the groups of sentences that it builds.
unfoldable pub group_loop : ChunkingStrategy → List Text → ℕ → List Text → List (List Text)
unfolding carry_over_for_overlap count
group_loop s current current_token_count [] = if is_empty current then [] else current ∷ []
group_loop s current current_token_count (x ∷ xs) =
    let sentence_tokens = count s.token_counter x in
    let carried = carry_over_for_overlap s current in
    let flushed =
      current ∷ group_loop s (carried ++ x ∷ []) (token_sum s carried + sentence_tokens) xs in
    let grown = group_loop s (current ++ x ∷ []) (current_token_count + sentence_tokens) xs in
    if ltb s.chunk_size_tokens (current_token_count + sentence_tokens) && not (is_empty current)
    then flushed
    else grown

abbrev first_or_empty : List Text → Text
first_or_empty [] = []
first_or_empty (x ∷ xs) = x

-- `_build_chunk`
unfoldable pub build_chunk : ChunkingStrategy → Text → List Text → Chunk
unfolding join find_or_zero count
build_chunk s original_text sentences =
    let chunk_text = join (32 ∷ []) sentences in
    let start =
      if is_empty sentences then 0 else find_or_zero (first_or_empty sentences) original_text in
    record {
      text = chunk_text;
      start_index = start;
      end_index = start + length chunk_text;
      token_count = count s.token_counter chunk_text;
      metadata = sentence_count (length sentences);
    }

-- `SentenceChunker.chunk`
unfoldable pub chunk : ChunkingStrategy → Text → List Chunk
unfolding strip split_sentences group_loop build_chunk
chunk s text =
    if is_empty (strip text)
    then []
    else map (build_chunk s text) (group_loop s [] 0 (split_sentences text))
