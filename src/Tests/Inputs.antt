-- ===== src/Tests/Inputs.antt =====
-- Concrete parameters for the libraries that the program calls: a tokenizer with one token for each
-- character, scores that are natural numbers, vectors with one coordinate.
use rag_kb.Base.{ℕ, ◌+◌, ◌*◌, ◌/◌, ltb, leb, nat_beq, arith}
use rag_kb.Base.Floats.{Floats}
use rag_kb.Base.Sort.{IsStrictOrder}
use rag_kb.Chunking.{TokenCounter, ChunkingStrategy}
use rag_kb.Retrieval.Bm25.{Alphabet}
use rag_kb.Retrieval.Dedup.{Vectors}

abbrev pub per_character : TokenCounter
per_character = record { encode = λ text. text; decode = λ tokens. tokens }

pub ltb-IsStrictOrder : IsStrictOrder ltb
ltb-IsStrictOrder = record {
  asymmetric = λ a b h. ground arith;
  co_transitive = λ a b c h k. ground arith;
}

-- Scores in parts of a thousand.
abbrev pub thousandths : Floats
thousandths = record {
  F = ℕ;
  zero_f = 0;
  add = λ a b. a + b;
  recip = λ n. 1000 / n;
  less = ltb;
  order = ltb-IsStrictOrder;
}

abbrev pub lower_letters : Alphabet
lower_letters = record { is_word = λ c. leb 97 c; lower = λ t. t }

abbrev pub one_coordinate : Vectors
one_coordinate = record {
  Vector = ℕ;
  F = ℕ;
  norm = λ v. v;
  dot = λ a b. a * b;
  zero_f = 0;
  mul = λ a b. a * b;
  div = λ a b. a / b;
  is_zero = λ a. nat_beq a 0;
  at_least = λ a b. leb b a;
}

abbrev pub sizes : ℕ → ℕ → ChunkingStrategy
sizes size overlap = record {
  chunk_size_tokens = size;
  chunk_overlap_tokens = overlap;
  token_counter = per_character;
}
