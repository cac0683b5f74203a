-- ===== src/Chunking.antt =====
-- app/chunking/base.py: the data that every strategy shares. The tokenizer (tiktoken) is a record
-- of two functions, an argument of the strategies that use it.
pub mod Fixed
pub mod Sentence
pub mod Recursive
pub mod Factory
use rag_kb.Base.{ℕ, List, length, leb, if◌then◌else◌}
use rag_kb.Base.Text.{Text}
use rag_kb.Errors.{Result, ok, err, chunking_error}

-- `metadata` holds one count: of paragraphs or sentences, and none for a token window.
pub data Metadata : Type 0 where
  no_metadata : Metadata
  paragraph_count sentence_count : ℕ → Metadata

pub record Chunk : Type 0 where
  pub text : Text
  pub start_index : ℕ
  pub end_index : ℕ
  pub token_count : ℕ
  pub metadata : Metadata

-- `TokenCounter`: `encode` and `decode` of the tiktoken encoding.
pub record TokenCounter : Type 0 where
  pub encode : Text → List ℕ
  pub decode : List ℕ → Text

-- `TokenCounter.count`
unfoldable pub count : TokenCounter → Text → ℕ
count tc text = length (tc.encode text)

pub record ChunkingStrategy : Type 0 where
  pub chunk_size_tokens : ℕ
  pub chunk_overlap_tokens : ℕ
  pub token_counter : TokenCounter

-- `ChunkingStrategy.__init__`: an overlap that is not smaller than the size is refused.
unfoldable pub new_strategy : ℕ → ℕ → TokenCounter → Result ChunkingStrategy
new_strategy size overlap tc =
    if leb size overlap
    then err chunking_error
    else ok
        (record { chunk_size_tokens = size; chunk_overlap_tokens = overlap; token_counter = tc })
