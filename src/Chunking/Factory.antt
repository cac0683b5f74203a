-- ===== src/Chunking/Factory.antt =====
-- app/chunking/factory.py: the strategy that a type names, with the sizes of the settings where the
-- caller gives none.
use rag_kb.Base.{ℕ, zero, suc, ◌≡◌, ◌<◌, List, Option, none, some, arith}
use rag_kb.Base.Text.{Text}
use rag_kb.Errors.{Result, ok, err}
use rag_kb.Chunking.{Chunk, ChunkingStrategy, TokenCounter, new_strategy}
use rag_kb.Chunking.Fixed
use rag_kb.Chunking.Sentence
use rag_kb.Chunking.Recursive

pub data ChunkingStrategyType : Type 0 where
  fixed_size sentence recursive : ChunkingStrategyType

-- The settings that the factory reads, and its token counter.
pub record ChunkingFactory : Type 0 where
  pub default_chunk_size_tokens : ℕ
  pub default_chunk_overlap_tokens : ℕ
  pub token_counter : TokenCounter

-- `override or default`: Python's `or` takes the default for `None` and for 0.
unfoldable pub or_default : Option ℕ → ℕ → ℕ
or_default none d = d
or_default (some zero) d = d
or_default (some (suc n)) d = suc n

-- The class of a strategy and the arguments of its constructor.
pub record Strategy : Type 0 where
  pub kind : ChunkingStrategyType
  pub sizes : ChunkingStrategy

abbrev with_kind : ChunkingStrategyType → Result ChunkingStrategy → Result Strategy
with_kind k (ok s) = ok (record { kind = k; sizes = s })
with_kind k (err e) = err e

-- `get_strategy`
unfoldable pub get_strategy :
    ChunkingFactory → ChunkingStrategyType → Option ℕ → Option ℕ → Result Strategy
unfolding or_default new_strategy
get_strategy f kind size overlap = with_kind kind (
    new_strategy (or_default size f.default_chunk_size_tokens)
      (or_default overlap f.default_chunk_overlap_tokens) f.token_counter)

-- `ChunkingStrategy.chunk`, by the class.
unfoldable pub chunk : Strategy → Text → List Chunk
unfolding Fixed.chunk Sentence.chunk Recursive.chunk
chunk s text = elim s.kind [
  | fixed_size ↦ Fixed.chunk s.sizes text
  | sentence ↦ Sentence.chunk s.sizes text
  | recursive ↦ Recursive.chunk s.sizes text
]

-- A strategy that the factory returns always advances: its overlap is smaller than its size, and
-- it is of the class that was asked for.
pub get_strategy-advances :
    (f : ChunkingFactory) (kind : ChunkingStrategyType) (size overlap : Option ℕ) (s : Strategy)
    → get_strategy f kind size overlap ≡ ok s
    → (s.kind ≡ kind) × (s.sizes.chunk_overlap_tokens < s.sizes.chunk_size_tokens)
unfolding get_strategy
get_strategy-advances f kind size overlap s h = ground arith
