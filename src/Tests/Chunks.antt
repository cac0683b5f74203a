-- ===== src/Tests/Chunks.antt =====
-- Texts that are cut into chunks.
use rag_kb.Base.{◌≡◌, List, [], ◌∷◌, All, arith}
use rag_kb.Base.Text.{Text, codes}
use rag_kb.Chunking.Fixed
use rag_kb.Chunking.Fixed.Coverage.{heads, heads-windows}
use rag_kb.Chunking.Sentence.{group_loop}
use rag_kb.Chunking.Sentence.Groups.{Carries, uncarry, FitsOrMinimal, groups_cover, groups_budget}
use rag_kb.Chunking.Recursive
use rag_kb.Chunking.Recursive.Budget.{IsBudgeted, chunk-IsBudgeted}
use rag_kb.Chunking.Factory.{ChunkingFactory, Strategy, recursive}
use rag_kb.Tests.Inputs.{sizes, per_character}

heads-windows_example :
    heads (Fixed.step (sizes 4 1)) (Fixed.windows (sizes 4 1) (codes "abcdefghij"))
    ≡ codes "abcdefghij"
heads-windows_example = heads-windows (sizes 4 1) (codes "abcdefghij") (omega arith)

abbrev three_sentences : List Text
three_sentences = codes "One." ∷ codes "Two." ∷ codes "Three." ∷ []

groups_cover_example :
    Carries (sizes 9 4) [] (group_loop (sizes 9 4) [] 0 three_sentences)
    × (uncarry (sizes 9 4) [] (group_loop (sizes 9 4) [] 0 three_sentences) ≡ three_sentences)
groups_cover_example = groups_cover (sizes 9 4) three_sentences

groups_budget_example :
    All (FitsOrMinimal (sizes 9 4)) (group_loop (sizes 9 4) [] 0 three_sentences)
groups_budget_example = groups_budget (sizes 9 4) three_sentences

chunk-IsBudgeted_example :
    All
      (IsBudgeted (sizes 9 4) (codes "One. Two. Three."))
      (Recursive.chunk (sizes 9 4) (codes "One. Two. Three."))
chunk-IsBudgeted_example = chunk-IsBudgeted (sizes 9 4) (codes "One. Two. Three.") (omega arith)

abbrev factory : ChunkingFactory
factory = record {
  default_chunk_size_tokens = 9;
  default_chunk_overlap_tokens = 4;
  token_counter = per_character;
}

abbrev default_strategy : Strategy
default_strategy = record { kind = recursive; sizes = sizes 9 4 }
