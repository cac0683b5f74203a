-- ===== src/Tests/Search.antt =====
-- Searches, their fusion, and what follows them.
use rag_kb.Base.{ℕ, ◌≡◌, refl, String, List, [], ◌∷◌, map, none, some, length, arith, get_elem?}
use rag_kb.Base.Equality.{string_eq}
use rag_kb.Base.Text.{Text, codes}
use rag_kb.Base.Dict
use rag_kb.Base.Dict.{Distinct}
use rag_kb.Errors.{Result, ok}
use rag_kb.Retrieval.{
  SearchResult, Bm25Document, Bm25Result, RetrievedChunk, RankedChunk, CompressedChunk, dense,
}
use rag_kb.Retrieval.Fusion.{reciprocal_rank_fusion, total_score, fusion_scores}
use rag_kb.Retrieval.Hybrid.{fuse}
use rag_kb.Retrieval.Hybrid.Results.{fuse-IsFusedTop, IsFusedTop}
use rag_kb.Retrieval.Rerank.{cohere_score, cohere_score-in_order, last_score}
use rag_kb.Retrieval.Compress.{compress, compress-IsFitting, IsFitting}
use rag_kb.Tests.Inputs.{thousandths, per_character}

abbrev two_lists : List (List String)
two_lists = ("a" ∷ "b" ∷ []) ∷ ("b" ∷ "c" ∷ []) ∷ []

fusion_scores_example :
    Distinct (reciprocal_rank_fusion thousandths two_lists 60)
    × (Dict.lookup "b" (reciprocal_rank_fusion thousandths two_lists 60)
        ≡ total_score thousandths "b" 60 none two_lists)
fusion_scores_example = fusion_scores thousandths two_lists 60 "b"

abbrev dense_results : List (SearchResult ℕ)
dense_results =
    record { chunk_id = "a"; document_id = 4; chunk_index = 0; text = codes "one"; score = 9 }
    ∷ record { chunk_id = "b"; document_id = 4; chunk_index = 1; text = codes "two"; score = 8 }
    ∷ []

abbrev bm25_results : List (Bm25Result ℕ)
bm25_results =
    record { chunk_id = "b"; document_id = 4; chunk_index = 1; text = codes "two"; score = 3 } ∷ []

fuse-IsFusedTop_example :
    (rs : List (RetrievedChunk ℕ)) × (fuse thousandths 60 dense_results bm25_results 5 ≡ some rs)
    × IsFusedTop thousandths 60 dense_results bm25_results 5 rs
fuse-IsFusedTop_example = fuse-IsFusedTop thousandths 60 dense_results bm25_results 5

abbrev ranked_chunk : String → String → RankedChunk ℕ
ranked_chunk name text = record {
  chunk_id = name;
  document_id = 4;
  chunk_index = 0;
  text = codes text;
  rerank_score = 7;
  source_methods = dense ∷ [];
}

abbrev chunks_of_three : List (RankedChunk ℕ)
chunks_of_three = ranked_chunk "a" "one" ∷ ranked_chunk "b" "two" ∷ ranked_chunk "c" "three" ∷ []

compress-IsFitting_example :
    (out : List (CompressedChunk ℕ)) × (compress per_character
        (λ chunks. ok (some chunks))
        7
        chunks_of_three
      ≡ ok (some out))
    × IsFitting per_character 7 0 chunks_of_three out
compress-IsFitting_example =
    compress-IsFitting per_character (λ chunks. ok (some chunks)) 7 chunks_of_three chunks_of_three
      refl refl

abbrev coordinates : List Text → Result (List ℕ)
coordinates texts = ok (map length texts)

abbrev candidates : List (RetrievedChunk ℕ)
candidates =
    record {
      chunk_id = "a";
      document_id = 4;
      chunk_index = 0;
      text = codes "one";
      fused_score = 16;
      source_methods = dense ∷ [];
    }
    ∷ record {
      chunk_id = "b";
      document_id = 4;
      chunk_index = 1;
      text = codes "two";
      fused_score = 15;
      source_methods = dense ∷ [];
    }
    ∷ []

abbrev api_results : List (ℕ × ℕ)
api_results = (1, 90) ∷ (0, 20) ∷ []

cohere_score-in_order_example :
    (scores : List ℕ) × (cohere_score thousandths
        (λ texts. ok api_results)
        (codes "one" ∷ codes "two" ∷ [])
      ≡ ok scores)
    × (length scores ≡ 2)
    × (get_elem? scores 1 ≡ some (last_score thousandths 1 0 api_results))
cohere_score-in_order_example =
    cohere_score-in_order thousandths (λ texts. ok api_results) (codes "one" ∷ codes "two" ∷ [])
      api_results 1 refl (omega arith)

abbrev documents : List Bm25Document
documents =
    record { chunk_id = "a"; document_id = 4; chunk_index = 0; text = codes "one" }
    ∷ record { chunk_id = "b"; document_id = 4; chunk_index = 1; text = codes "two" }
    ∷ []

abbrev index_scores : List (List Text) → List Text → Result (List ℕ)
index_scores texts query = ok (0 ∷ 6 ∷ [])
