-- ===== src/Retrieval/Hybrid.antt =====
-- app/retrieval/hybrid_retriever.py: dense and keyword search, fused.
pub mod Lookup
pub mod Results
use rag_kb.Base.{
  ℕ, String, Bool, true, false, List, [], ◌∷◌, ◌++◌, map, Option, none, some, take, if◌then◌else◌,
}
use rag_kb.Base.Text.{Text}
use rag_kb.Base.Equality.{string_eq}
use rag_kb.Base.Dict
use rag_kb.Base.Dict.{Dict}
use rag_kb.Base.Floats.{Floats}
use rag_kb.Base.Sort.{sort_descending}
use rag_kb.Errors.{Result, ok, err}
use rag_kb.Retrieval.{
  SearchResult, Bm25Document, Bm25Result, RetrievedChunk, SourceMethod, dense, bm25,
}
use rag_kb.Retrieval.Fusion.{reciprocal_rank_fusion}

-- What `retrieve` reads of an entry of its lookup, whichever of the two classes it is.
pub record Hit : Type 0 where
  pub document_id : ℕ
  pub chunk_index : ℕ
  pub text : Text

module _ {S : Type 0} where
  abbrev pub dense_hit : SearchResult S → Hit
  dense_hit r = record { document_id = r.document_id; chunk_index = r.chunk_index; text = r.text }

  abbrev pub bm25_hit : Bm25Result S → Hit
  bm25_hit r = record { document_id = r.document_id; chunk_index = r.chunk_index; text = r.text }

  -- `lookup[result.chunk_id] = result`, for each dense result.
  unfoldable pub dense_lookup : List (SearchResult S) → Dict String Hit → Dict String Hit
  unfolding Dict.insert
  dense_lookup [] d = d
  dense_lookup (r ∷ rs) d = dense_lookup rs (Dict.insert r.chunk_id (dense_hit r) d)

  -- `lookup.setdefault(result.chunk_id, result)`, for each BM25 result.
  unfoldable pub bm25_lookup : List (Bm25Result S) → Dict String Hit → Dict String Hit
  unfolding Dict.set_default
  bm25_lookup [] d = d
  bm25_lookup (r ∷ rs) d = bm25_lookup rs (Dict.set_default r.chunk_id (bm25_hit r) d)

  -- `_build_chunk_lookup`
  unfoldable pub build_chunk_lookup : List (SearchResult S) → List (Bm25Result S) → Dict String Hit
  unfolding dense_lookup bm25_lookup
  build_chunk_lookup ds bs = bm25_lookup bs (dense_lookup ds [])

-- `source_methods.setdefault(chunk_id, []).append(method)`
unfoldable pub add_method :
    SourceMethod → String → Dict String (List SourceMethod) → Dict String (List SourceMethod)
unfolding Dict.set_default Dict.get_or Dict.insert
add_method m j d =
    let there = Dict.set_default j [] d in Dict.insert j (Dict.get_or j [] there ++ m ∷ []) there

unfoldable pub track :
    SourceMethod → List String → Dict String (List SourceMethod) → Dict String (List SourceMethod)
unfolding add_method
track m [] d = d
track m (j ∷ js) d = track m js (add_method m j d)

-- `_track_source_methods`
unfoldable pub track_source_methods : List String → List String → Dict String (List SourceMethod)
unfolding track
track_source_methods dense_ranked_ids bm25_ranked_ids =
    track bm25 bm25_ranked_ids (track dense dense_ranked_ids [])

module _ (fl : Floats) where
  open fl use {F, less}

  -- The comprehension over `fused_scores.items()`; `none` is a `KeyError`.
  unfoldable pub fused_results :
      Dict String Hit
      → Dict String (List SourceMethod)
      → Dict String F
      → Option (List (RetrievedChunk F))
  unfolding Dict.contains Dict.lookup
  fused_results chunk_lookup methods [] = some []
  fused_results chunk_lookup methods ((j, score) ∷ items) =
      let rest = fused_results chunk_lookup methods items in
      elim (Dict.contains j chunk_lookup) [
        | false ↦ rest
        | true ↦ elim (Dict.lookup j chunk_lookup) [
          | none ↦ none
          | some hit ↦ elim (Dict.lookup j methods) [
            | none ↦ none
            | some ms ↦ elim rest [
              | none ↦ none
              | some rs ↦ some (
                  record {
                    chunk_id = j;
                    document_id = hit.document_id;
                    chunk_index = hit.chunk_index;
                    text = hit.text;
                    fused_score = score;
                    source_methods = ms;
                  }
                  ∷ rs)
            ]
          ]
        ]
      ]

  -- `fused_results.sort(key=fused_score, reverse=True)` and the cut.
  abbrev pub ranked_top : ℕ → Option (List (RetrievedChunk F)) → Option (List (RetrievedChunk F))
  ranked_top top_k none = none
  ranked_top top_k (some rs) = some (take top_k (sort_descending less (λ r. r.fused_score) rs))

  abbrev pub dense_ids : List (SearchResult F) → List String
  dense_ids = map (λ (r : SearchResult F). r.chunk_id)

  abbrev pub bm25_ids : List (Bm25Result F) → List String
  bm25_ids = map (λ (r : Bm25Result F). r.chunk_id)

  -- `retrieve`, from the results of the two searches on.
  unfoldable pub fuse :
      ℕ → List (SearchResult F) → List (Bm25Result F) → ℕ → Option (List (RetrievedChunk F))
  unfolding build_chunk_lookup track_source_methods reciprocal_rank_fusion fused_results
  fuse rrf_k dense_results bm25_results top_k = ranked_top top_k (
      fused_results (build_chunk_lookup dense_results bm25_results)
        (track_source_methods (dense_ids dense_results) (bm25_ids bm25_results))
        (reciprocal_rank_fusion fl (dense_ids dense_results ∷ bm25_ids bm25_results ∷ []) rrf_k))
