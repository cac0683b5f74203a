-- ===== src/Retrieval/Pipeline.antt =====
-- `HybridRetriever.retrieve` of app/retrieval/hybrid_retriever.py, and the stages that
-- app/services/conversation_service.py and app/evaluation/evaluation_runner.py run one behind the
-- other: the hybrid search, the reranking and the compression.
use rag_kb.Base.{
  ℕ, ◌+◌, ◌≤◌, ◌≡◌, List, [], ◌∷◌, map, some, length, length-take, length-map, take, is_empty, leb,
  arith, Bool-cases, ◌⊎◌, inl, inr, ap,
}
use rag_kb.Base.Text.{Text}
use rag_kb.Base.Floats.{Floats}
use rag_kb.Errors.{
  AppError, Result, Result-cases, ok, err, Outcome, returned, raised, ◌>>=◌, of_result, of_option,
  of_both,
}
use rag_kb.Chunking.{TokenCounter}
use rag_kb.Retrieval.{
  SearchResult, Bm25Document, Bm25Result, RetrievedChunk, RankedChunk, CompressedChunk,
}
use rag_kb.Retrieval.Bm25
use rag_kb.Retrieval.Bm25.{Alphabet}
use rag_kb.Retrieval.Hybrid.{fuse}
use rag_kb.Retrieval.Hybrid.Results.{fuse-IsFusedTop}
use rag_kb.Retrieval.Rerank.{rerank, rerank-ok, rerank-err, fallback_without_scores}
use rag_kb.Retrieval.Dedup.{Vectors, deduplicate, deduplicate_lem, IsWithin}
use rag_kb.Retrieval.Compress.{compress, compress-IsFitting, tokens_of}

-- What the stages call, and their settings: the embedding of a question and of texts, the vector
-- store, the scores of BM25, the reranking model. For the cache of `embed_text`, a call is its answer.
pub record Pipeline : Type 1 where
  pub floats : Floats
  pub vectors : Vectors
  pub embed_text : Text → Result vectors.Vector
  pub embed_texts : List Text → Result (List vectors.Vector)
  pub vector_search : ℕ → vectors.Vector → ℕ → Result (List (SearchResult floats.F))
  pub alphabet : Alphabet
  pub get_scores : List (List Text) → List Text → Result (List floats.F)
  pub reranker : Text → List Text → Result (List floats.F)
  pub token_counter : TokenCounter
  pub top_k_per_method : ℕ
  pub rrf_k : ℕ
  pub retrieval_top_k : ℕ
  pub rerank_top_k : ℕ
  pub similarity_threshold : vectors.F
  pub max_context_tokens : ℕ

module _ (p : Pipeline) where
  open p use {
    floats, vectors, embed_text, embed_texts, vector_search, alphabet, get_scores, reranker,
    token_counter, top_k_per_method, rrf_k, retrieval_top_k, rerank_top_k, similarity_threshold,
    max_context_tokens,
  }

  -- `HybridRetriever.retrieve`; where the embedding and the keyword search, which run at one time,
  -- both fail, the exception is that of the embedding.
  unfoldable pub retrieve :
      ℕ → Text → List Bm25Document → ℕ → Outcome (List (RetrievedChunk floats.F))
  unfolding Bm25.search fuse
  retrieve knowledge_base_id query bm25_documents top_k = do
    query_vector ← of_result (embed_text query)
    bm25_results ←
        of_result (Bm25.search floats alphabet get_scores bm25_documents query top_k_per_method)
    dense_results ← of_result (vector_search knowledge_base_id query_vector top_k_per_method)
    of_option (fuse floats rrf_k dense_results bm25_results top_k)

  -- The three stages, as both callers run them.
  unfoldable pub stages : ℕ → Text → List Bm25Document → Outcome (List (CompressedChunk floats.F))
  unfolding retrieve rerank deduplicate compress
  stages knowledge_base_id query bm25_documents = do
    candidates ← retrieve knowledge_base_id query bm25_documents retrieval_top_k
    ranked ← of_option (rerank floats (reranker query) candidates rerank_top_k)
    of_both (
        compress token_counter (deduplicate vectors similarity_threshold embed_texts)
          max_context_tokens ranked)

  -- The reranking model and the embedding model answer with one value for each text.
  pub record AnswersEach : Type 0 where
    pub one_score :
        (query : Text) (texts : List Text) (scores : List floats.F)
        → reranker query texts ≡ ok scores
        → length texts ≡ length scores
    pub one_vector :
        (texts : List Text) (vs : List vectors.Vector)
        → embed_texts texts ≡ ok vs
        → length vs ≡ length texts

  rerank-total :
      AnswersEach
      → (query : Text) (candidates : List (RetrievedChunk floats.F)) (top_k : ℕ)
      → (rs : List (RankedChunk floats.F)) × (rerank floats (reranker query) candidates top_k
          ≡ some rs)
        × (length rs ≤ top_k)
  rerank-total each query candidates top_k =
      let texts = map (λ (c : RetrievedChunk floats.F). c.text) candidates in
      elim (Result-cases (reranker query texts)) [
        | inl (scores, answered) ↦
            let same = each.one_score query texts scores answered in
            let (pairs, all, _, _, _, _, done) =
              rerank-ok floats (reranker query) candidates top_k scores answered (
                omega
                  (arith, same, length-map (λ (c : RetrievedChunk floats.F). c.text) candidates)) in
            (take top_k all, done, omega (arith, length-take top_k all))
        | inr (e, failed) ↦ (
          fallback_without_scores floats candidates top_k,
          rerank-err floats (reranker query) candidates top_k e failed,
          unfold fallback_without_scores in
              omega (
                arith,
                length-map
                    (λ (c : RetrievedChunk floats.F).
                      rag_kb.Retrieval.Rerank.with_score floats (c, c.fused_score))
                    (take top_k candidates),
                length-take top_k candidates,
              ),
        )
      ]

  IsWithin-length :
      (lo hi : ℕ) (ps : List (ℕ × vectors.Vector))
      → lo ≤ hi
      → IsWithin vectors similarity_threshold lo hi ps
      → lo + length ps ≤ hi
  IsWithin-length lo hi [] le h = omega arith
  IsWithin-length lo hi (q ∷ ps) le h =
      omega (arith, IsWithin-length (q.0 + 1) hi ps (omega (arith, h.1)) h.2, h.0)

  -- The deduplication fails only as the embedding does, and adds no chunk.
  deduplicate-total :
      AnswersEach
      → (chunks : List (RankedChunk floats.F))
      → ((e : AppError) × (deduplicate vectors similarity_threshold embed_texts chunks ≡ err e))
        ⊎ ((kept : List (RankedChunk floats.F)) × (deduplicate vectors similarity_threshold
                embed_texts chunks
              ≡ ok (some kept))
            × (length kept ≤ length chunks))
  deduplicate-total each chunks =
      let texts = map (λ (c : RankedChunk floats.F). c.text) chunks in
      elim (Bool-cases (leb (length chunks) 1)) [
        | inl short ↦ inr (chunks, unfold deduplicate in rw short, omega arith)
        | inr long ↦ elim (Result-cases (embed_texts texts)) [
          | inr (e, failed) ↦ inl (e, unfold deduplicate in rw long (rw failed))
          | inl (vs, answered) ↦
              let same = each.one_vector texts vs answered in
              let ((kept, done, _, n), within, _, _, _) =
                deduplicate_lem vectors similarity_threshold embed_texts chunks vs (ground arith)
                  answered
                  (omega (arith, same, length-map (λ (c : RankedChunk floats.F). c.text) chunks)) in
              inr (
                kept,
                done,
                omega (arith, n, IsWithin-length 0 (length chunks) _ (omega arith) within),
              )
        ]
      ]

  -- A context that fits: within the budget of tokens, and of at most `rerank_top_k` chunks.
  abbrev pub Fits : List (CompressedChunk floats.F) → Type 0
  Fits cs = (tokens_of token_counter cs ≤ max_context_tokens) × (length cs ≤ rerank_top_k)

  -- How a call ends that gives a context: with one that fits, or with an exception of the program.
  abbrev pub Ends : Outcome (List (CompressedChunk floats.F)) → Type 0
  Ends o =
      ((cs : List (CompressedChunk floats.F)) × (o ≡ returned cs) × Fits cs)
      ⊎ ((e : AppError) × (o ≡ raised e))

  compress-Ends :
      AnswersEach
      → (ranked : List (RankedChunk floats.F)) → length ranked ≤ rerank_top_k
      → Ends (
          of_both (
            compress token_counter
              (deduplicate vectors similarity_threshold embed_texts)
              max_context_tokens
              ranked))
  compress-Ends each ranked short = elim (Bool-cases (is_empty ranked)) [
    | inl nothing ↦ inl ([], unfold compress in rw nothing, (omega arith, omega arith))
    | inr some_there ↦ elim (deduplicate-total each ranked) [
      | inl (e, failed) ↦ inr (e, unfold compress in rw some_there (rw failed))
      | inr (kept, done, fewer) ↦
          let (out, computed, fitting) =
            compress-IsFitting token_counter (deduplicate vectors similarity_threshold embed_texts)
              max_context_tokens ranked kept some_there done in
          inl (
            out,
            rw computed,
            (
              omega (arith, fitting.fits),
              omega (
                arith,
                ap length fitting.prefix,
                length-map (rag_kb.Retrieval.Compress.compressed token_counter)
                    (take (length out) kept),
                length-take (length out) kept,
              ),
            ),
          )
    ]
  ]

  -- Where the reranking and the embedding models answer with one value for each text, the three
  -- stages never end in an exception of Python's own (no missing key, no unequal lengths, no index
  -- out of range): they give a context within the budget of tokens and of at most `rerank_top_k`
  -- chunks, or raise an exception of the program.
  pub stages-Ends :
      AnswersEach
      → (knowledge_base_id : ℕ) (query : Text) (bm25_documents : List Bm25Document)
      → Ends (stages knowledge_base_id query bm25_documents)
  unfolding stages retrieve
  stages-Ends each kb query docs = elim (Result-cases (embed_text query)) [
    | inr (e, failed) ↦ inr (e, rw failed)
    | inl (v, embedded) ↦
        elim (Result-cases (Bm25.search floats alphabet get_scores docs query top_k_per_method)) [
          | inr (e, failed) ↦ inr (e, rw embedded (rw failed))
          | inl (bs, found) ↦ elim (Result-cases (vector_search kb v top_k_per_method)) [
            | inr (e, failed) ↦ inr (e, rw embedded (rw found (rw failed)))
            | inl (ds, near) ↦
                let (candidates, fused, _) = fuse-IsFusedTop floats rrf_k ds bs retrieval_top_k in
                let (ranked, done, short) = rerank-total each query candidates rerank_top_k in
                rw embedded
                  (rw found (rw near (rw fused (rw done (compress-Ends each ranked short)))))
          ]
        ]
  ]
