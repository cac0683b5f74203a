-- ===== src/Retrieval/Rerank.antt =====
-- app/retrieval/reranking_service.py, and the scores of app/retrieval/cohere_reranker.py.
use rag_kb.Base.{
  ℕ, zero, suc, ◌+◌, ◌<◌, ◌≡◌, refl, ◌∙◌, ap, sym, take_nil, List, [], ◌∷◌, map, Option, none, some,
  length, take, if◌then◌else◌, is_empty, arith, zip_strict, zip_strict-total, get_elem?,
}
use mathlib.Core.List.{Perm}
use mathlib.Core.List.Perm
use rag_kb.Base.Text.{Text}
use rag_kb.Base.Equality.{nat_eq, ◌==◌}
use rag_kb.Base.Dict
use rag_kb.Base.Dict.{Dict}
use rag_kb.Base.Floats.{Floats}
use rag_kb.Base.Sort.{sort_descending, IsDescending, sort-IsDescending, sort_descending-perm}
use rag_kb.Errors.{AppError, Result, ok, err, vector_store_error}
use rag_kb.Retrieval.{RetrievedChunk, RankedChunk}

module _ (fl : Floats) where
  open fl use {F, less, zero_f}

  abbrev pub with_score : RetrievedChunk F × F → RankedChunk F
  with_score (c, score) = record {
    chunk_id = c.chunk_id;
    document_id = c.document_id;
    chunk_index = c.chunk_index;
    text = c.text;
    rerank_score = score;
    source_methods = c.source_methods;
  }

  -- `_fallback_without_scores`
  unfoldable pub fallback_without_scores : List (RetrievedChunk F) → ℕ → List (RankedChunk F)
  fallback_without_scores candidates top_k =
      map (λ (c : RetrievedChunk F). with_score (c, c.fused_score)) (take top_k candidates)

  abbrev by_score : RankedChunk F → F
  by_score c = c.rerank_score

  abbrev best : ℕ → List (RetrievedChunk F × F) → List (RankedChunk F)
  best top_k pairs = take top_k (sort_descending less by_score (map with_score pairs))

  abbrev scored : List (RetrievedChunk F) → ℕ → Result (List F) → Option (List (RankedChunk F))
  scored candidates top_k (err e) = some (fallback_without_scores candidates top_k)
  scored candidates top_k (ok scores) = elim (zip_strict candidates scores) [
    | none ↦ none
    | some pairs ↦ some (best top_k pairs)
  ]

  -- `RerankingService.rerank`, with the reranker's answer as an argument of its texts. `none` is the
  -- `ValueError` of the strict zip, which the service does not catch.
  unfoldable pub rerank :
      (List Text → Result (List F)) → List (RetrievedChunk F) → ℕ → Option (List (RankedChunk F))
  unfolding fallback_without_scores sort_descending
  rerank reranker candidates top_k =
      if is_empty candidates
      then some []
      else scored candidates top_k (reranker (map (λ (c : RetrievedChunk F). c.text) candidates))

  -- Whatever error the reranker raises, the candidates come back in their old order, cut to `top_k`,
  -- with their fused scores: reranking never makes retrieval fail.
  pub rerank-err :
      (reranker : List Text → Result (List F)) (candidates : List (RetrievedChunk F)) (top_k : ℕ)
      (e : AppError)
      → reranker (map (λ (c : RetrievedChunk F). c.text) candidates) ≡ err e
      → rerank reranker candidates top_k ≡ some (fallback_without_scores candidates top_k)
  unfolding rerank fallback_without_scores
  rerank-err reranker [] zero e h = refl
  rerank-err reranker [] (suc k) e h = refl
  rerank-err reranker (c ∷ cs) top_k e h = rw h

  -- With one score for each candidate, the candidates come back with their scores, best first, cut
  -- to `top_k`: the cut is of a list that holds every candidate with its own score.
  pub rerank-ok :
      (reranker : List Text → Result (List F)) (candidates : List (RetrievedChunk F)) (top_k : ℕ)
      (scores : List F)
      → reranker (map (λ (c : RetrievedChunk F). c.text) candidates) ≡ ok scores
      → length candidates ≡ length scores
      → (pairs : List (RetrievedChunk F × F)) × (all : List (RankedChunk F)) × (map (λ p. p.0) pairs
          ≡ candidates)
        × (map (λ p. p.1) pairs ≡ scores)
        × Perm all (map with_score pairs)
        × IsDescending less by_score all
        × (rerank reranker candidates top_k ≡ some (take top_k all))
  unfolding rerank
  rerank-ok reranker [] top_k [] h same =
      ([], [], refl, refl, Perm.refl [], tt, ap some (sym (take_nil top_k)))
  rerank-ok reranker [] top_k (x ∷ xs) h same = absurd (omega arith)
  rerank-ok reranker (c ∷ cs) top_k scores h same =
      let (pairs, zipped, left, right) = zip_strict-total (c ∷ cs) scores same in
      let all = sort_descending less by_score (map with_score pairs) in
      (
        pairs,
        all,
        left,
        right,
        sort_descending-perm less by_score (map with_score pairs),
        sort-IsDescending less by_score fl.order (map with_score pairs),
        rw h (finish (zip_strict (c ∷ cs) scores) pairs zipped),
      )
    where
      finish :
          (z : Option (List (RetrievedChunk F × F))) (pairs : List (RetrievedChunk F × F))
          → z ≡ some pairs
          → elim z [ none ↦ none | some ps ↦ some (best top_k ps) ] ≡ some (best top_k pairs)
      finish z pairs e = rw e

  -- The entries of `scores_by_index`, in the order of the candidates.
  unfoldable pub in_order : Dict ℕ F → ℕ → ℕ → List F
  unfolding Dict.get_or
  in_order d i zero = []
  in_order d i (suc n) = Dict.get_or i zero_f d ∷ in_order d (i + 1) n

  -- `{result.index: result.relevance_score for result in response.results}`
  unfoldable pub scores_by_index : List (ℕ × F) → Dict ℕ F → Dict ℕ F
  unfolding Dict.insert
  scores_by_index [] d = d
  scores_by_index ((i, score) ∷ rs) d = scores_by_index rs (Dict.insert i score d)

  -- `CohereRerankerProvider.score`, over the answer of the API.
  unfoldable pub cohere_score : (List Text → Result (List (ℕ × F))) → List Text → Result (List F)
  unfolding in_order scores_by_index
  cohere_score api [] = ok []
  cohere_score api (t ∷ ts) = elim (api (t ∷ ts)) [
    | err e ↦ err vector_store_error
    | ok results ↦ ok (in_order (scores_by_index results []) 0 (length (t ∷ ts)))
  ]

  get_elem?-in_order :
      (d : Dict ℕ F) (i n k : ℕ)
      → k < n
      → get_elem? (in_order d i n) k ≡ some (Dict.get_or (i + k) zero_f d)
  unfolding in_order
  get_elem?-in_order d i zero k h = absurd (omega arith)
  get_elem?-in_order d i (suc n) zero h = let e : i + 0 ≡ i = omega arith in rw e
  get_elem?-in_order d i (suc n) (suc k) h =
      let e : i + suc k ≡ i + 1 + k = omega arith in
      rw e (get_elem?-in_order d (i + 1) n k (omega arith))

  length-in_order : (d : Dict ℕ F) (i n : ℕ) → length (in_order d i n) ≡ n
  unfolding in_order
  length-in_order d i zero = refl
  length-in_order d i (suc n) = ap suc (length-in_order d (i + 1) n)

  -- The score of index `i` in the answer: that of its last entry, or zero.
  abbrev pub last_score : ℕ → F → List (ℕ × F) → F
  last_score i score [] = score
  last_score i score ((j, x) ∷ rs) = last_score i (if j == i then x else score) rs

  get_or-scores_by_index :
      (i : ℕ) (rs : List (ℕ × F)) (d : Dict ℕ F)
      → Dict.get_or i zero_f (scores_by_index rs d) ≡ last_score i (Dict.get_or i zero_f d) rs
  unfolding scores_by_index
  get_or-scores_by_index i [] d = refl
  get_or-scores_by_index i ((j, x) ∷ rs) d =
      get_or-scores_by_index i rs (Dict.insert j x d)
      ∙ ap (λ o. last_score i o rs) (step (Dict.lookup-insert j i x d))
    where
      step :
          Dict.lookup i (Dict.insert j x d) ≡ (if j == i then some x else Dict.lookup i d)
          → Dict.get_or i zero_f (Dict.insert j x d)
            ≡ (if j == i then x else Dict.get_or i zero_f d)
      step e = unfold Dict.get_or in ground arith

  -- However the API orders its answer and whatever it leaves out, once it answers, Cohere's scores
  -- come back, one for each candidate, in the order of the candidates: at place `i` the score that
  -- the answer has for index `i` (the last one, if it has several), or zero.
  pub cohere_score-in_order :
      (api : List Text → Result (List (ℕ × F))) (candidates : List Text) (results : List (ℕ × F))
      (i : ℕ)
      → api candidates ≡ ok results
      → i < length candidates
      → (scores : List F) × (cohere_score api candidates ≡ ok scores)
        × (length scores ≡ length candidates)
        × (get_elem? scores i ≡ some (last_score i zero_f results))
  unfolding cohere_score
  cohere_score-in_order api [] results i a lt = absurd (omega arith)
  cohere_score-in_order api (t ∷ ts) results i a lt =
      let d = scores_by_index results [] in
      (
        in_order d 0 (length (t ∷ ts)),
        rw (a, cohere_score),
        length-in_order d 0 (length (t ∷ ts)),
        get_elem?-in_order d 0 (length (t ∷ ts)) i lt ∙ ap some at,
      )
    where
      at : Dict.get_or (0 + i) zero_f (scores_by_index results []) ≡ last_score i zero_f results
      at =
          let e : 0 + i ≡ i = omega arith in
          rw e (
            get_or-scores_by_index i results []
            ∙ ap (λ o. last_score i o results) (unfold Dict.get_or Dict.lookup in refl))
