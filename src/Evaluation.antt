-- ===== src/Evaluation.antt =====
-- app/evaluation/retrieval_metrics.py: the scores of one question. A fraction of two counts is the
-- pair of them, so that the division of floats is left to the reader of a score.
pub mod Judge
pub mod Fences
pub mod Runner
pub mod Results
use rag_kb.Base.{
  ℕ, suc, ◌+◌, String, ◌≡◌, refl, ap, ◌∙◌, ◌⊎◌, inl, inr, Bool, true, false, List, [], ◌∷◌, some,
  if◌then◌else◌, ltb, length, take, get_elem?, filterb, anyb, is_empty, arith, Bool-cases,
}
use rag_kb.Base.Equality.{string_eq, elem}

-- `0.0`, or the quotient of two counts.
pub data Score : Type 0 where
  zero_score : Score
  quotient : ℕ → ℕ → Score

pub record RetrievalScores : Type 0 where
  pub hit : Bool
  pub recall_at_k : Score
  pub precision_at_k : Score
  pub mrr : Score
  pub retrieved_chunk_ids : List String

-- `set(ids)`, as a list without repetitions.
unfoldable pub distinct : List String → List String
distinct [] = []
distinct (x ∷ xs) = let rest = distinct xs in if elem x rest then rest else x ∷ rest

abbrev reciprocal_rank_from : ℕ → List String → List String → Score
reciprocal_rank_from index relevant [] = zero_score
reciprocal_rank_from index relevant (x ∷ xs) =
    let later = reciprocal_rank_from (suc index) relevant xs in
    if elem x relevant then quotient 1 index else later

-- `_reciprocal_rank`
unfoldable pub reciprocal_rank : List String → List String → Score
reciprocal_rank retrieved relevant = reciprocal_rank_from 1 relevant retrieved

-- `score_retrieval`
unfoldable pub score_retrieval : List String → List String → RetrievalScores
unfolding distinct reciprocal_rank
score_retrieval retrieved relevant_ids =
    let relevant = distinct relevant_ids in
    let retrieved_relevant = filterb (λ cid. elem cid relevant) retrieved in
    if is_empty relevant
    then record {
      hit = false;
      recall_at_k = zero_score;
      precision_at_k = zero_score;
      mrr = zero_score;
      retrieved_chunk_ids = retrieved;
    }
    else record {
      hit = ltb 0 (length retrieved_relevant);
      recall_at_k = quotient (length (distinct retrieved_relevant)) (length relevant);
      precision_at_k =
          if is_empty retrieved
          then zero_score
          else quotient (length retrieved_relevant) (length retrieved);
      mrr = reciprocal_rank retrieved relevant;
      retrieved_chunk_ids = retrieved;
    }

-- What a reciprocal rank says, from the rank `start` on: the chunk at the place `i` is relevant, and
-- none in front of it; or none is.
abbrev pub IsFirstRelevant : ℕ → List String → List String → Score → Type 0
IsFirstRelevant start retrieved relevant score =
    ((i : ℕ) × (x : String) × (score ≡ quotient 1 (start + i))
      × (get_elem? retrieved i ≡ some x)
      × (elem x relevant ≡ true)
      × (anyb (λ y. elem y relevant) (take i retrieved) ≡ false))
    ⊎ ((score ≡ zero_score) × (anyb (λ y. elem y relevant) retrieved ≡ false))

reciprocal_rank_from-first :
    (start : ℕ) (retrieved relevant : List String)
    → IsFirstRelevant start retrieved relevant (reciprocal_rank_from start relevant retrieved)
reciprocal_rank_from-first start [] relevant = inr (refl, refl)
reciprocal_rank_from-first start (x ∷ xs) relevant = elim (Bool-cases (elem x relevant)) [
  | inl here ↦ inl (0, x, rw here (ap (quotient 1) (omega arith)), refl, here, refl)
  | inr not_here ↦ elim (reciprocal_rank_from-first (suc start) xs relevant) [
    | inl (i, y, score, place, relevant_y, before) ↦ inl (
      suc i,
      y,
      rw not_here (score ∙ ap (quotient 1) (omega arith)),
      place,
      relevant_y,
      rw (not_here, anyb) before,
    )
    | inr (score, none_there) ↦ inr (rw not_here score, rw (not_here, anyb) none_there)
  ]
]

-- The reciprocal rank of a question with relevant chunks is 1/(i + 1) for the first place `i` of a
-- relevant chunk among the retrieved ones, and 0 exactly if there is none; `hit` says which.
pub score_retrieval-first :
    (retrieved relevant : List String)
    → is_empty (distinct relevant) ≡ false
    → IsFirstRelevant 1 retrieved (distinct relevant) (score_retrieval retrieved relevant).mrr
      × ((score_retrieval retrieved relevant).hit
          ≡ anyb (λ y. elem y (distinct relevant)) retrieved)
unfolding score_retrieval reciprocal_rank
score_retrieval-first retrieved relevant h =
    (rw h (reciprocal_rank_from-first 1 retrieved (distinct relevant)), rw h (any_filter retrieved))
  where
    any_filter :
        (xs : List String)
        → ltb 0 (length (filterb (λ cid. elem cid (distinct relevant)) xs))
          ≡ anyb (λ y. elem y (distinct relevant)) xs
    any_filter [] = refl
    any_filter (x ∷ xs) = elim (Bool-cases (elem x (distinct relevant))) [
      | inl e ↦ rw (e, filterb, anyb) (ground arith)
      | inr e ↦ rw (e, filterb, anyb) (any_filter xs)
    ]
