-- ===== src/Evaluation/Results.antt =====
-- app/evaluation/base.py: datasets, results and their averages. The latencies, the metadata of
-- examples and the description of a run are left out. An average of floats is the list of its summands
-- with the count that divides their sum.
use rag_kb.Base.{
  ℕ, Bool, true, false, String, List, [], ◌∷◌, map, Option, none, some, length, filterb, is_empty,
  if◌then◌else◌,
}
use rag_kb.Base.Text.{Text}
use rag_kb.Evaluation.{Score, RetrievalScores}
use rag_kb.Evaluation.Judge.{AnswerScores}

pub record EvalExample : Type 0 where
  pub question : Text
  pub relevant_chunk_ids : List String
  pub reference_answer : Option Text

pub record EvalDataset : Type 0 where
  pub knowledge_base_id : ℕ
  pub examples : List EvalExample

pub record ExampleResult (I : Type 0) : Type 0 where
  pub question : Text
  pub retrieval : RetrievalScores
  pub answer : Option (AnswerScores I)
  pub generated_answer : Option Text
  pub error : Option Text

pub record Mean (A : Type 0) : Type 0 where
  pub summands : List A
  pub count : ℕ

pub record RetrievalAverages : Type 0 where
  pub hit_rate : Mean Bool
  pub recall_at_k : Mean Score
  pub precision_at_k : Mean Score
  pub mrr : Mean Score

pub record AnswerAverages (I : Type 0) : Type 0 where
  pub correctness : Mean I
  pub groundedness : Mean I
  pub completeness : Mean I

abbrev pub is_none : {A : Type 0} → Option A → Bool
is_none none = true
is_none (some a) = false

-- `[x for x in options if x is not None]`
abbrev pub present : {A : Type 0} → List (Option A) → List A
present [] = []
present (none ∷ os) = present os
present (some a ∷ os) = a ∷ present os

abbrev pub mean_of : {A B : Type 0} → (A → B) → List A → Mean B
mean_of f xs = record { summands = map f xs; count = length xs }

module _ {I : Type 0} where
  -- `aggregate_retrieval`, with `none` for the empty dictionary.
  unfoldable pub aggregate_retrieval : List (ExampleResult I) → Option RetrievalAverages
  aggregate_retrieval results =
      let scored =
        map (λ (r : ExampleResult I). r.retrieval)
          (filterb (λ (r : ExampleResult I). is_none r.error) results) in
      if is_empty scored
      then none
      else some (record {
        hit_rate = mean_of (λ (r : RetrievalScores). r.hit) scored;
        recall_at_k = mean_of (λ (r : RetrievalScores). r.recall_at_k) scored;
        precision_at_k = mean_of (λ (r : RetrievalScores). r.precision_at_k) scored;
        mrr = mean_of (λ (r : RetrievalScores). r.mrr) scored;
      })

  -- `aggregate_answers`
  unfoldable pub aggregate_answers : List (ExampleResult I) → Option (AnswerAverages I)
  aggregate_answers results =
      let judged = present (map (λ (r : ExampleResult I). r.answer) results) in
      if is_empty judged
      then none
      else some (record {
        correctness = mean_of (λ (a : AnswerScores I). a.correctness) judged;
        groundedness = mean_of (λ (a : AnswerScores I). a.groundedness) judged;
        completeness = mean_of (λ (a : AnswerScores I). a.completeness) judged;
      })
