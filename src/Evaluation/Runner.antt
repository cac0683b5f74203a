-- ===== src/Evaluation/Runner.antt =====
-- app/evaluation/evaluation_runner.py: a dataset through the stages of retrieval, the prompt, the model
-- and the judge. The embedding service remembers between its calls that its first provider has failed,
-- so that an example leaves a state for the next one. The pauses between questions are left out.
use rag_kb.Base.{
  ℕ, ◌≡◌, ◌⊎◌, Bool, List, [], ◌∷◌, map, none, some, leb, true, not, length, if◌then◌else◌,
}
use rag_kb.Base.Text.{Text, codes, join}
use rag_kb.Errors.{AppError, Result, Outcome, returned, raised, uncaught, of_option}
use rag_kb.Documents.{ChunkRow}
use rag_kb.Retrieval.{CompressedChunk, RetrievedChunk, RankedChunk, Bm25Document}
use rag_kb.Retrieval.Rerank.{rerank}
use rag_kb.Retrieval.Pipeline.{Pipeline, retrieve, stages}
use rag_kb.Prompts.{ChatMessage, ChunkWithSource, LlmResponse, build, prompt_messages, history_of}
use rag_kb.Prompts.Sources.{context_of}
use rag_kb.Conversations.{chunks_for_knowledge_base, bm25_document}
use rag_kb.Evaluation.{RetrievalScores, score_retrieval}
use rag_kb.Evaluation.Judge.{Tried, done, threw, ◌>>=◌, rescue, JudgeJson, judge}
use rag_kb.Evaluation.Results.{EvalExample, EvalDataset, ExampleResult, is_none}

-- `EvaluationRunner.__init__`, and the texts of exceptions. The embedding service has a state, and its
-- calls stand for those of `pipeline`.
pub record EvaluationRunner : Type 1 where
  pub pipeline : Pipeline
  pub Embedder : Type 0
  pub embed_text : Embedder → Text → Result pipeline.vectors.Vector × Embedder
  pub embed_texts : Embedder → List Text → Result (List pipeline.vectors.Vector) × Embedder
  pub chat : List ChatMessage → Tried LlmResponse
  pub judge_json : JudgeJson
  pub text_of : AppError → Text
  pub text_of_uncaught : Text

module _ (r : EvaluationRunner) where
  abbrev pub Score : Type 0
  Score = r.pipeline.floats.F

  -- The stages for a question, with the embedding service in a state: the question is embedded first,
  -- and the texts of chunks behind it.
  abbrev pub pipeline_at : r.Embedder → Text → Pipeline
  pipeline_at m question = record r.pipeline {
    embed_text = λ t. (r.embed_text m t).0;
    embed_texts = λ ts. (r.embed_texts (r.embed_text m question).1 ts).0;
  }

  abbrev ranked_from :
      (p : Pipeline)
      → Text
      → Outcome (List (RetrievedChunk p.floats.F))
      → Outcome (List (RankedChunk p.floats.F))
  ranked_from p question (returned candidates) =
      of_option (rerank p.floats (p.reranker question) candidates p.rerank_top_k)
  ranked_from p question (raised e) = raised e
  ranked_from p question uncaught = uncaught

  -- What the deduplication embeds: the texts of more than one ranked chunk.
  abbrev embedded_behind :
      r.Embedder → Outcome (List (RankedChunk r.pipeline.floats.F)) → r.Embedder
  embedded_behind m (returned ranked) =
      if leb (length ranked) 1
      then m
      else (r.embed_texts m (map (λ (c : RankedChunk r.pipeline.floats.F). c.text) ranked)).1
  embedded_behind m (raised e) = m
  embedded_behind m uncaught = m

  -- The state of the embedding service behind the stages for a question.
  unfoldable pub embedder_after : ℕ → List Bm25Document → r.Embedder → Text → r.Embedder
  unfolding retrieve rerank
  embedder_after knowledge_base_id bm25_documents m question =
      let p = pipeline_at m question in
      embedded_behind (r.embed_text m question).1 (
        ranked_from p question
          (retrieve p knowledge_base_id question bm25_documents p.retrieval_top_k))

  abbrev pub Whole : Type 0
  Whole = r.judge_json.Whole

  abbrev pub tried : {A : Type 0} → Outcome A → Tried A
  tried (returned a) = done a
  tried (raised e) = threw (r.text_of e)
  tried uncaught = threw r.text_of_uncaught

  abbrev pub retrieved : EvalExample → List (CompressedChunk Score) → RetrievalScores
  retrieved x compressed =
      score_retrieval (map (λ (c : CompressedChunk Score). c.chunk_id) compressed)
        x.relevant_chunk_ids

  abbrev pub without_answer : EvalExample → List (CompressedChunk Score) → ExampleResult Whole
  without_answer x compressed = record {
    question = x.question;
    retrieval = retrieved x compressed;
    answer = none;
    generated_answer = none;
    error = none;
  }

  abbrev pub failed : EvalExample → Text → ExampleResult Whole
  failed x e = record {
    question = x.question;
    retrieval = score_retrieval [] x.relevant_chunk_ids;
    answer = none;
    generated_answer = none;
    error = some e;
  }

  abbrev pub for_evaluation : CompressedChunk Score → ChunkWithSource Score
  for_evaluation c = record { chunk = c; source_filename = codes "evaluation" }

  abbrev pub with_answer :
      EvalExample → List (CompressedChunk Score) → LlmResponse → ExampleResult Whole
  with_answer x compressed llm_response = record {
    question = x.question;
    retrieval = retrieved x compressed;
    answer = some (
        judge r.judge_json r.chat x.question
          (join (codes "\n\n") (map (λ (c : CompressedChunk Score). c.text) compressed))
          llm_response.content x.reference_answer);
    generated_answer = some llm_response.content;
    error = none;
  }

  abbrev pub answer : EvalExample → List (CompressedChunk Score) → Tried (ExampleResult Whole)
  answer x compressed = do
    prompt ← tried (of_option (build x.question (map for_evaluation compressed) none))
    llm_response ← r.chat prompt.messages
    done (with_answer x compressed llm_response)

  -- `_evaluate_example`
  unfoldable pub evaluate_example :
      ℕ → List Bm25Document → Bool → r.Embedder → EvalExample → ExampleResult Whole
  unfolding stages score_retrieval build judge
  evaluate_example knowledge_base_id bm25_documents evaluate_answers m x = rescue (failed x) (
      tried (stages (pipeline_at m x.question) knowledge_base_id x.question bm25_documents)
      >>= λ compressed.
          if evaluate_answers then answer x compressed else done (without_answer x compressed))

  -- `_load_bm25_corpus`
  unfoldable pub load_bm25_corpus : ℕ → List ChunkRow → List Bm25Document
  unfolding chunks_for_knowledge_base
  load_bm25_corpus knowledge_base_id rows =
      map bm25_document (chunks_for_knowledge_base knowledge_base_id rows)

  -- The loop of `run` over the examples, from a state of the embedding service on.
  unfoldable pub run_loop :
      ℕ
      → List Bm25Document
      → Bool
      → r.Embedder
      → List EvalExample
      → List (ExampleResult Whole) × r.Embedder
  unfolding evaluate_example embedder_after
  run_loop kb_id docs evaluate_answers m [] = ([], m)
  run_loop kb_id docs evaluate_answers m (x ∷ xs) =
      let (results, m') =
        run_loop kb_id docs evaluate_answers (embedder_after kb_id docs m x.question) xs in
      (evaluate_example kb_id docs evaluate_answers m x ∷ results, m')

  -- `run`: the results, and the state that it leaves the embedding service in.
  unfoldable pub run :
      EvalDataset → Bool → List ChunkRow → r.Embedder → List (ExampleResult Whole) × r.Embedder
  unfolding run_loop load_bm25_corpus
  run dataset evaluate_answers rows m =
      run_loop dataset.knowledge_base_id (load_bm25_corpus dataset.knowledge_base_id rows)
        evaluate_answers m dataset.examples

  -- An example that is scored on the chunks that the stages gave, with an answer and its scores
  -- exactly if answers are evaluated.
  pub record Scored (evaluate_answers : Bool) (x : EvalExample)
      (compressed : List (CompressedChunk Score)) (result : ExampleResult Whole) : Type 0 where
    pub no_error : result.error ≡ none
    pub same_question : result.question ≡ x.question
    pub scored : result.retrieval ≡ retrieved x compressed
    pub judged : is_none result.answer ≡ not evaluate_answers
    pub answered : is_none result.generated_answer ≡ not evaluate_answers

  abbrev messages : EvalExample → List (CompressedChunk Score) → List ChatMessage
  messages x cs = prompt_messages (context_of (map for_evaluation cs)) x.question (history_of none)

  -- Why an example fails, with which text: the stages raise, or an answer is asked for and the model
  -- fails.
  abbrev pub Fails : ℕ → List Bm25Document → Bool → r.Embedder → EvalExample → Text → Type 0
  Fails kb_id docs evaluate_answers m x e =
      ((error : AppError) × (stages (pipeline_at m x.question) kb_id x.question docs ≡ raised error)
        × (e ≡ r.text_of error))
      ⊎ ((stages (pipeline_at m x.question) kb_id x.question docs ≡ uncaught)
          × (e ≡ r.text_of_uncaught))
      ⊎ ((cs : List (CompressedChunk Score)) × (stages (pipeline_at m x.question) kb_id x.question
              docs
            ≡ returned cs)
          × (evaluate_answers ≡ true)
          × (r.chat (messages x cs) ≡ threw e))

  -- What becomes of one example: an error, with the scores of an empty retrieval; or its scores.
  abbrev pub Evaluated :
      ℕ → List Bm25Document → Bool → r.Embedder → EvalExample → ExampleResult Whole → Type 0
  Evaluated kb_id docs evaluate_answers m x result =
      ((e : Text) × Fails kb_id docs evaluate_answers m x e × (result ≡ failed x e))
      ⊎ ((cs : List (CompressedChunk Score)) × (stages (pipeline_at m x.question) kb_id x.question
              docs
            ≡ returned cs)
          × Scored evaluate_answers x cs result)

  -- The results of a run: one for each example, in the state that the ones before it leave.
  pub data Evaluations (kb_id : ℕ) (docs : List Bm25Document) (evaluate_answers : Bool)
      : r.Embedder → List EvalExample → List (ExampleResult Whole) → Type 0 where
    no_more : (m : r.Embedder) → Evaluations kb_id docs evaluate_answers m [] []
    and_then :
        (m : r.Embedder) (x : EvalExample) (xs : List EvalExample) (result : ExampleResult Whole)
        (results : List (ExampleResult Whole))
        → Evaluated kb_id docs evaluate_answers m x result
        → Evaluations kb_id docs evaluate_answers
            (embedder_after kb_id docs m x.question)
            xs
            results
        → Evaluations kb_id docs evaluate_answers m (x ∷ xs) (result ∷ results)
