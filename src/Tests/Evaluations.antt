-- ===== src/Tests/Evaluations.antt =====
-- A judge whose answer stands in a fence, and a run over two examples.
use rag_kb.Base.{ℕ, ◌≡◌, refl, Bool, true, map, List, [], ◌∷◌, ◌++◌, none, length}
use rag_kb.Errors.{ok}
use rag_kb.Base.Text.{codes}
use rag_kb.Documents.{ChunkRow}
use rag_kb.Evaluation.Judge.{JudgeJson, done, threw, loaded, parse_scores}
use rag_kb.Evaluation.Fences.{object, parse_scores-wrapped}
use rag_kb.Evaluation.Results.{EvalExample, EvalDataset}
use rag_kb.Evaluation.Runner.{EvaluationRunner}
use rag_kb.Tests.Guards.{lengths}

-- Every object says the length of its text.
abbrev lengths_json : JudgeJson
lengths_json = record {
  Data = ℕ;
  Whole = ℕ;
  zero_whole = 0;
  loads = λ t. done (length t);
  int_of = λ d key. done d;
  str_of = λ d key. [];
}

parse_scores-wrapped_example :
    parse_scores lengths_json (codes "```json\n" ++ (object (codes "1") ++ codes "\n```"))
    ≡ loaded lengths_json (done 3)
parse_scores-wrapped_example =
    parse_scores-wrapped lengths_json (codes "```json\n") (codes "1") (codes "\n```") refl refl

abbrev runner : EvaluationRunner
runner = record {
  pipeline = lengths;
  Embedder = Bool;
  embed_text = λ m t. (ok (length t), true);
  embed_texts = λ m ts. (ok (map length ts), m);
  chat = λ ms. threw (codes "offline");
  judge_json = lengths_json;
  text_of = λ e. codes "error";
  text_of_uncaught = codes "uncaught";
}

abbrev example : EvalExample
example = record { question = codes "why"; relevant_chunk_ids = "c" ∷ []; reference_answer = none }

abbrev dataset : EvalDataset
dataset = record { knowledge_base_id = 2; examples = example ∷ example ∷ [] }

abbrev rows : List ChunkRow
rows =
    record { id = "c"; document_id = 7; knowledge_base_id = 2; chunk_index = 0; text = codes "so" }
    ∷ []
