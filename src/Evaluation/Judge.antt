-- ===== src/Evaluation/Judge.antt =====
-- app/evaluation/answer_judge.py: the scores that a language model gives to an answer. JSON and the
-- integers of Python are parameters.
use rag_kb.Base.{
  ℕ, suc, ◌+◌, ◌-◌, List, [], ◌∷◌, ◌++◌, Option, none, some, if◌then◌else◌, length, take, drop, leb,
  is_empty, ◌&&◌,
}
use rag_kb.Base.Equality.{◌==◌, nat_eq, list_eq}
use rag_kb.Base.Text.{Text, codes, strip, starts_with, find}
use rag_kb.Prompts.{ChatMessage, system, user, LlmResponse}

-- A call that returns, or that raises an exception with a text.
pub data Tried (A : Type 0) : Type 0 where
  done : A → Tried A
  threw : Text → Tried A

infixl 5 ◌>>=◌
abbrev pub ◌>>=◌ : {A B : Type 0} → Tried A → (A → Tried B) → Tried B
done a >>= f = f a
threw e >>= f = threw e

-- `except Exception as exc`
abbrev pub rescue : {A : Type 0} → (Text → A) → Tried A → A
rescue f (done a) = a
rescue f (threw e) = f e

-- `json.loads`, and `int(data.get(key, 0))` and `str(data.get(key, ""))` of what it gives.
pub record JudgeJson : Type 1 where
  pub Data : Type 0
  pub Whole : Type 0
  pub zero_whole : Whole
  pub loads : Text → Tried Data
  pub int_of : Data → Text → Tried Whole
  pub str_of : Data → Text → Text

pub record AnswerScores (I : Type 0) : Type 0 where
  pub correctness : I
  pub groundedness : I
  pub completeness : I
  pub reasoning : Text

abbrev pub remove_prefix : Text → Text → Text
remove_prefix p t = if starts_with p t then drop (length p) t else t

abbrev pub remove_suffix : Text → Text → Text
remove_suffix p t =
    if leb (length p) (length t) && (drop (length t - length p) t == p)
    then take (length t - length p) t
    else t

-- `t.rfind(c)` for one character, with `none` for -1.
unfoldable pub rfind : ℕ → Text → Option ℕ
rfind c [] = none
rfind c (x ∷ xs) = elim (rfind c xs) [
  | some i ↦ some (suc i)
  | none ↦ if x == c then some 0 else none
]

abbrev pub fence : Text
fence = codes "```"

abbrev pub json_fence : Text
json_fence = codes "```json"

-- `raw_response` without the fences.
unfoldable pub cleaned : Text → Text
unfolding strip starts_with
cleaned raw = remove_suffix fence (remove_prefix fence (remove_prefix json_fence (strip raw)))

-- `cleaned[start : end + 1]`
abbrev pub between : ℕ → ℕ → Text → Text
between start last t = take (last + 1 - start) (drop start t)

-- From the first brace to the last one, where there are both.
abbrev pub object_from : Text → Option ℕ → Option ℕ → Option Text
object_from t none last = none
object_from t (some start) none = none
object_from t (some start) (some last) = some (between start last t)

unfoldable pub json_object : Text → Option Text
unfolding find rfind
json_object t = object_from t (find (codes "{") t) (rfind 125 t)

unfoldable pub judge_system_prompt : Text
judge_system_prompt =
    codes
      "You are an impartial evaluator of question-answering systems. You will be given a question, the context documents that were retrieved, the answer that was generated, and optionally a reference answer.\n"
    ++ (codes "\n"
        ++ (codes "Score the generated answer on three criteria, each from 1 to 5:\n"
            ++ (codes "\n"
                ++ (codes "CORRECTNESS (is the answer factually right?)\n"
                    ++ (codes "5 - Fully correct and matches the reference/facts\n"
                        ++ (codes "4 - Correct with minor imprecision\n"
                            ++ (codes "3 - Partially correct, some errors\n"
                                ++ (codes "2 - Mostly incorrect\n"
                                    ++ (codes "1 - Entirely incorrect\n"
                                        ++ (codes "\n"
                                            ++ (codes
                                                  "GROUNDEDNESS (is every claim supported by the provided context?)\n"
                                                ++ (codes
                                                      "5 - Every claim traceable to the context\n"
                                                    ++ (codes
                                                          "4 - Almost entirely grounded, one minor unsupported detail\n"
                                                        ++ (codes
                                                            "3 - Mix of grounded and unsupported claims\n"
                                                            ++ (codes
                                                            "2 - Mostly unsupported by the context\n"
                                                            ++ (codes
                                                            "1 - Fabricated; contradicts or ignores the context\n"
                                                            ++ (codes
                                                            "Note: correctly stating \"the context does not contain this information\" is FULLY GROUNDED and should score 5.\n"
                                                            ++ (codes "\n"
                                                            ++ (codes
                                                            "COMPLETENESS (does it address the whole question?)\n"
                                                            ++ (codes
                                                            "5 - Fully addresses every part of the question\n"
                                                            ++ (codes
                                                            "4 - Addresses the main point, minor omission\n"
                                                            ++ (codes "3 - Addresses roughly half\n"
                                                            ++ (codes
                                                            "2 - Barely addresses the question\n"
                                                            ++ (codes
                                                            "1 - Does not address the question\n"
                                                            ++ (codes "\n"
                                                            ++ (codes
                                                            "Respond with ONLY a JSON object, no other text:\n"
                                                            ++ (codes
                                                            "{\"correctness\": <1-5>, \"groundedness\": <1-5>, \"completeness\": <1-5>, \"reasoning\": \"<one or two sentences explaining the scores>\"}\n")))))))))))))))))))))))))))

-- `_JUDGE_USER_TEMPLATE.format(...)`
unfoldable pub judge_user_prompt : Text → Text → Text → Text → Text
judge_user_prompt question context generated_answer reference_section =
    codes "QUESTION:\n"
    ++ (question
        ++ (codes "\n\nRETRIEVED CONTEXT:\n"
            ++ (context
                ++ (codes "\n\nGENERATED ANSWER:\n"
                    ++ (generated_answer
                        ++ (codes "\n"
                            ++ (reference_section
                                ++ codes "\nScore the generated answer now.")))))))

-- An empty reference is none.
abbrev pub reference_section : Option Text → Text
reference_section none = []
reference_section (some t) =
    if is_empty t then [] else codes "\nREFERENCE ANSWER:\n" ++ (t ++ codes "\n")

module _ (j : JudgeJson) where
  open j use {Data, Whole, zero_whole, loads, int_of, str_of}

  abbrev pub no_scores : Text → AnswerScores Whole
  no_scores reasoning = record {
    correctness = zero_whole;
    groundedness = zero_whole;
    completeness = zero_whole;
    reasoning = reasoning;
  }

  -- The scores of an object.
  abbrev pub scores_in : Data → Tried (AnswerScores Whole)
  scores_in d = do
    c ← int_of d (codes "correctness")
    g ← int_of d (codes "groundedness")
    k ← int_of d (codes "completeness")
    done (record {
      correctness = c;
      groundedness = g;
      completeness = k;
      reasoning = str_of d (codes "reasoning");
    })

  abbrev pub loaded : Tried Data → Tried (AnswerScores Whole)
  loaded (threw e) = done (no_scores (codes "Judge returned invalid JSON: " ++ e))
  loaded (done d) = scores_in d

  abbrev pub parsed : Text → Option Text → Tried (AnswerScores Whole)
  parsed raw none = done (no_scores (codes "Judge returned no JSON: " ++ take 200 raw))
  parsed raw (some object) = loaded (loads object)

  -- `_parse_scores`
  unfoldable pub parse_scores : Text → Tried (AnswerScores Whole)
  unfolding cleaned json_object
  parse_scores raw = parsed raw (json_object (cleaned raw))

  abbrev pub judge_messages : Text → Text → Text → Option Text → List ChatMessage
  judge_messages question retrieved_context generated_answer reference_answer =
      let first : ChatMessage = record { role = system; content = judge_system_prompt } in
      let last : ChatMessage = record {
        role = user;
        content =
            judge_user_prompt question retrieved_context generated_answer
              (reference_section reference_answer);
      } in
      first ∷ last ∷ []

  -- `judge`
  unfoldable pub judge :
      (List ChatMessage → Tried LlmResponse) → Text → Text → Text → Option Text → AnswerScores Whole
  unfolding parse_scores judge_system_prompt judge_user_prompt
  judge chat question retrieved_context generated_answer reference_answer =
      rescue (λ e. no_scores (codes "Judging failed: " ++ e))
        (chat (judge_messages question retrieved_context generated_answer reference_answer)
          >>= λ response. parse_scores response.content)
