-- ===== src/Tests/Guards.antt =====
-- The guardrails, the stages of retrieval and the sources of a prompt.
use rag_kb.Base.{
  ℕ, ◌≡◌, refl, ◌↔◌, true, false, ◌&&◌, List, [], ◌∷◌, map, none, some, if◌then◌else◌, length,
  arith, subst, sym,
}
use rag_kb.Base.Text.{Text, codes}
use rag_kb.Base.Equality.{elem, nat_eq, string_eq}
use rag_kb.Errors.{Result, ok}
use rag_kb.Guardrails.{Regex, high}
use rag_kb.Guardrails.Injection
use rag_kb.Guardrails.Injection.{prompt_injection}
use rag_kb.Guardrails.Output
use rag_kb.Guardrails.Output.{
  output_check_exact, output_validation, leaks, shows_pii, pii_patterns, redacted_all,
}
use rag_kb.Retrieval.{Bm25Document}
use rag_kb.Retrieval.Pipeline.{Pipeline, AnswersEach, stages, Ends, stages-Ends}
use rag_kb.Prompts.{ChunkWithSource}
use rag_kb.Tests.Inputs.{per_character, thousandths, one_coordinate, lower_letters}

-- A regular expression matches the texts with an `@`.
abbrev pub at_sign : Regex
at_sign = record {
  search_ignoring_case = λ p t. elem 64 t;
  search = λ p t. elem 64 t;
  sub = λ p r t. r;
}

output_check_exact_example :
    (((Output.check at_sign true (codes "a@b")).passed ≡ true) ↔ (
      (leaks at_sign true (codes "a@b") ≡ false)
      × (shows_pii at_sign true (codes "a@b") pii_patterns ≡ false)))
    × (((Output.check at_sign true (codes "a@b")).severity ≡ high)
        ↔ (leaks at_sign true (codes "a@b") ≡ true))
    × ((Output.check at_sign true (codes "a@b")).sanitized_text ≡ (
        if true && shows_pii at_sign true (codes "a@b") pii_patterns
        then some (redacted_all at_sign true (codes "a@b") pii_patterns)
        else none))
output_check_exact_example = output_check_exact at_sign true (codes "a@b")

-- The length of a text is its vector and its score.
abbrev pub lengths : Pipeline
lengths = record {
  floats = thousandths;
  vectors = one_coordinate;
  embed_text = λ t. ok (length t);
  embed_texts = λ ts. ok (map length ts);
  vector_search = λ kb v k. ok [];
  alphabet = lower_letters;
  get_scores = λ docs q. ok (map length docs);
  reranker = λ q ts. ok (map length ts);
  token_counter = per_character;
  top_k_per_method = 4;
  rrf_k = 60;
  retrieval_top_k = 3;
  rerank_top_k = 2;
  similarity_threshold = 2;
  max_context_tokens = 20;
}

same_length :
    (texts : List Text) (xs : List ℕ)
    → Result.ok (map length texts) ≡ ok xs
    → length texts ≡ length xs
same_length texts xs h =
    let e : map length texts ≡ xs = cc h in subst (λ l. length texts ≡ length l) e (mapped texts)
  where
    mapped : (ts : List Text) → length ts ≡ length (map length ts)
    mapped [] = refl
    mapped (t ∷ ts) = omega (arith, mapped ts)

lengths-AnswersEach : AnswersEach lengths
lengths-AnswersEach = record {
  one_score = λ q texts scores h. same_length texts scores h;
  one_vector = λ texts vs h. sym (same_length texts vs h);
}

abbrev one_document : List Bm25Document
one_document =
    record { chunk_id = "c"; document_id = 7; chunk_index = 0; text = codes "why not" } ∷ []

stages-Ends_example : Ends lengths (stages lengths 2 (codes "why") one_document)
stages-Ends_example = stages-Ends lengths lengths-AnswersEach 2 (codes "why") one_document

abbrev cited : ChunkWithSource ℕ
cited = record {
  chunk = record {
    chunk_id = "c";
    document_id = 7;
    chunk_index = 0;
    text = codes "so";
    rerank_score = 1;
    token_count = 2;
  };
  source_filename = codes "a.txt";
}
