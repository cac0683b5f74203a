-- ===== src/Tests/Calls.antt =====
-- Calls of the cache, of the providers, and of the scores of an evaluation.
use rag_kb.Base.{ℕ, ◌≡◌, refl, ◌⊎◌, String, true, false, List, [], ◌∷◌, ◌++◌, none, some}
use rag_kb.Base.Text.{Text, codes}
use rag_kb.Errors.{Result, ok, err, llm_error, all_llm_failed, embedding_error}
use rag_kb.Llm.{
  Stream, stream_chat, stream_chat_exact, failed_llm, EmbeddingResult, embed_texts, session,
  embed_texts_sticky,
}
use rag_kb.Base.Equality.{string_eq}

abbrev no_answer : ℕ → String → Result String
no_answer retries question = err llm_error

abbrev answer : String → Result String
answer question = ok "42"

abbrev broken_stream : Stream
broken_stream = record { chunks = codes "The an" ∷ []; failure = some llm_error }

abbrev whole_stream : Stream
whole_stream = record { chunks = codes "The answer" ∷ []; failure = none }

stream_chat_exact_example :
    ((stream_chat broken_stream whole_stream ≡ broken_stream)
      × (failed_llm broken_stream.failure ≡ false))
    ⊎ (((stream_chat broken_stream whole_stream).chunks
          ≡ broken_stream.chunks ++ whole_stream.chunks)
        × (failed_llm broken_stream.failure ≡ true)
        × (((stream_chat broken_stream whole_stream).failure ≡ some all_llm_failed)
            ⊎ (((stream_chat broken_stream whole_stream).failure ≡ whole_stream.failure)
                × (failed_llm whole_stream.failure ≡ false))))
stream_chat_exact_example = stream_chat_exact broken_stream whole_stream

abbrev no_vectors : List Text → Result (EmbeddingResult ℕ)
no_vectors texts = err embedding_error

abbrev zero_vectors : List Text → Result (EmbeddingResult ℕ)
zero_vectors texts = ok (record { vectors = 0 ∷ []; model_name = codes "zero"; dimension = 1 })

abbrev hello : List Text
hello = codes "hello" ∷ []

embed_texts_sticky_example :
    embed_texts no_vectors zero_vectors hello
      (session no_vectors zero_vectors (hello ∷ hello ∷ []) false)
    ≡ embed_texts zero_vectors zero_vectors hello true
embed_texts_sticky_example =
    embed_texts_sticky no_vectors zero_vectors zero_vectors hello (hello ∷ []) hello false
      (unfold embed_texts in refl)
