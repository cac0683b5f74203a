-- ===== src/Llm.antt =====
-- app/llm/llm_service.py and app/embeddings/embedding_service.py: a primary provider, and a fallback
-- where it fails. The providers, and the retries of tenacity, are parameters.
pub mod Queries
use rag_kb.Base.{
  ◌∙◌, ap, sym, Option-cases, ℕ, ◌≡◌, refl, ◌⊎◌, inl, inr, Bool, true, false, List, [], ◌∷◌, ◌++◌,
  Option, none, some, if◌then◌else◌, Bool-cases,
}
use rag_kb.Base.Text.{Text}
use rag_kb.Errors.{
  AppError, Result, Result-cases, ok, err, is_llm_error, is_embedding_error, all_llm_failed,
  all_embedding_failed,
}

-- The end of `chat`: the fallback, once and without retries.
abbrev fall_back : {A : Type 0} → Result A → Result A
fall_back (ok response) = ok response
fall_back (err e) = if is_llm_error e then err all_llm_failed else err e

abbrev unless_failed : {A : Type 0} → Result A → Result A → Result A
unless_failed (ok response) fallback = ok response
unless_failed (err e) fallback = if is_llm_error e then fall_back fallback else err e

module _ {Messages Response : Type 0} where
  -- `LLMService.chat`: `retried` is the primary provider's call under `_call_with_retry`, with
  -- `max_retries`; both are what the calls return for these messages.
  unfoldable pub chat :
      (ℕ → Messages → Result Response)
      → (Messages → Result Response)
      → ℕ
      → Messages
      → Result Response
  unfolding is_llm_error
  chat retried fallback max_retries messages =
      unless_failed (retried max_retries messages) (fallback messages)

-- A stream: the chunks that it yields, and the exception that ends it early.
pub record Stream : Type 0 where
  pub chunks : List Text
  pub failure : Option AppError

abbrev stream_failure : Option AppError → Option AppError
stream_failure none = none
stream_failure (some e) = some (if is_llm_error e then all_llm_failed else e)

-- Whether a stream has ended with an error of the language models.
abbrev pub failed_llm : Option AppError → Bool
failed_llm none = false
failed_llm (some e) = is_llm_error e

abbrev continued : List Text → Option AppError → Stream → Stream
continued yielded none fallback = record { chunks = yielded; failure = none }
continued yielded (some e) fallback =
    if is_llm_error e
    then record { chunks = yielded ++ fallback.chunks; failure = stream_failure fallback.failure }
    else record { chunks = yielded; failure = some e }

-- `LLMService.stream_chat`
unfoldable pub stream_chat : Stream → Stream → Stream
unfolding is_llm_error
stream_chat primary fallback = continued primary.chunks primary.failure fallback

-- `chat` raises an error of the language models exactly if the primary, after its retries, and the
-- fallback both fail with one; then it is `AllLLMProvidersFailedError`. Any response that it gives is
-- the primary's, or the fallback's where the primary has failed.
pub chat_exact :
    {Messages Response : Type 0} (retried : ℕ → Messages → Result Response)
    (fallback : Messages → Result Response) (max_retries : ℕ) (messages : Messages)
    → ((r : Response) × (chat retried fallback max_retries messages ≡ ok r)
        × ((retried max_retries messages ≡ ok r)
            ⊎ ((e : AppError) × (retried max_retries messages ≡ err e)
                × (is_llm_error e ≡ true)
                × (fallback messages ≡ ok r))))
      ⊎ ((chat retried fallback max_retries messages ≡ err all_llm_failed)
          × ((e : AppError) × (e' : AppError) × (retried max_retries messages ≡ err e)
              × (is_llm_error e ≡ true)
              × (fallback messages ≡ err e')
              × (is_llm_error e' ≡ true)))
      ⊎ ((e : AppError) × (chat retried fallback max_retries messages ≡ err e)
          × (is_llm_error e ≡ false))
unfolding chat
chat_exact retried fallback max_retries messages =
    elim (Result-cases (retried max_retries messages)) [
      | inl (r, answered) ↦ inl (r, rw answered, inl answered)
      | inr (e, failed) ↦ elim (Bool-cases (is_llm_error e)) [
        | inr unknown ↦ inr (inr (e, rw failed (rw unknown), unknown))
        | inl known ↦ elim (Result-cases (fallback messages)) [
          | inl (r, answered) ↦
              inl (r, rw failed (rw known (rw answered)), inr (e, failed, known, answered))
          | inr (e', failed') ↦ elim (Bool-cases (is_llm_error e')) [
            | inl known' ↦ inr (
                inl (
                  rw failed (rw known (rw failed' (rw known'))),
                  (e, e', failed, known, failed', known'),
                ))
            | inr unknown ↦ inr (inr (e', rw failed (rw known (rw failed' (rw unknown))), unknown))
          ]
        ]
      ]
    ]

-- A stream begins with what the primary yields. It is the primary's alone, with its exception, unless
-- that is an error of the language models: then, whatever has been yielded, the whole answer of the
-- fallback follows, and an error of the language models there becomes `AllLLMProvidersFailedError`.
pub stream_chat_exact :
    (primary fallback : Stream)
    → ((stream_chat primary fallback ≡ primary) × (failed_llm primary.failure ≡ false))
      ⊎ (((stream_chat primary fallback).chunks ≡ primary.chunks ++ fallback.chunks)
          × (failed_llm primary.failure ≡ true)
          × (((stream_chat primary fallback).failure ≡ some all_llm_failed)
              ⊎ (((stream_chat primary fallback).failure ≡ fallback.failure)
                  × (failed_llm fallback.failure ≡ false))))
unfolding stream_chat
stream_chat_exact primary fallback = elim (Option-cases primary.failure) [
  | inl complete ↦
      inl (
        ap (λ f. continued primary.chunks f fallback) complete ∙ rebuilt none complete,
        rw complete,
      )
  | inr (e, broken) ↦ elim (Bool-cases (is_llm_error e)) [
    | inr unknown ↦
        let kept : continued primary.chunks (some e) fallback
            ≡ record { chunks = primary.chunks; failure = some e } =
          rw unknown in
        inl (
          ap (λ f. continued primary.chunks f fallback) broken ∙ (kept ∙ rebuilt (some e) broken),
          rw broken unknown,
        )
    | inl known ↦
        inr (
          rw broken (rw known),
          rw broken known,
          rw broken (rw known (failure_of fallback.failure)),
        )
  ]
]
  where
    rebuilt :
        (f : Option AppError)
        → primary.failure ≡ f
        → record { chunks = primary.chunks; failure = f } ≡ primary
    rebuilt f h = ap (λ g. record { chunks = primary.chunks; failure = g }) (sym h)

    failure_of :
        (f : Option AppError)
        → (stream_failure f ≡ some all_llm_failed)
          ⊎ ((stream_failure f ≡ f) × (failed_llm f ≡ false))
    failure_of none = inr (refl, refl)
    failure_of (some e') = elim (Bool-cases (is_llm_error e')) [
      | inl known ↦ inl (rw known)
      | inr unknown ↦ inr (rw unknown, unknown)
    ]

pub record EmbeddingResult (Vector : Type 0) : Type 0 where
  pub vectors : List Vector
  pub model_name : Text
  pub dimension : ℕ

-- A call of `embed_texts`, and the flag `_primary_marked_unavailable` behind it.
module _ {Vector : Type 0} where
  abbrev fallback_result : Result (EmbeddingResult Vector) → Result (EmbeddingResult Vector)
  fallback_result (ok r) = ok r
  fallback_result (err e) = if is_embedding_error e then err all_embedding_failed else err e

  abbrev with_primary :
      Result (EmbeddingResult Vector)
      → Result (EmbeddingResult Vector)
      → Result (EmbeddingResult Vector) × Bool
  with_primary (ok r) fallback = (ok r, false)
  with_primary (err e) fallback =
      if is_embedding_error e then (fallback_result fallback, true) else (err e, false)

  -- `EmbeddingService.embed_texts`
  unfoldable pub embed_texts :
      (List Text → Result (EmbeddingResult Vector))
      → (List Text → Result (EmbeddingResult Vector))
      → List Text
      → Bool
      → Result (EmbeddingResult Vector) × Bool
  unfolding is_embedding_error
  embed_texts primary fallback [] unavailable =
      (ok (record { vectors = []; model_name = []; dimension = 0 }), unavailable)
  embed_texts primary fallback (t ∷ ts) true = (fallback_result (fallback (t ∷ ts)), true)
  embed_texts primary fallback (t ∷ ts) false = with_primary (primary (t ∷ ts)) (fallback (t ∷ ts))

  -- A session of calls, with the flag kept between them.
  abbrev pub session :
      (List Text → Result (EmbeddingResult Vector))
      → (List Text → Result (EmbeddingResult Vector))
      → List (List Text)
      → Bool
      → Bool
  session primary fallback [] unavailable = unavailable
  session primary fallback (ts ∷ calls) unavailable =
      session primary fallback calls (embed_texts primary fallback ts unavailable).1

  session-true :
      (primary fallback : List Text → Result (EmbeddingResult Vector)) (calls : List (List Text))
      → session primary fallback calls true ≡ true
  unfolding embed_texts
  session-true primary fallback [] = refl
  session-true primary fallback ([] ∷ calls) = session-true primary fallback calls
  session-true primary fallback ((t ∷ ts) ∷ calls) = session-true primary fallback calls

  embed_texts-fallback :
      (primary other fallback : List Text → Result (EmbeddingResult Vector)) (texts : List Text)
      → embed_texts primary fallback texts true ≡ embed_texts other fallback texts true
  unfolding embed_texts
  embed_texts-fallback primary other fallback [] = refl
  embed_texts-fallback primary other fallback (t ∷ ts) = refl

  -- The switch to the fallback is for good: once a call has found the primary failing, no later call,
  -- however many stand between, depends on the primary, and none of them mixes the two models.
  pub embed_texts_sticky :
      (primary other fallback : List Text → Result (EmbeddingResult Vector)) (first : List Text)
      (calls : List (List Text)) (texts : List Text) (unavailable : Bool)
      → (embed_texts primary fallback first unavailable).1 ≡ true
      → embed_texts primary fallback texts (session primary fallback (first ∷ calls) unavailable)
        ≡ embed_texts other fallback texts true
  embed_texts_sticky primary other fallback first calls texts unavailable h =
      rw h (
        rw (session-true primary fallback calls)
          (embed_texts-fallback primary other fallback texts))
