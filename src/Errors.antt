-- ===== src/Errors.antt =====
-- The exception classes of app/core/exceptions.py and of the exceptions.py of each package, and the
-- result of code that may raise one of them. A constructor is a class; the message is kept where
-- the code reads it again.
use rag_kb.Base.{Option, none, some, Bool, true, false, ◌≡◌, refl, ◌⊎◌, inl, inr}

pub data AppError : Type 0 where
  not_found conflict validation authentication authorization guardrail_violation : AppError
  chunking_error loader_error vector_store_error : AppError
  llm_error all_llm_failed embedding_error all_embedding_failed : AppError

pub data Result {ℓ} (A : Type ℓ) : Type ℓ where
  ok : A → Result A
  err : AppError → Result A

-- `except LLMError`: the class and its subclass.
unfoldable pub is_llm_error : AppError → Bool
is_llm_error llm_error = true
is_llm_error all_llm_failed = true
is_llm_error _ = false

-- `except EmbeddingError`: the class and its subclass.
unfoldable pub is_embedding_error : AppError → Bool
is_embedding_error embedding_error = true
is_embedding_error all_embedding_failed = true
is_embedding_error _ = false

pub Result-cases {ℓ} :
    {A : Type ℓ} (r : Result A) → ((a : A) × (r ≡ ok a)) ⊎ ((e : AppError) × (r ≡ err e))
Result-cases (ok a) = inl (a, refl)
Result-cases (err e) = inr (e, refl)

-- A call that returns, that raises an exception of the program, or one of Python's own.
pub data Outcome (A : Type 0) : Type 0 where
  returned : A → Outcome A
  raised : AppError → Outcome A
  uncaught : Outcome A

pub Outcome-cases :
    {A : Type 0} (o : Outcome A)
    → ((a : A) × (o ≡ returned a)) ⊎ ((e : AppError) × (o ≡ raised e)) ⊎ (o ≡ uncaught)
Outcome-cases (returned a) = inl (a, refl)
Outcome-cases (raised e) = inr (inl (e, refl))
Outcome-cases uncaught = inr (inr refl)

infixl 5 ◌>>=◌
abbrev pub ◌>>=◌ : {A B : Type 0} → Outcome A → (A → Outcome B) → Outcome B
returned a >>= f = f a
raised e >>= f = raised e
uncaught >>= f = uncaught

abbrev pub of_result : {A : Type 0} → Result A → Outcome A
of_result (ok a) = returned a
of_result (err e) = raised e

abbrev pub of_option : {A : Type 0} → Option A → Outcome A
of_option none = uncaught
of_option (some a) = returned a

abbrev pub of_both : {A : Type 0} → Result (Option A) → Outcome A
of_both (ok o) = of_option o
of_both (err e) = raised e
