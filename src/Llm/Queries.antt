-- ===== src/Llm/Queries.antt =====
-- `EmbeddingService.embed_text` of app/embeddings/embedding_service.py: the embedding of a question,
-- with the cache of app/core/cache.py in front of it.
use rag_kb.Base.{
  ℕ, ◌≡◌, ap, sym, ◌∙◌, ◌⊎◌, inl, inr, Bool, true, List, [], ◌∷◌, Option, none, some, if◌then◌else◌,
  Option-cases,
}
use rag_kb.Base.Text.{Text, codes}
use rag_kb.Errors.{Result, ok, err, Outcome, returned, raised, uncaught}
use rag_kb.Cache
use rag_kb.Cache.{Redis, IsRedis, Json, build_key_of, get-set}
use rag_kb.Llm.{EmbeddingResult, embed_texts}

-- `EmbeddingService.__init__`
pub record EmbeddingService (Vector : Type 0) : Type 1 where
  pub redis : Redis
  pub json : Json Vector
  pub sha : Text → Text
  pub has_cache : Bool
  pub cache_enabled : Bool
  pub cache_ttl_seconds : ℕ
  pub primary : List Text → Result (EmbeddingResult Vector)
  pub fallback : List Text → Result (EmbeddingResult Vector)

module _ {Vector : Type 0} (s : EmbeddingService Vector) where
  -- What the service keeps: `_primary_marked_unavailable`, and the state of Redis.
  pub record Kept : Type 0 where
    pub unavailable : Bool
    pub cache : s.redis.State

  abbrev pub vector_key : Text → Text
  vector_key text = build_key_of s.sha (codes "embedding" ∷ []) text

  abbrev pub cached_vector : Text → s.redis.State → Option Vector
  cached_vector text state =
      if s.has_cache then Cache.get s.redis s.json s.cache_enabled (vector_key text) state else none

  abbrev pub cache_vector : Text → Vector → s.redis.State → s.redis.State
  cache_vector text vector state =
      if s.has_cache
      then Cache.set s.redis s.json s.cache_enabled (vector_key text) vector s.cache_ttl_seconds
          state
      else state

  -- `result.vectors[0]`, with the write of the cache.
  abbrev pub first_vector : Text → s.redis.State → Bool → List Vector → Outcome Vector × Kept
  first_vector text state unavailable [] =
      (uncaught, record { unavailable = unavailable; cache = state })
  first_vector text state unavailable (v ∷ vs) =
      (returned v, record { unavailable = unavailable; cache = cache_vector text v state })

  abbrev pub embedded :
      Text → s.redis.State → Result (EmbeddingResult Vector) × Bool → Outcome Vector × Kept
  embedded text state (err e, unavailable) =
      (raised e, record { unavailable = unavailable; cache = state })
  embedded text state (ok result, unavailable) = first_vector text state unavailable result.vectors

  abbrev pub or_embedded : Text → Kept → Option Vector → Outcome Vector × Kept
  or_embedded text k (some vector) = (returned vector, k)
  or_embedded text k none =
      embedded text k.cache (embed_texts s.primary s.fallback (text ∷ []) k.unavailable)

  -- `embed_text`
  unfoldable pub embed_text : Text → Kept → Outcome Vector × Kept
  unfolding embed_texts build_key_of Cache.get Cache.set
  embed_text text k = or_embedded text k (cached_vector text k.cache)

  -- How a call ends behind the cache: with a vector that is written to the cache, or with the cache
  -- left as it was.
  or_embedded-cases :
      (text : Text) (k : Kept) (v : Vector) (k' : Kept)
      → or_embedded text k none ≡ (returned v, k')
      → k'.cache ≡ cache_vector text v k.cache
  or_embedded-cases text k v k' h =
      by_call (embed_texts s.primary s.fallback (text ∷ []) k.unavailable) h
    where
      by_vectors :
          (u : Bool) (vs : List Vector)
          → first_vector text k.cache u vs ≡ (returned v, k')
          → k'.cache ≡ cache_vector text v k.cache
      by_vectors u [] e = cc
      by_vectors u (x ∷ vs) e =
          let same : x ≡ v = cc in
          ap (λ (p : Outcome Vector × Kept). p.1.cache) (sym e)
          ∙ ap (λ (y : Vector). cache_vector text y k.cache) same

      by_call :
          (c : Result (EmbeddingResult Vector) × Bool)
          → embedded text k.cache c ≡ (returned v, k')
          → k'.cache ≡ cache_vector text v k.cache
      by_call (err e, u) g = cc
      by_call (ok result, u) g = by_vectors u result.vectors g

  -- A question that has been embedded gets the same vector again, without a call of a model, also
  -- where the models have changed their minds or fail by then, unless the first call has left the
  -- cache as it was.
  pub embedded_again :
      (text : Text) (k k' : Kept) (v : Vector) (unavailable : Bool)
      → IsRedis s.redis
      → s.has_cache ≡ true
      → embed_text text k ≡ (returned v, k')
      → (embed_text text (record k' { unavailable = unavailable })
          ≡ (returned v, record k' { unavailable = unavailable }))
        ⊎ (k'.cache ≡ k.cache)
  unfolding embed_text
  embedded_again text k k' v unavailable laws cached h =
      elim (Option-cases (cached_vector text k.cache)) [
        | inr (x, hit) ↦ inr (ap (λ (p : Outcome Vector × Kept). p.1.cache) (sym (rw hit at h)))
        | inl miss ↦
            let written = or_embedded-cases text k v k' (rw miss at h) in
            elim (get-set s.redis s.json s.cache_enabled (vector_key text) v s.cache_ttl_seconds
              k.cache laws) [
                | inl found ↦
                    let hit : cached_vector text k'.cache ≡ some v = rw written (rw cached found) in
                    inl (ap (or_embedded text (record k' { unavailable = unavailable })) hit)
                | inr kept ↦ inr (written ∙ rw cached kept)
              ]
      ]
