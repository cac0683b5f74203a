-- ===== src/Cache.antt =====
-- app/core/cache.py, and `invalidate_response_cache` of app/services/conversation_service.py. Redis,
-- JSON and SHA-256 are parameters.
use rag_kb.Base.{
  ℕ, ◌≡◌, ◌≢◌, refl, sym, subst, ◌⊎◌, inl, inr, Bool, true, List, [], ◌∷◌, ◌++◌, Option, none, some,
  if◌then◌else◌, length, All, Bool-cases, Option-cases, All-of, nat_beq, nat_beq_iff, &&-eq-true,
  arith, ap,
}
use rag_kb.Base.Text.{Text, starts_with, join}

-- The calls of the Redis client; `none` is a `RedisError`. `scan` is `scan_iter` with the pattern
-- `prefix*`.
pub record Redis : Type 1 where
  pub State : Type 0
  pub read : Text → State → Option (Option Text)
  pub write : Text → Text → ℕ → State → Option State
  pub scan : Text → State → Option (List Text)
  pub delete : List Text → State → Option State

-- What Redis documents, for a key that has not expired: a read finds what the last write has stored,
-- and a scan lists keys that match its pattern.
pub record IsRedis (r : Redis) : Type 0 where
  pub read-write :
      (key value : Text) (ttl : ℕ) (s s' : r.State)
      → r.write key value ttl s ≡ some s'
      → r.read key s' ≡ some (some value)
  pub scan_matches :
      (prefix : Text) (s : r.State) (keys : List Text)
      → r.scan prefix s ≡ some keys
      → All (λ key. starts_with prefix key ≡ true) keys
  pub read-delete :
      (key : Text) (keys : List Text) (s s' : r.State)
      → r.delete keys s ≡ some s'
      → All (λ k. k ≢ key) keys
      → r.read key s' ≡ r.read key s

-- `json.dumps` and `json.loads`, with `none` for a `TypeError` and a `JSONDecodeError`.
pub record Json (V : Type 0) : Type 0 where
  pub dumps : V → Option Text
  pub loads : Text → Option V
  pub loads-dumps : (v : V) (t : Text) → dumps v ≡ some t → loads t ≡ some v

abbrev decoded : {V : Type 0} → Json V → Option (Option Text) → Option V
decoded j none = none
decoded j (some none) = none
decoded j (some (some raw)) = j.loads raw

module _ {V : Type 0} (r : Redis) (j : Json V) (enabled : Bool) where
  -- `get`
  unfoldable pub get : Text → r.State → Option V
  get key s = if enabled then decoded j (r.read key s) else none

  abbrev or_same : r.State → Option r.State → r.State
  or_same s none = s
  or_same s (some s') = s'

  abbrev written : Text → ℕ → r.State → Option Text → r.State
  written key ttl s none = s
  written key ttl s (some serialized) = or_same s (r.write key serialized ttl s)

  -- `set`
  unfoldable pub set : Text → V → ℕ → r.State → r.State
  set key value ttl s = if enabled then written key ttl s (j.dumps value) else s

  abbrev deleted : r.State → Option (List Text) → r.State
  deleted s none = s
  deleted s (some []) = s
  deleted s (some (k ∷ ks)) = or_same s (r.delete (k ∷ ks) s)

  -- `delete_by_prefix`
  unfoldable pub delete_by_prefix : Text → r.State → r.State
  delete_by_prefix prefix s = if enabled then deleted s (r.scan prefix s) else s

  -- Caching fails open: after a `set` the value is read back, or the `set` has changed nothing,
  -- because caching is disabled or Redis or JSON has refused it.
  pub get-set :
      (key : Text) (value : V) (ttl : ℕ) (s : r.State)
      → IsRedis r
      → (get key (set key value ttl s) ≡ some value) ⊎ (set key value ttl s ≡ s)
  unfolding get set
  get-set key value ttl s laws = elim (Bool-cases enabled) [
    | inr off ↦ inr (rw off)
    | inl on ↦ elim (Option-cases (j.dumps value)) [
      | inl refused ↦ inr (rw on (rw refused))
      | inr (serialized, dumped) ↦ elim (Option-cases (r.write key serialized ttl s)) [
        | inl error ↦ inr (rw on (rw dumped (rw error)))
        | inr (s', stored) ↦ inl (
            rw on (
              rw dumped (
                rw stored (
                  rw (laws.read-write key serialized ttl s s' stored)
                    (j.loads-dumps value serialized dumped)))))
      ]
    ]
  ]

colon : Text
colon = 58 ∷ []

-- `build_key`, for the parts in front of the content; `sha` is the first 32 digits of SHA-256.
unfoldable pub build_key_of : (Text → Text) → List Text → Text → Text
unfolding join colon
build_key_of sha prefix_parts content = join colon (prefix_parts ++ sha content ∷ [])

-- `build_key` for two parts in front of the content; `sha` is the first 32 digits of SHA-256.
unfoldable pub build_key : (Text → Text) → Text → Text → Text → Text
unfolding join colon
build_key sha namespace id content = join colon (namespace ∷ id ∷ sha content ∷ [])

-- The prefix of `invalidate_response_cache`.
unfoldable pub invalidation_prefix : (Text → Text) → Text → Text → Text
unfolding build_key
invalidation_prefix sha namespace id = build_key sha namespace id []

starts_with-append :
    (pre xs ys : Text) → starts_with (pre ++ xs) (pre ++ ys) ≡ true → starts_with xs ys ≡ true
unfolding starts_with
starts_with-append [] xs ys h = h
starts_with-append (p ∷ pre) xs ys h = starts_with-append pre xs ys (&&-eq-true (nat_beq p p) _ h).1

starts_with-eq : (xs ys : Text) → length xs ≡ length ys → starts_with xs ys ≡ true → xs ≡ ys
unfolding starts_with
starts_with-eq [] [] e h = refl
starts_with-eq [] (y ∷ ys) e h = absurd (omega arith)
starts_with-eq (x ∷ xs) [] e h = absurd (omega arith)
starts_with-eq (x ∷ xs) (y ∷ ys) e h =
    let (a, b) = &&-eq-true (nat_beq x y) _ h in
    let heads = (nat_beq_iff x y).0 a in
    rw heads (ap (λ l. y ∷ l) (starts_with-eq xs ys (omega arith) b))

-- Two keys of one knowledge base, one a prefix of the other, have one hash, if hashes are of one
-- length.
build_key-prefix :
    (sha : Text → Text) (namespace id a b : Text)
    → length (sha a) ≡ length (sha b)
    → starts_with (build_key sha namespace id a) (build_key sha namespace id b) ≡ true
    → sha a ≡ sha b
unfolding build_key join
build_key-prefix sha namespace id a b len h =
    let after_namespace =
      starts_with-append namespace (58 ∷ (id ++ 58 ∷ sha a)) (58 ∷ (id ++ 58 ∷ sha b)) h in
    let after_id =
      starts_with-append id (58 ∷ sha a) (58 ∷ sha b) (colon_off _ _ after_namespace) in
    starts_with-eq (sha a) (sha b) len (colon_off _ _ after_id)
  where
    colon_off : (xs ys : Text) → starts_with (58 ∷ xs) (58 ∷ ys) ≡ true → starts_with xs ys ≡ true
    colon_off xs ys e = starts_with-append (58 ∷ []) xs ys e

-- A cached response outlives `invalidate_response_cache` for its own knowledge base: it is read back
-- as before, unless its question has the hash of the empty question. Hashes are of one length here.
pub invalidation_misses :
    {V : Type 0} (r : Redis) (j : Json V) (enabled : Bool) (sha : Text → Text)
    (namespace id content : Text) (s : r.State)
    → IsRedis r
    → length (sha []) ≡ length (sha content)
    → sha content ≢ sha []
    → get r j enabled
        (build_key sha namespace id content)
        (delete_by_prefix r j enabled (invalidation_prefix sha namespace id) s)
      ≡ get r j enabled (build_key sha namespace id content) s
unfolding delete_by_prefix get invalidation_prefix
invalidation_misses {V} r j enabled sha namespace id content s laws len ne =
    elim (Bool-cases enabled) [
      | inr off ↦ rw off
      | inl on ↦ elim (Option-cases (r.scan (build_key sha namespace id []) s)) [
        | inl error ↦ rw on (rw error)
        | inr ([], found) ↦ rw on (rw found)
        | inr (k ∷ ks, found) ↦ elim (Option-cases (r.delete (k ∷ ks) s)) [
          | inl error ↦ rw on (rw found (rw error))
          | inr (s', done) ↦
              let others =
                All-of (λ key. starts_with (build_key sha namespace id []) key ≡ true) other_key
                  (k ∷ ks) (laws.scan_matches _ s (k ∷ ks) found) in
              rw on (rw found (rw done (rw (laws.read-delete _ (k ∷ ks) s s' done others))))
        ]
      ]
    ]
  where
    other_key :
        (k : Text)
        → starts_with (build_key sha namespace id []) k ≡ true
        → k ≢ build_key sha namespace id content
    other_key k h same = ne (
        sym (
          build_key-prefix sha namespace id [] content len
            (subst (λ x. starts_with (build_key sha namespace id []) x ≡ true) same h)))
