-- ===== src/Retrieval/Dedup.antt =====
-- app/retrieval/deduplication.py: near-duplicates are dropped by the cosine similarity of their
-- embeddings. The functions of numpy and the comparison with the threshold are arguments.
use rag_kb.Base.{
  ℕ, suc, ◌+◌, ◌<◌, ◌≤◌, ◌≡◌, refl, ap, subst, get_elem?-total, ◌⊎◌, inl, inr, Bool, true, false,
  ◌||◌, List, [], ◌∷◌, ◌++◌, map, Option, none, some, length, if◌then◌else◌, leb, arith, Bool-cases,
  anyb, get_elem?, All,
}
use rag_kb.Base.Text.{Text}
use rag_kb.Errors.{Result, ok, err}
use rag_kb.Retrieval.{RankedChunk}

-- `np.linalg.norm`, `np.dot` and the arithmetic of floats that `_cosine_similarity` applies.
pub record Vectors : Type 1 where
  pub Vector : Type 0
  pub F : Type 0
  pub norm : Vector → F
  pub dot : Vector → Vector → F
  pub zero_f : F
  pub mul : F → F → F
  pub div : F → F → F
  pub is_zero : F → Bool
  -- `a >= b`
  pub at_least : F → F → Bool

module _ (v : Vectors) where
  open v use {Vector, F, norm, dot, zero_f, mul, div, is_zero, at_least}

  -- `_cosine_similarity`
  unfoldable pub cosine_similarity : Vector → Vector → F
  cosine_similarity a b =
      let norm_a = norm a in
      let norm_b = norm b in
      if is_zero norm_a || is_zero norm_b then zero_f else div (dot a b) (mul norm_a norm_b)

  module _ (threshold : F) where
    abbrev pub similar : Vector → Vector → Bool
    similar a b = at_least (cosine_similarity a b) threshold

    -- `is_duplicate_of_kept`
    abbrev pub is_duplicate : List Vector → Vector → Bool
    is_duplicate kept vector = anyb (similar vector) kept

    -- The loop over `enumerate(vectors)`: each kept index with its vector.
    unfoldable pub keep_loop : ℕ → List Vector → List Vector → List (ℕ × Vector)
    keep_loop i kept [] = []
    keep_loop i kept (x ∷ xs) =
        let dropped = keep_loop (i + 1) kept xs in
        let added = (i, x) ∷ keep_loop (i + 1) (kept ++ x ∷ []) xs in
        if is_duplicate kept x then dropped else added

    -- `[chunks[i] for i in kept_indices]`, with `none` for an `IndexError`.
    unfoldable pub at_indices {ℓ} : {A : Type ℓ} → List A → List (ℕ × Vector) → Option (List A)
    at_indices chunks [] = some []
    at_indices chunks ((i, x) ∷ ps) =
        let rest = at_indices chunks ps in
        elim (get_elem? chunks i) [
          | none ↦ none
          | some c ↦ elim rest [ none ↦ none | some cs ↦ some (c ∷ cs) ]
        ]

    -- No vector of a list is similar to one that stands before it, or to one of `kept`.
    abbrev pub IsDiverse : List Vector → List Vector → Type 0
    IsDiverse kept [] = Unit
    IsDiverse kept (x ∷ xs) = (is_duplicate kept x ≡ false) × IsDiverse (kept ++ x ∷ []) xs

    keep_loop-IsDiverse :
        (i : ℕ) (kept xs : List Vector) → IsDiverse kept (map (λ p. p.1) (keep_loop i kept xs))
    unfolding keep_loop
    keep_loop-IsDiverse i kept [] = tt
    keep_loop-IsDiverse i kept (x ∷ xs) = elim (Bool-cases (is_duplicate kept x)) [
      | inl e ↦ rw (e, keep_loop) (keep_loop-IsDiverse (i + 1) kept xs)
      | inr e ↦ rw (e, keep_loop) (e, keep_loop-IsDiverse (i + 1) (kept ++ x ∷ []) xs)
    ]

    -- The kept entries are in range, and their places go up.
    abbrev pub IsWithin : ℕ → ℕ → List (ℕ × Vector) → Type 0
    IsWithin lo hi [] = Unit
    IsWithin lo hi (p ∷ ps) = (lo ≤ p.0) × (p.0 < hi) × IsWithin (p.0 + 1) hi ps

    IsWithin-lower :
        (lo lo' hi : ℕ) (ps : List (ℕ × Vector)) → lo ≤ lo' → IsWithin lo' hi ps → IsWithin lo hi ps
    IsWithin-lower lo lo' hi [] le h = tt
    IsWithin-lower lo lo' hi (p ∷ ps) le h = (omega arith, h.1, h.2)

    keep_loop-IsWithin :
        (i : ℕ) (kept xs : List Vector) → IsWithin i (i + length xs) (keep_loop i kept xs)
    unfolding keep_loop
    keep_loop-IsWithin i kept [] = tt
    keep_loop-IsWithin i kept (x ∷ xs) =
        let e : i + length (x ∷ xs) ≡ i + 1 + length xs = omega arith in
        elim (Bool-cases (is_duplicate kept x)) [
          | inl f ↦
              rw (f, keep_loop, e)
                (IsWithin-lower i (i + 1) _ (keep_loop (i + 1) kept xs) (omega arith)
                  (keep_loop-IsWithin (i + 1) kept xs))
          | inr f ↦
              rw (f, keep_loop, e)
                (omega arith, omega arith, keep_loop-IsWithin (i + 1) (kept ++ x ∷ []) xs)
        ]

    -- Every vector of a list is similar to one that is kept before it, or is itself kept.
    abbrev pub Represented : List Vector → List Vector → List Vector → Type 0
    Represented kept [] out = Unit
    Represented kept (x ∷ xs) out =
        ((is_duplicate kept x ≡ true) × Represented kept xs out)
        ⊎ ((rest : List Vector) × (out ≡ x ∷ rest) × Represented (kept ++ x ∷ []) xs rest)

    keep_loop-Represented :
        (i : ℕ) (kept xs : List Vector) → Represented kept xs (map (λ p. p.1) (keep_loop i kept xs))
    unfolding keep_loop
    keep_loop-Represented i kept [] = tt
    keep_loop-Represented i kept (x ∷ xs) = elim (Bool-cases (is_duplicate kept x)) [
      | inl e ↦ inl (e, rw (e, keep_loop) (keep_loop-Represented (i + 1) kept xs))
      | inr e ↦ inr (
        map (λ p. p.1) (keep_loop (i + 1) (kept ++ x ∷ []) xs),
        rw (e, keep_loop),
        keep_loop-Represented (i + 1) (kept ++ x ∷ []) xs,
      )
    ]

    get_elem?-append :
        (pre xs : List Vector) (x : Vector) → get_elem? (pre ++ x ∷ xs) (length pre) ≡ some x
    get_elem?-append [] xs x = refl
    get_elem?-append (y ∷ pre) xs x = get_elem?-append pre xs x

    append_snoc : (pre xs : List Vector) (x : Vector) → (pre ++ x ∷ []) ++ xs ≡ pre ++ x ∷ xs
    append_snoc [] xs x = refl
    append_snoc (y ∷ pre) xs x = ap (λ l. y ∷ l) (append_snoc pre xs x)

    length_snoc : (pre : List Vector) (x : Vector) → length (pre ++ x ∷ []) ≡ length pre + 1
    length_snoc [] x = refl
    length_snoc (y ∷ pre) x = omega (arith, length_snoc pre x)

    -- Each kept entry is the vector of its place.
    abbrev pub IsOf : List Vector → ℕ × Vector → Type 0
    IsOf all p = get_elem? all p.0 ≡ some p.1

    keep_loop-IsOf :
        (pre kept xs : List Vector) → All (IsOf (pre ++ xs)) (keep_loop (length pre) kept xs)
    unfolding keep_loop
    keep_loop-IsOf pre kept [] = tt
    keep_loop-IsOf pre kept (x ∷ xs) =
        let later : (k : List Vector)
            → All (IsOf (pre ++ x ∷ xs)) (keep_loop (length pre + 1) k xs) =
          λ k.
            subst (λ n. All (IsOf (pre ++ x ∷ xs)) (keep_loop n k xs)) (length_snoc pre x)
              (subst (λ all. All (IsOf all) (keep_loop (length (pre ++ x ∷ [])) k xs))
                (append_snoc pre xs x) (keep_loop-IsOf (pre ++ x ∷ []) k xs)) in
        elim (Bool-cases (is_duplicate kept x)) [
          | inl e ↦ rw (e, keep_loop) (later kept)
          | inr e ↦ rw (e, keep_loop) (get_elem?-append pre xs x, later (kept ++ x ∷ []))
        ]

    at_indices-total {ℓ} :
        {A : Type ℓ} (chunks : List A) (lo : ℕ) (ps : List (ℕ × Vector))
        → IsWithin lo (length chunks) ps
        → (cs : List A) × (at_indices chunks ps ≡ some cs) × (length cs ≡ length ps)
    unfolding at_indices
    at_indices-total chunks lo [] h = ([], refl, refl)
    at_indices-total chunks lo ((i, x) ∷ ps) h =
        let (cs, e, n) = at_indices-total chunks (i + 1) ps h.2 in
        let (c, there) = get_elem?-total chunks i h.1 in
        (c ∷ cs, rw (there, e, at_indices), ap suc n)

    abbrev select {ℓ} : {A : Type ℓ} → List A → Result (List Vector) → Result (Option (List A))
    select chunks (err e) = err e
    select chunks (ok vectors) = ok (at_indices chunks (keep_loop 0 [] vectors))

  module _ {S : Type 0} (threshold : F) (embed_texts : List Text → Result (List Vector)) where
    -- `Deduplicator.deduplicate`; the embedding service is an argument. `ok none` is an
    -- `IndexError`, of which there is none where each text has one vector.
    unfoldable pub deduplicate : List (RankedChunk S) → Result (Option (List (RankedChunk S)))
    unfolding keep_loop at_indices
    deduplicate chunks =
        if leb (length chunks) 1
        then ok (some chunks)
        else select threshold chunks (embed_texts (map (λ (c : RankedChunk S). c.text) chunks))

    pub deduplicate_lem :
        (chunks : List (RankedChunk S)) (vectors : List Vector)
        → 1 < length chunks
        → embed_texts (map (λ (c : RankedChunk S). c.text) chunks) ≡ ok vectors
        → length vectors ≡ length chunks
        → let kept = keep_loop threshold 0 [] vectors in
          ((cs : List (RankedChunk S)) × (deduplicate chunks ≡ ok (some cs))
            × (at_indices threshold chunks kept ≡ some cs)
            × (length cs ≡ length kept))
          × IsWithin threshold 0 (length chunks) kept
          × All (IsOf threshold vectors) kept
          × IsDiverse threshold [] (map (λ p. p.1) kept)
          × Represented threshold [] vectors (map (λ p. p.1) kept)
    unfolding deduplicate
    deduplicate_lem chunks vectors many h same =
        let kept = keep_loop threshold 0 [] vectors in
        let within : IsWithin threshold 0 (length chunks) kept =
          subst (λ n. IsWithin threshold 0 n kept) (omega arith)
            (keep_loop-IsWithin threshold 0 [] vectors) in
        let (cs, e, n) = at_indices-total threshold chunks 0 kept within in
        let large : leb (length chunks) 1 ≡ false = ground arith in
        (
          (cs, rw (large, h, e), e, n),
          within,
          keep_loop-IsOf threshold [] [] vectors,
          keep_loop-IsDiverse threshold 0 [] vectors,
          keep_loop-Represented threshold 0 [] vectors,
        )
