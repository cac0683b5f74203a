-- ===== src/Chunking/Sentence/Groups.antt =====
-- The groups of the sentence chunker: what is carried over, that no sentence is lost, and how far
-- a group may pass the budget.
use mathlib.Core.List.{
  reverse, reverse_aux, reverse_aux-eq, append_assoc, append-nil, reverse-reverse,
}
use rag_kb.Base.{
  ℕ, ◌+◌, ◌≤◌, ◌<◌, ◌≡◌, refl, sym, ◌∙◌, ap, ◌⊎◌, inl, inr, Bool, false, not, ◌&&◌, List, [], ◌∷◌,
  ◌++◌, length, take, drop, ltb, is_empty, if◌then◌else◌, arith, Bool-cases, All, sum_of-append,
}
use rag_kb.Base.Text.{Text}
use rag_kb.Chunking.{ChunkingStrategy, count}
use rag_kb.Chunking.Sentence.{carry_loop, carry_over_for_overlap, token_sum, group_loop}

reverse_aux-nil : (xs ys : List Text) → reverse_aux xs [] ++ ys ≡ reverse_aux xs ys
reverse_aux-nil xs ys = sym (reverse_aux-eq xs ys)

module _ (s : ChunkingStrategy) where
  -- The test of `_carry_over_for_overlap` that stops the scan.
  abbrev stops : Text → List Text → ℕ → Bool
  stops x carried n =
      ltb s.chunk_overlap_tokens (n + count s.token_counter x) && not (is_empty carried)

  carry_loop-suffix :
      (xs carried : List Text) (n : ℕ)
      → (pre : List Text) × (pre ++ carry_loop s xs carried n ≡ reverse_aux xs carried)
  unfolding carry_loop
  carry_loop-suffix [] carried n = ([], refl)
  carry_loop-suffix (x ∷ xs) carried n = elim (Bool-cases (stops x carried n)) [
    | inl e ↦ (reverse (x ∷ xs), rw (e, carry_loop) (reverse_aux-nil (x ∷ xs) carried))
    | inr e ↦ rw (e, carry_loop) (carry_loop-suffix xs (x ∷ carried) (n + count s.token_counter x))
  ]

  carry_loop-bound :
      (xs carried : List Text) (n : ℕ)
      → n ≡ token_sum s carried
      → (n ≤ s.chunk_overlap_tokens) ⊎ (length carried ≤ 1)
      → (token_sum s (carry_loop s xs carried n) ≤ s.chunk_overlap_tokens)
        ⊎ (length (carry_loop s xs carried n) ≤ 1)
  unfolding carry_loop
  carry_loop-bound [] carried n e h = rw e at h
  carry_loop-bound (x ∷ xs) carried n e h = elim (Bool-cases (stops x carried n)) [
    | inl f ↦ rw (f, carry_loop) (rw e at h)
    | inr f ↦
        rw (f, carry_loop)
          (carry_loop-bound xs (x ∷ carried) (n + count s.token_counter x) (omega arith)
            (continues carried f))
  ]
    where
      continues :
          (carried : List Text)
          → stops x carried n ≡ false
          → (n + count s.token_counter x ≤ s.chunk_overlap_tokens) ⊎ (length (x ∷ carried) ≤ 1)
      continues [] f = inr (omega arith)
      continues (y ∷ ys) f = ground arith

  -- `_carry_over_for_overlap` returns the end of its list: within the overlap budget, or a single
  -- sentence.
  pub carry_over_suffix :
      (sentences : List Text)
      → ((pre : List Text) × (pre ++ carry_over_for_overlap s sentences ≡ sentences))
        × ((token_sum s (carry_over_for_overlap s sentences) ≤ s.chunk_overlap_tokens)
            ⊎ (length (carry_over_for_overlap s sentences) ≤ 1))
  unfolding carry_over_for_overlap
  carry_over_suffix sentences =
      let (pre, e) = carry_loop-suffix (reverse sentences) [] 0 in
      (
        (pre, e ∙ reverse-reverse sentences),
        carry_loop-bound (reverse sentences) [] 0 refl (inl (omega arith)),
      )

  -- The sentences that a list of groups stands for: each group without the sentences that it
  -- repeats from the group before it.
  abbrev pub uncarry : List Text → List (List Text) → List Text
  uncarry carried [] = []
  uncarry carried (g ∷ gs) = drop (length carried) g ++ uncarry (carry_over_for_overlap s g) gs

  -- Each group begins with what is carried over from the group before it.
  abbrev pub Carries : List Text → List (List Text) → Type 0
  Carries carried [] = Unit
  Carries carried (g ∷ gs) =
      (take (length carried) g ≡ carried) × Carries (carry_over_for_overlap s g) gs

  -- The test of `chunk` that closes a group.
  abbrev closes : ℕ → Text → List Text → Bool
  closes n x current =
      ltb s.chunk_size_tokens (n + count s.token_counter x) && not (is_empty current)

  -- A group is within the budget, or is a single sentence behind what is carried over: sentences that
  -- are within the overlap budget, or at most one.
  abbrev pub FitsOrMinimal : List Text → Type 0
  FitsOrMinimal g =
      (token_sum s g ≤ s.chunk_size_tokens)
      ⊎ ((carried : List Text) × (x : Text) × (g ≡ carried ++ x ∷ [])
          × ((token_sum s carried ≤ s.chunk_overlap_tokens) ⊎ (length carried ≤ 1)))

  drop-append : (xs ys : List Text) → drop (length xs) (xs ++ ys) ≡ ys
  drop-append [] ys = refl
  drop-append (x ∷ xs) ys = drop-append xs ys

  take-append : (xs ys : List Text) → take (length xs) (xs ++ ys) ≡ xs
  take-append [] ys = refl
  take-append (x ∷ xs) ys = ap (λ r. x ∷ r) (take-append xs ys)

  uncarry-last :
      (carried g : List Text)
      → uncarry carried (if is_empty g then [] else g ∷ []) ≡ drop (length carried) g
  uncarry-last [] [] = refl
  uncarry-last (x ∷ carried) [] = refl
  uncarry-last carried (y ∷ ys) = append-nil (drop (length carried) (y ∷ ys))

  uncarry-group_loop :
      (xs carried fresh : List Text) (n : ℕ)
      → uncarry carried (group_loop s (carried ++ fresh) n xs) ≡ fresh ++ xs
  unfolding group_loop
  uncarry-group_loop [] carried fresh n =
      uncarry-last carried (carried ++ fresh) ∙ drop-append carried fresh ∙ sym (append-nil fresh)
  uncarry-group_loop (x ∷ xs) carried fresh n = elim (Bool-cases (closes n x (carried ++ fresh))) [
    | inl e ↦
        let next = carry_over_for_overlap s (carried ++ fresh) in
        rw (e, group_loop)
          (rw (drop-append carried fresh) (
            ap (λ r. fresh ++ r)
              (uncarry-group_loop xs next (x ∷ []) (token_sum s next + count s.token_counter x))))
    | inr e ↦
        rw (e, group_loop)
          (rw (append_assoc carried fresh (x ∷ [])) (
            uncarry-group_loop xs carried (fresh ++ x ∷ []) (n + count s.token_counter x)
            ∙ append_assoc fresh (x ∷ []) xs))
  ]

  Carries-last :
      (carried fresh : List Text)
      → Carries carried (if is_empty (carried ++ fresh) then [] else (carried ++ fresh) ∷ [])
  Carries-last [] [] = tt
  Carries-last [] (y ∷ fresh) = (refl, tt)
  Carries-last (x ∷ carried) fresh = (take-append (x ∷ carried) fresh, tt)

  Carries-group_loop :
      (xs carried fresh : List Text) (n : ℕ)
      → Carries carried (group_loop s (carried ++ fresh) n xs)
  unfolding group_loop
  Carries-group_loop [] carried fresh n = Carries-last carried fresh
  Carries-group_loop (x ∷ xs) carried fresh n = elim (Bool-cases (closes n x (carried ++ fresh))) [
    | inl e ↦
        let next = carry_over_for_overlap s (carried ++ fresh) in
        rw (e, group_loop)
          (
            take-append carried fresh,
            Carries-group_loop xs next (x ∷ []) (token_sum s next + count s.token_counter x),
          )
    | inr e ↦
        rw (e, group_loop)
          (rw (append_assoc carried fresh (x ∷ []))
            (Carries-group_loop xs carried (fresh ++ x ∷ []) (n + count s.token_counter x)))
  ]

  token_sum-snoc :
      (g : List Text) (x : Text)
      → token_sum s (g ++ x ∷ []) ≡ token_sum s g + count s.token_counter x
  token_sum-snoc g x = omega (arith, sum_of-append (count s.token_counter) g (x ∷ []))

  FitsOrMinimal-grow :
      (n : ℕ) (x : Text) (current : List Text)
      → n ≡ token_sum s current
      → closes n x current ≡ false
      → FitsOrMinimal (current ++ x ∷ [])
  FitsOrMinimal-grow n x [] e h = inr ([], x, refl, inl (omega arith))
  FitsOrMinimal-grow n x (y ∷ ys) e h = inl (ground (arith, token_sum-snoc (y ∷ ys) x))

  FitsOrMinimal-group_loop :
      (xs current : List Text) (n : ℕ)
      → n ≡ token_sum s current
      → FitsOrMinimal current
      → All FitsOrMinimal (group_loop s current n xs)
  unfolding group_loop
  FitsOrMinimal-group_loop [] [] n e h = tt
  FitsOrMinimal-group_loop [] (y ∷ ys) n e h = (h, tt)
  FitsOrMinimal-group_loop (x ∷ xs) current n e h = elim (Bool-cases (closes n x current)) [
    | inl f ↦
        let next = carry_over_for_overlap s current in
        rw (f, group_loop)
          (
            h,
            FitsOrMinimal-group_loop xs (next ++ x ∷ [])
                (token_sum s next + count s.token_counter x) (sym (token_sum-snoc next x))
                (inr (next, x, refl, (carry_over_suffix current).1)),
          )
    | inr f ↦
        rw (f, group_loop)
          (FitsOrMinimal-group_loop xs (current ++ x ∷ []) (n + count s.token_counter x)
            (omega (arith, token_sum-snoc current x)) (FitsOrMinimal-grow n x current e f))
  ]

-- The groups of `SentenceChunker.chunk` hold every sentence once, in order, beside what each group
-- repeats: each group begins with what `_carry_over_for_overlap` takes from the group before it,
-- and without these beginnings the groups are the sentences.
pub groups_cover :
    (s : ChunkingStrategy) (sentences : List Text)
    → Carries s [] (group_loop s [] 0 sentences)
      × (uncarry s [] (group_loop s [] 0 sentences) ≡ sentences)
groups_cover s sentences =
    (Carries-group_loop s sentences [] [] 0, uncarry-group_loop s sentences [] [] 0)

-- Each group of `SentenceChunker.chunk` has at most `chunk_size_tokens` tokens, counted sentence by
-- sentence, or is a single sentence behind carried ones that together have at most
-- `chunk_overlap_tokens` tokens or are at most one: a group never grows beyond that.
pub groups_budget :
    (s : ChunkingStrategy) (sentences : List Text)
    → All (FitsOrMinimal s) (group_loop s [] 0 sentences)
groups_budget s sentences = FitsOrMinimal-group_loop s sentences [] 0 refl (inl (omega arith))

-- Two sentences that together pass the budget: the first is a group of its own and is carried over
-- whole, whatever the overlap is, so that the second group passes the budget.
pub overlap_passes_budget :
    (s : ChunkingStrategy) (x y : Text)
    → s.chunk_size_tokens < count s.token_counter x + count s.token_counter y
    → (group_loop s [] 0 (x ∷ y ∷ []) ≡ (x ∷ []) ∷ (x ∷ y ∷ []) ∷ [])
      × (s.chunk_size_tokens < token_sum s (x ∷ y ∷ []))
unfolding group_loop carry_over_for_overlap carry_loop
overlap_passes_budget s x y h = (ground arith, omega arith)
