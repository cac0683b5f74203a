-- ===== src/Chunking/Fixed/Coverage.antt =====
-- The windows of the fixed-size chunker: none passes the budget, none is empty, the first `step`
-- tokens of each make up the text again, and neighbours share the overlap.
use rag_kb.Base.{
  ℕ, zero, suc, ◌+◌, ◌-◌, ◌≤◌, ◌<◌, ◌≡◌, refl, inl, inr, List, [], ◌∷◌, ◌++◌, length, take, drop,
  ltb, is_empty, arith, Bool-cases, length-take, length-drop, take-append-drop, take_nil, All, ap,
  map, ◌∙◌, sym,
}
use rag_kb.Base.Text.{Text, strip}
use rag_kb.Chunking.{Chunk, ChunkingStrategy}
use rag_kb.Chunking.Fixed.{step, window, window_loop, windows, window_chunk, chunk}

-- The first `k` elements of each list, one after another.
abbrev pub heads {ℓ} : {A : Type ℓ} → ℕ → List (List A) → List A
heads k [] = []
heads k (x ∷ xs) = take k x ++ heads k xs

take-take {ℓ} : {A : Type ℓ} (k n : ℕ) (xs : List A) → k ≤ n → take k (take n xs) ≡ take k xs
take-take zero n xs h = refl
take-take (suc k) zero xs h = absurd (omega arith)
take-take (suc k) (suc n) [] h = refl
take-take (suc k) (suc n) (x ∷ xs) h = ap (λ r. x ∷ r) (take-take k n xs (omega arith))

drop_all {ℓ} : {A : Type ℓ} (n : ℕ) (xs : List A) → length xs ≤ n → drop n xs ≡ []
drop_all zero [] h = refl
drop_all zero (x ∷ xs) h = absurd (omega arith)
drop_all (suc n) [] h = refl
drop_all (suc n) (x ∷ xs) h = drop_all n xs (omega arith)

drop-drop {ℓ} : {A : Type ℓ} (n k : ℕ) (xs : List A) → drop k (drop n xs) ≡ drop (n + k) xs
drop-drop zero k xs = ground arith
drop-drop (suc n) k [] = drop_all k [] (omega arith) ∙ sym (drop_all (suc n + k) [] (omega arith))
drop-drop (suc n) k (x ∷ xs) =
    let e : suc n + k ≡ suc (n + k) = omega arith in rw e (drop-drop n k xs)

-- Every pair of neighbours shares tokens: what follows the first `k` of one opens the next.
abbrev pub Chained {ℓ} : {A : Type ℓ} → ℕ → ℕ → List (List A) → Type ℓ
Chained k overlap [] = Unit
Chained k overlap (w ∷ []) = Unit
Chained k overlap (w ∷ v ∷ ws) = (drop k w ≡ take overlap v) × Chained k overlap (v ∷ ws)

drop-take {ℓ} : {A : Type ℓ} (k n : ℕ) (xs : List A) → drop k (take n xs) ≡ take (n - k) (drop k xs)
drop-take zero n xs = ground arith
drop-take (suc k) zero xs = ground arith
drop-take (suc k) (suc n) [] = sym (take_nil (suc n - suc k))
drop-take (suc k) (suc n) (x ∷ xs) =
    let e : suc n - suc k ≡ n - k = omega arith in rw e (drop-take k n xs)

module _ (s : ChunkingStrategy) (advance : s.chunk_overlap_tokens < s.chunk_size_tokens) where
  heads-window_loop :
      (tokens : List ℕ) (fuel position : ℕ)
      → length tokens ≤ position + fuel
      → heads (step s) (window_loop s tokens fuel position) ≡ drop position tokens
  unfolding window_loop
  heads-window_loop tokens zero position h = sym (drop_all position tokens (omega arith))
  heads-window_loop tokens (suc fuel) position h =
      elim (Bool-cases (ltb position (length tokens))) [
        | inl e ↦
            rw (e, window_loop)
              (rw
                (
                  take-take (step s) s.chunk_size_tokens (drop position tokens) (omega arith),
                  heads-window_loop tokens fuel (position + step s) (omega arith),
                  ← drop-drop position (step s) tokens,
                )
                (take-append-drop (step s) (drop position tokens)))
        | inr e ↦ rw (e, window_loop) (sym (drop_all position tokens (ground arith)))
      ]

  next_window :
      (tokens : List ℕ) (position : ℕ)
      → drop (step s) (window s tokens position)
        ≡ take s.chunk_overlap_tokens (window s tokens (position + step s))
  unfolding window step
  next_window tokens position =
      let rest : List ℕ = drop (position + step s) tokens in
      let e : s.chunk_size_tokens - step s ≡ s.chunk_overlap_tokens = omega arith in
      drop-take (step s) s.chunk_size_tokens (drop position tokens)
      ∙ rw (e, drop-drop position (step s) tokens)
          (sym (take-take s.chunk_overlap_tokens s.chunk_size_tokens rest (omega arith)))

  window_loop-Chained :
      (tokens : List ℕ) (fuel position : ℕ)
      → Chained (step s) s.chunk_overlap_tokens (window_loop s tokens fuel position)
  unfolding window_loop
  window_loop-Chained tokens zero position = tt
  window_loop-Chained tokens (suc zero) position =
      elim (Bool-cases (ltb position (length tokens))) [
        | inl e ↦ rw (e, window_loop) tt
        | inr e ↦ rw (e, window_loop) tt
      ]
  window_loop-Chained tokens (suc (suc fuel)) position =
      let ih = window_loop-Chained tokens (suc fuel) (position + step s) in
      elim (Bool-cases (ltb position (length tokens))) [
        | inl e ↦
            rw (e, window_loop)
              (elim (Bool-cases (ltb (position + step s) (length tokens))) [
                | inl f ↦
                    rw (f, window_loop) (next_window tokens position, (rw (f, window_loop) at ih))
                | inr f ↦ rw (f, window_loop) tt
              ])
        | inr e ↦ rw (e, window_loop) tt
      ]

  window_loop-lengths :
      (tokens : List ℕ) (fuel position : ℕ)
      → All
          (λ w. (0 < length w) × (length w ≤ s.chunk_size_tokens))
          (window_loop s tokens fuel position)
  unfolding window_loop window
  window_loop-lengths tokens zero position = tt
  window_loop-lengths tokens (suc fuel) position =
      elim (Bool-cases (ltb position (length tokens))) [
        | inl e ↦
            rw (e, window_loop)
              (let rest : List ℕ = drop position tokens in
                (
                  ground (arith, length-take s.chunk_size_tokens rest, length-drop position tokens),
                  window_loop-lengths tokens fuel (position + step s),
                ))
        | inr e ↦ rw (e, window_loop) tt
      ]

-- The first `step` tokens of the windows, one after another, are the tokens of the text: no token
-- is lost and none is out of order, however long the text, if the overlap is smaller than the size.
pub heads-windows :
    (s : ChunkingStrategy) (tokens : List ℕ)
    → s.chunk_overlap_tokens < s.chunk_size_tokens
    → heads (step s) (windows s tokens) ≡ tokens
unfolding windows
heads-windows s tokens h = heads-window_loop s h tokens (length tokens) 0 (omega arith)

-- Where a window ends, the next one goes on with the same tokens: after its first `step` tokens, a
-- window holds exactly the first `chunk_overlap_tokens` tokens of the window that follows it.
pub windows-Chained :
    (s : ChunkingStrategy) (tokens : List ℕ)
    → s.chunk_overlap_tokens < s.chunk_size_tokens
    → Chained (step s) s.chunk_overlap_tokens (windows s tokens)
unfolding windows
windows-Chained s tokens h = window_loop-Chained s h tokens (length tokens) 0

All-map_chunk :
    (s : ChunkingStrategy) (text : Text) (ws : List (List ℕ))
    → All (λ w. (0 < length w) × (length w ≤ s.chunk_size_tokens)) ws
    → All
        (λ (c : Chunk). (0 < c.token_count) × (c.token_count ≤ s.chunk_size_tokens))
        (map (window_chunk s text) ws)
unfolding window_chunk
All-map_chunk s text [] h = tt
All-map_chunk s text (w ∷ ws) h = (h.0, All-map_chunk s text ws h.1)

-- Every chunk of `FixedSizeChunker.chunk` counts at least one token and at most
-- `chunk_size_tokens`, if the overlap is smaller than the size.
pub chunk-within_budget :
    (s : ChunkingStrategy) (text : Text)
    → s.chunk_overlap_tokens < s.chunk_size_tokens
    → All
        (λ (c : Chunk). (0 < c.token_count) × (c.token_count ≤ s.chunk_size_tokens))
        (chunk s text)
unfolding chunk windows
chunk-within_budget s text h = elim (Bool-cases (is_empty (strip text))) [
  | inl e ↦ rw e tt
  | inr e ↦
      let tokens : List ℕ = s.token_counter.encode text in
      rw e
        (All-map_chunk s text (windows s tokens) (window_loop-lengths s h tokens (length tokens) 0))
]
