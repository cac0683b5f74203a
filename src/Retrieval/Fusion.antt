-- ===== src/Retrieval/Fusion.antt =====
-- app/retrieval/fusion.py: reciprocal rank fusion.
use rag_kb.Base.{
  ℕ, ◌+◌, String, ◌≡◌, refl, List, [], ◌∷◌, Option, none, some, if◌then◌else◌, arith, eq_iff, ap,
  ◌∙◌, ◌||◌,
}
use rag_kb.Base.Equality.{◌==◌, string_eq, elem}
use rag_kb.Base.Dict
use rag_kb.Base.Dict.{Dict, Distinct, insert-Distinct, lookup-insert, contains-insert, contains_nil}
use rag_kb.Base.Floats.{Floats}

module _ (fl : Floats) where
  open fl use {F, zero_f, add, recip}

  -- The inner loop: one ranked list, from `rank` on.
  unfoldable pub rank_loop : ℕ → Dict String F → ℕ → List String → Dict String F
  unfolding Dict.get_or Dict.insert
  rank_loop k fused rank [] = fused
  rank_loop k fused rank (x ∷ xs) =
      rank_loop k (Dict.insert x (add (Dict.get_or x zero_f fused) (recip (k + rank))) fused)
        (rank + 1) xs

  -- The outer loop.
  unfoldable pub list_loop : ℕ → Dict String F → List (List String) → Dict String F
  unfolding rank_loop
  list_loop k fused [] = fused
  list_loop k fused (l ∷ ls) = list_loop k (rank_loop k fused 1 l) ls

  -- `reciprocal_rank_fusion`
  unfoldable pub reciprocal_rank_fusion : List (List String) → ℕ → Dict String F
  unfolding list_loop
  reciprocal_rank_fusion ranked_lists k = list_loop k [] ranked_lists

  -- What one list adds to the score of `j`: `1 / (k + rank)` for each rank at which `j` stands.
  abbrev pub list_score : String → ℕ → Option F → ℕ → List String → Option F
  list_score j k score rank [] = score
  list_score j k score rank (x ∷ xs) =
      list_score j k
        (if x == j
          then some (add (elim score [ none ↦ zero_f | some f ↦ f ]) (recip (k + rank)))
          else score)
        (rank + 1) xs

  -- The score of `j` from all lists, in order; `none` for an item that no list has.
  abbrev pub total_score : String → ℕ → Option F → List (List String) → Option F
  total_score j k score [] = score
  total_score j k score (l ∷ ls) = total_score j k (list_score j k score 1 l) ls

  score-bump :
      (x j : String) (k rank : ℕ) (fused : Dict String F)
      → (if x == j
          then some (add (Dict.get_or x zero_f fused) (recip (k + rank)))
          else Dict.lookup j fused)
        ≡ (if x == j
            then some
                (add (elim (Dict.lookup j fused) [ none ↦ zero_f | some f ↦ f ]) (recip (k + rank)))
            else Dict.lookup j fused)
  unfolding Dict.get_or
  score-bump x j k rank fused = ground (arith, eq_iff x j)

  lookup-rank_loop :
      (j : String) (k : ℕ) (xs : List String) (fused : Dict String F) (rank : ℕ)
      → Dict.lookup j (rank_loop k fused rank xs) ≡ list_score j k (Dict.lookup j fused) rank xs
  unfolding rank_loop
  lookup-rank_loop j k [] fused rank = refl
  lookup-rank_loop j k (x ∷ xs) fused rank =
      let v = add (Dict.get_or x zero_f fused) (recip (k + rank)) in
      lookup-rank_loop j k xs (Dict.insert x v fused) (rank + 1)
      ∙ ap (λ o. list_score j k o (rank + 1) xs)
          (lookup-insert x j v fused ∙ score-bump x j k rank fused)

  lookup-list_loop :
      (j : String) (k : ℕ) (ls : List (List String)) (fused : Dict String F)
      → Dict.lookup j (list_loop k fused ls) ≡ total_score j k (Dict.lookup j fused) ls
  unfolding list_loop
  lookup-list_loop j k [] fused = refl
  lookup-list_loop j k (l ∷ ls) fused =
      lookup-list_loop j k ls (rank_loop k fused 1 l)
      ∙ ap (λ o. total_score j k o ls) (lookup-rank_loop j k l fused 1)

  rank_loop-Distinct :
      (k : ℕ) (xs : List String) (fused : Dict String F) (rank : ℕ)
      → Distinct fused
      → Distinct (rank_loop k fused rank xs)
  unfolding rank_loop
  rank_loop-Distinct k [] fused rank h = h
  rank_loop-Distinct k (x ∷ xs) fused rank h =
      let v = add (Dict.get_or x zero_f fused) (recip (k + rank)) in
      rank_loop-Distinct k xs (Dict.insert x v fused) (rank + 1) (insert-Distinct x v fused h)

  list_loop-Distinct :
      (k : ℕ) (ls : List (List String)) (fused : Dict String F)
      → Distinct fused
      → Distinct (list_loop k fused ls)
  unfolding list_loop
  list_loop-Distinct k [] fused h = h
  list_loop-Distinct k (l ∷ ls) fused h =
      list_loop-Distinct k ls (rank_loop k fused 1 l) (rank_loop-Distinct k l fused 1 h)

  -- No item has two entries in the result of `reciprocal_rank_fusion`, and the score of an item is
  -- the sum of `1 / (k + rank)` over the lists and the ranks (from 1) at which it stands, added in
  -- that order; an item that stands in no list has no score.
  pub fusion_scores :
      (ranked_lists : List (List String)) (k : ℕ) (j : String)
      → Distinct (reciprocal_rank_fusion ranked_lists k)
        × (Dict.lookup j (reciprocal_rank_fusion ranked_lists k)
            ≡ total_score j k none ranked_lists)
  unfolding reciprocal_rank_fusion
  fusion_scores ranked_lists k j = (
    list_loop-Distinct k ranked_lists [] tt,
    lookup-list_loop j k ranked_lists []
        ∙ ap (λ o. total_score j k o ranked_lists) (unfold Dict.lookup in refl),
  )

  -- The keys after a list: its items, and those that were there.
  pub contains-rank_loop :
      (j : String) (k : ℕ) (xs : List String) (fused : Dict String F) (rank : ℕ)
      → Dict.contains j (rank_loop k fused rank xs) ≡ (elem j xs || Dict.contains j fused)
  unfolding rank_loop
  contains-rank_loop j k [] fused rank = refl
  contains-rank_loop j k (x ∷ xs) fused rank =
      let v = add (Dict.get_or x zero_f fused) (recip (k + rank)) in
      ground (
        arith,
        contains-rank_loop j k xs (Dict.insert x v fused) (rank + 1),
        contains-insert x j v fused,
      )

  -- An item has an entry exactly if it stands in one of two lists.
  pub contains-fusion :
      (j : String) (xs ys : List String) (k : ℕ)
      → Dict.contains j (reciprocal_rank_fusion (xs ∷ ys ∷ []) k) ≡ (elem j ys || elem j xs)
  unfolding reciprocal_rank_fusion list_loop
  contains-fusion j xs ys k = ground (
    arith,
    contains-rank_loop j k xs [] 1,
    contains-rank_loop j k ys (rank_loop k [] 1 xs) 1,
    contains_nil F j,
  )
