-- ===== src/Retrieval/Bm25.antt =====
-- app/retrieval/bm25_store.py: keyword search. The scores of the index (rank_bm25) are a function of
-- the tokens, an argument; so are the tables of Unicode letters and of lower case.
use rag_kb.Base.{
  zip_strict-total, ℕ, ◌≤◌, ◌≡◌, inl, inr, Bool, true, false, List, [], ◌∷◌, map, Option, none,
  some, length, take, if◌then◌else◌, filterb, is_empty, arith, Bool-cases, All, length-take,
  zip_strict,
}
use rag_kb.Base.Text.{Text, cons_head}
use rag_kb.Base.Floats.{Floats}
use rag_kb.Base.Sort.{sort_descending, IsDescending, take-IsDescending, sort-IsDescending}
use rag_kb.Errors.{Result, ok, err, vector_store_error}
use rag_kb.Retrieval.{Bm25Document, Bm25Result}

-- The tables that `\w` and `str.lower` stand on.
pub record Alphabet : Type 0 where
  pub is_word : ℕ → Bool
  pub lower : Text → Text

-- The maximal runs of word characters; the Boolean says whether one is under way.
unfoldable pub word_runs : (ℕ → Bool) → Bool → Text → List Text
word_runs w inside [] = if inside then [] ∷ [] else []
word_runs w true (c ∷ cs) = elim (w c) [
  | true ↦ cons_head c (word_runs w true cs)
  | false ↦ [] ∷ word_runs w false cs
]
word_runs w false (c ∷ cs) = elim (w c) [
  | true ↦ cons_head c (word_runs w true cs)
  | false ↦ word_runs w false cs
]

-- `_tokenize`
unfoldable pub tokenize : Alphabet → Text → List Text
unfolding word_runs
tokenize a text = word_runs a.is_word false (a.lower text)

module _ (fl : Floats) (a : Alphabet)
    (get_scores : List (List Text) → List Text → Result (List fl.F)) where
  open fl use {F, less, zero_f}

  abbrev to_result : Bm25Document × F → Bm25Result F
  to_result (doc, score) = record {
    chunk_id = doc.chunk_id;
    document_id = doc.document_id;
    chunk_index = doc.chunk_index;
    text = doc.text;
    score = score;
  }

  -- `results`: the best `top_k` of all, and of these the ones with a score above zero.
  abbrev best : ℕ → List (Bm25Document × F) → List (Bm25Result F)
  best top_k pairs = map to_result (
      filterb (λ p. less zero_f p.1)
        (take top_k (sort_descending less (λ (p : Bm25Document × F). p.1) pairs)))

  abbrev ranked : List Bm25Document → ℕ → Result (List F) → Result (List (Bm25Result F))
  ranked documents top_k (err e) = err vector_store_error
  ranked documents top_k (ok scores) = elim (zip_strict documents scores) [
    | none ↦ err vector_store_error
    | some pairs ↦ ok (best top_k pairs)
  ]

  -- `BM25Store.search`: every exception of the index becomes a `VectorStoreError`.
  unfoldable pub search : List Bm25Document → Text → ℕ → Result (List (Bm25Result F))
  unfolding tokenize sort_descending
  search documents query top_k =
      if is_empty documents
      then ok []
      else ranked documents top_k
          (get_scores (map (λ (d : Bm25Document). tokenize a d.text) documents) (tokenize a query))

  filter-IsDescending :
      (ps : List (Bm25Document × F))
      → IsDescending less (λ (p : Bm25Document × F). p.1) ps
      → All
          (λ (r : Bm25Result F). less zero_f r.score ≡ true)
          (map to_result (filterb (λ p. less zero_f p.1) ps))
        × IsDescending less
            (λ (r : Bm25Result F). r.score)
            (map to_result (filterb (λ p. less zero_f p.1) ps))
        × (length (map to_result (filterb (λ p. less zero_f p.1) ps)) ≤ length ps)
  filter-IsDescending [] h = (tt, tt, omega arith)
  filter-IsDescending (p ∷ ps) h =
      let (positive, sorted, short) = filter-IsDescending ps h.1 in
      elim (Bool-cases (less zero_f p.1)) [
        | inl e ↦ rw e ((e, positive), (below ps h.0, sorted), omega arith)
        | inr e ↦ rw e (positive, sorted, omega arith)
      ]
    where
      below :
          (qs : List (Bm25Document × F))
          → All (λ (q : Bm25Document × F). less p.1 q.1 ≡ false) qs
          → All
              (λ (r : Bm25Result F). less p.1 r.score ≡ false)
              (map to_result (filterb (λ q. less zero_f q.1) qs))
      below [] a = tt
      below (q ∷ qs) a = elim (Bool-cases (less zero_f q.1)) [
        | inl e ↦ rw e (a.0, below qs a.1)
        | inr e ↦ rw e (below qs a.1)
      ]

  -- What a search returns: at most `top_k` results, each with a score above zero, best first.
  abbrev pub IsRanked : ℕ → List (Bm25Result F) → Type 0
  IsRanked top_k rs =
      (length rs ≤ top_k)
      × All (λ (r : Bm25Result F). less zero_f r.score ≡ true) rs
      × IsDescending less (λ (r : Bm25Result F). r.score) rs

  ranked-IsRanked :
      (documents : List Bm25Document) (top_k : ℕ) (scores : Result (List F))
      (rs : List (Bm25Result F))
      → ranked documents top_k scores ≡ ok rs
      → IsRanked top_k rs
  ranked-IsRanked documents top_k (err e) rs h = cc
  ranked-IsRanked documents top_k (ok scores) rs h = go (zip_strict documents scores) h
    where
      go :
          (z : Option (List (Bm25Document × F)))
          → elim z [ none ↦ err vector_store_error | some pairs ↦ ok (best top_k pairs) ] ≡ ok rs
          → IsRanked top_k rs
      go none h = cc
      go (some pairs) h =
          let key = λ (p : Bm25Document × F). p.1 in
          let sorted = sort_descending less key pairs in
          let (positive, descending, short) =
            filter-IsDescending (take top_k sorted) (
              take-IsDescending less key top_k sorted
                (sort-IsDescending less key fl.order pairs)) in
          let e : best top_k pairs ≡ rs = cc in
          rw (← e) (omega (arith, length-take top_k sorted), positive, descending)

  -- With one score for each document, a search succeeds: it returns at most `top_k` results, each
  -- scored above zero, best first.
  pub search-IsRanked :
      (documents : List Bm25Document) (query : Text) (top_k : ℕ) (scores : List F)
      → is_empty documents ≡ false
      → get_scores (map (λ (d : Bm25Document). tokenize a d.text) documents) (tokenize a query)
        ≡ ok scores
      → length documents ≡ length scores
      → (rs : List (Bm25Result F)) × (search documents query top_k ≡ ok rs) × IsRanked top_k rs
  unfolding search
  search-IsRanked documents query top_k scores some_there got same_length =
      let (pairs, zipped, _, _) = zip_strict-total documents scores same_length in
      let answer : ranked documents top_k (ok scores) ≡ ok (best top_k pairs) =
        rw (zipped, ranked) in
      (
        best top_k pairs,
        rw some_there (rw got answer),
        ranked-IsRanked documents top_k (ok scores) (best top_k pairs) answer,
      )
