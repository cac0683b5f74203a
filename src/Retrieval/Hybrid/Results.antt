-- ===== src/Retrieval/Hybrid/Results.antt =====
-- The results of the hybrid retriever: none is missing, none is repeated, each carries its own
-- score, methods and description, and they are sorted and cut.
use rag_kb.Base.{
  ℕ, min, suc, String, ◌≡◌, ◌≢◌, refl, ap, true, List, [], ◌∷◌, map, some, arith, length, take, All,
  All-of, All-take, length-take,
}
use rag_kb.Base.Equality.{string_eq}
use rag_kb.Base.Dict
use rag_kb.Base.Dict.{Dict, Distinct}
use rag_kb.Base.Floats.{Floats}
use rag_kb.Base.Sort.{
  sort_descending, IsDescending, All-sort_descending, sort-IsDescending, take-IsDescending,
  DistinctBy, take-DistinctBy, sort-DistinctBy, length-sort_descending,
}
use rag_kb.Retrieval.{SearchResult, Bm25Result, RetrievedChunk, SourceMethod}
use rag_kb.Retrieval.Fusion.{reciprocal_rank_fusion, fusion_scores, contains-fusion}
use rag_kb.Retrieval.Hybrid.{
  Hit, build_chunk_lookup, track_source_methods, fused_results, dense_ids, bm25_ids, fuse,
}
use rag_kb.Retrieval.Hybrid.Lookup.{contains-build_chunk_lookup, contains-track_source_methods}

contains-lookup {ℓ} :
    {V : Type ℓ} (j : String) (d : Dict String V)
    → Dict.contains j d ≡ true
    → (v : V) × (Dict.lookup j d ≡ some v)
unfolding Dict.contains
contains-lookup j d h = ground arith

lookup-contains {ℓ} :
    {V : Type ℓ} (j : String) (v : V) (d : Dict String V)
    → Dict.lookup j d ≡ some v
    → Dict.contains j d ≡ true
unfolding Dict.contains
lookup-contains j v d h = ground arith

module _ (fl : Floats) where
  open fl use {F, less}

  -- What a result says of its chunk is what the lookup, the methods and the scores have for it.
  pub record IsSourced (chunk_lookup : Dict String Hit) (methods : Dict String (List SourceMethod))
      (scores : Dict String F) (r : RetrievedChunk F) : Type 0 where
    pub hit : Hit
    pub looked_up : Dict.lookup r.chunk_id chunk_lookup ≡ some hit
    pub document : r.document_id ≡ hit.document_id
    pub index : r.chunk_index ≡ hit.chunk_index
    pub body : r.text ≡ hit.text
    pub found_by : Dict.lookup r.chunk_id methods ≡ some r.source_methods
    pub scored : Dict.lookup r.chunk_id scores ≡ some r.fused_score

  module _ (chunk_lookup : Dict String Hit) (methods : Dict String (List SourceMethod))
      (scores : Dict String F) where
    -- The comprehension over `items` has one result for each item.
    record Renders (items : Dict String F) (rs : List (RetrievedChunk F)) : Type 0 where
      computed : fused_results fl chunk_lookup methods items ≡ some rs
      named : map (λ (r : RetrievedChunk F). r.chunk_id) rs ≡ Dict.keys items
      sourced : All (IsSourced chunk_lookup methods scores) rs

    fused_results-Renders :
        (items : Dict String F)
        → All (λ p. Dict.contains p.0 chunk_lookup ≡ true) items
        → All (λ p. Dict.contains p.0 methods ≡ true) items
        → All (λ p. Dict.lookup p.0 scores ≡ some p.1) items
        → (rs : List (RetrievedChunk F)) × Renders items rs
    unfolding fused_results Dict.keys
    fused_results-Renders [] a b c = ([], record { computed = refl; named = refl; sourced = tt })
    fused_results-Renders ((j, score) ∷ items) a b c =
        let (rs, ih) = fused_results-Renders items a.1 b.1 c.1 in
        let (hit, at) = contains-lookup j chunk_lookup a.0 in
        let (ms, by) = contains-lookup j methods b.0 in
        (
          record {
            chunk_id = j;
            document_id = hit.document_id;
            chunk_index = hit.chunk_index;
            text = hit.text;
            fused_score = score;
            source_methods = ms;
          }
              ∷ rs,
          record {
            computed = rw (a.0, at, by, ih.computed, fused_results);
            named = ap (λ l. j ∷ l) ih.named;
            sourced = (
              record {
                hit = hit;
                looked_up = at;
                document = refl;
                index = refl;
                body = refl;
                found_by = by;
                scored = c.0;
              },
              ih.sourced,
            );
          },
        )

  distinct_names :
      (d : Dict String F) (rs : List (RetrievedChunk F))
      → Distinct d
      → map (λ (r : RetrievedChunk F). r.chunk_id) rs ≡ Dict.keys d
      → DistinctBy (λ (r : RetrievedChunk F). r.chunk_id) rs
  unfolding Dict.keys
  distinct_names d [] h e = tt
  distinct_names [] (r ∷ rs) h e = cc
  distinct_names ((k, v) ∷ d) (r ∷ rs) h e =
      let here : r.chunk_id ≡ k = cc in
      let later : map (λ (q : RetrievedChunk F). q.chunk_id) rs ≡ Dict.keys d = cc in
      (others d rs later (rw here h.0), distinct_names d rs h.1 later)
    where
      others :
          (l : Dict String F) (qs : List (RetrievedChunk F))
          → map (λ (q : RetrievedChunk F). q.chunk_id) qs ≡ Dict.keys l
          → All (λ p. r.chunk_id ≢ p.0) l
          → All (λ (q : RetrievedChunk F). r.chunk_id ≢ q.chunk_id) qs
      others l [] e a = tt
      others [] (q ∷ qs) e a = cc
      others ((i, w) ∷ l) (q ∷ qs) e a =
          let same : q.chunk_id ≡ i = cc in
          let later : map (λ (q : RetrievedChunk F). q.chunk_id) qs ≡ Dict.keys l = cc in
          (rw same a.0, others l qs later a.1)

  length-names :
      (d : Dict String F) (rs : List (RetrievedChunk F))
      → map (λ (r : RetrievedChunk F). r.chunk_id) rs ≡ Dict.keys d
      → length rs ≡ length d
  unfolding Dict.keys
  length-names [] [] e = refl
  length-names [] (r ∷ rs) e = cc
  length-names (p ∷ d) [] e = cc
  length-names ((k, v) ∷ d) (r ∷ rs) e =
      let later : map (λ (q : RetrievedChunk F). q.chunk_id) rs ≡ Dict.keys d = cc in
      ap suc (length-names d rs later)

  module _ (rrf_k : ℕ) (ds : List (SearchResult F)) (bs : List (Bm25Result F)) where
    abbrev pub scores_of : Dict String F
    scores_of = reciprocal_rank_fusion fl (dense_ids fl ds ∷ bm25_ids fl bs ∷ []) rrf_k

    abbrev pub methods_of : Dict String (List SourceMethod)
    methods_of = track_source_methods (dense_ids fl ds) (bm25_ids fl bs)

    -- What `retrieve` promises of its results.
    pub record IsFusedTop (top_k : ℕ) (rs : List (RetrievedChunk F)) : Type 0 where
      pub complete : length rs ≡ min top_k (length scores_of)
      pub descending : IsDescending less (λ (r : RetrievedChunk F). r.fused_score) rs
      pub distinct : DistinctBy (λ (r : RetrievedChunk F). r.chunk_id) rs
      pub sourced : All (IsSourced (build_chunk_lookup ds bs) methods_of scores_of) rs

    known :
        (j : String) (v : F)
        → Dict.lookup j scores_of ≡ some v
        → (Dict.contains j (build_chunk_lookup ds bs) ≡ true) × (Dict.contains j methods_of ≡ true)
    known j v h =
        let there = lookup-contains j v scores_of h in
        ground (
          arith,
          contains-fusion fl j (dense_ids fl ds) (bm25_ids fl bs) rrf_k,
          contains-build_chunk_lookup j ds bs,
          contains-track_source_methods j (dense_ids fl ds) (bm25_ids fl bs),
        )

    -- `retrieve` never fails with a `KeyError` once both searches have answered: it returns as many
    -- results as chunks were found, up to `top_k`, sorted by score, best first, no chunk twice, each
    -- with its own fused score, its own methods and the description of its own chunk.
    pub fuse-IsFusedTop :
        (top_k : ℕ)
        → (rs : List (RetrievedChunk F)) × (fuse fl rrf_k ds bs top_k ≡ some rs)
          × IsFusedTop top_k rs
    unfolding fuse
    fuse-IsFusedTop top_k =
        let score = λ (r : RetrievedChunk F). r.fused_score in
        let distinct = (fusion_scores fl (dense_ids fl ds ∷ bm25_ids fl bs ∷ []) rrf_k "").0 in
        let own = Dict.Distinct-lookup scores_of distinct in
        let (rs, r) =
          fused_results-Renders (build_chunk_lookup ds bs) methods_of scores_of scores_of
            (All-of _ (λ p h. (known p.0 p.1 h).0) scores_of own)
            (All-of _ (λ p h. (known p.0 p.1 h).1) scores_of own) own in
        let sorted = sort_descending less score rs in
        (
          take top_k sorted,
          rw r.computed,
          record {
            complete = omega (
              arith,
              length-take top_k sorted,
              length-sort_descending less score rs,
              length-names scores_of rs r.named,
            );
            descending =
                take-IsDescending less score top_k sorted
                  (sort-IsDescending less score fl.order rs);
            distinct =
                take-DistinctBy _ top_k sorted
                  (sort-DistinctBy _ less score rs (distinct_names scores_of rs distinct r.named));
            sourced = All-take _ top_k sorted (All-sort_descending less score _ rs r.sourced);
          },
        )
