-- ===== src/Retrieval/Hybrid/Lookup.antt =====
-- The two dictionaries of the hybrid retriever: which keys they have, which methods they name, and
-- that a dense result goes before a BM25 result of the same chunk.
use rag_kb.Base.{
  String, ◌≡◌, refl, ◌∙◌, ap, sym, true, ◌||◌, List, [], ◌∷◌, ◌++◌, map, some, if◌then◌else◌, arith,
  eq_iff,
}
use mathlib.Core.List.{append-nil, append_assoc}
use rag_kb.Base.Equality.{◌==◌, string_eq, elem}
use rag_kb.Base.Dict
use rag_kb.Base.Dict.{
  Dict, lookup-insert, contains-insert, contains-set_default, lookup-set_default-some, contains_nil,
}
use rag_kb.Retrieval.{SearchResult, Bm25Result, SourceMethod, dense, bm25}
use rag_kb.Retrieval.Hybrid.{
  Hit, dense_hit, bm25_hit, dense_lookup, bm25_lookup, build_chunk_lookup, add_method, track,
  track_source_methods,
}

module _ {S : Type 0} where
  contains-dense_lookup :
      (j : String) (rs : List (SearchResult S)) (d : Dict String Hit)
      → Dict.contains j (dense_lookup rs d)
        ≡ (elem j (map (λ (r : SearchResult S). r.chunk_id) rs) || Dict.contains j d)
  unfolding dense_lookup
  contains-dense_lookup j [] d = refl
  contains-dense_lookup j (r ∷ rs) d = ground (
    arith,
    contains-dense_lookup j rs (Dict.insert r.chunk_id (dense_hit r) d),
    contains-insert r.chunk_id j (dense_hit r) d,
  )

  contains-bm25_lookup :
      (j : String) (rs : List (Bm25Result S)) (d : Dict String Hit)
      → Dict.contains j (bm25_lookup rs d)
        ≡ (elem j (map (λ (r : Bm25Result S). r.chunk_id) rs) || Dict.contains j d)
  unfolding bm25_lookup
  contains-bm25_lookup j [] d = refl
  contains-bm25_lookup j (r ∷ rs) d = ground (
    arith,
    contains-bm25_lookup j rs (Dict.set_default r.chunk_id (bm25_hit r) d),
    contains-set_default r.chunk_id j (bm25_hit r) d,
  )

  pub contains-build_chunk_lookup :
      (j : String) (ds : List (SearchResult S)) (bs : List (Bm25Result S))
      → Dict.contains j (build_chunk_lookup ds bs) ≡ (
          elem j (map (λ (r : Bm25Result S). r.chunk_id) bs)
          || elem j (map (λ (r : SearchResult S). r.chunk_id) ds))
  unfolding build_chunk_lookup
  contains-build_chunk_lookup j ds bs = ground (
    arith,
    contains-bm25_lookup j bs (dense_lookup ds []),
    contains-dense_lookup j ds [],
    contains_nil Hit j,
  )

  bm25_lookup-keeps :
      (j : String) (h : Hit) (rs : List (Bm25Result S)) (d : Dict String Hit)
      → Dict.lookup j d ≡ some h
      → Dict.lookup j (bm25_lookup rs d) ≡ some h
  unfolding bm25_lookup
  bm25_lookup-keeps j h [] d e = e
  bm25_lookup-keeps j h (r ∷ rs) d e =
      bm25_lookup-keeps j h rs (Dict.set_default r.chunk_id (bm25_hit r) d)
        (lookup-set_default-some r.chunk_id j (bm25_hit r) h d e)

  -- A chunk that the dense search found is described by the dense result, not by BM25's.
  pub lookup-build_chunk_lookup_dense :
      (j : String) (h : Hit) (ds : List (SearchResult S)) (bs : List (Bm25Result S))
      → Dict.lookup j (dense_lookup ds []) ≡ some h
      → Dict.lookup j (build_chunk_lookup ds bs) ≡ some h
  unfolding build_chunk_lookup
  lookup-build_chunk_lookup_dense j h ds bs e = bm25_lookup-keeps j h bs (dense_lookup ds []) e

contains-add_method :
    (m : SourceMethod) (x j : String) (d : Dict String (List SourceMethod))
    → Dict.contains j (add_method m x d) ≡ (if x == j then true else Dict.contains j d)
unfolding add_method
contains-add_method m x j d =
    let there = Dict.set_default x [] d in
    ground (
      arith,
      contains-insert x j (Dict.get_or x [] there ++ m ∷ []) there,
      contains-set_default x j [] d,
    )

contains-track :
    (m : SourceMethod) (j : String) (js : List String) (d : Dict String (List SourceMethod))
    → Dict.contains j (track m js d) ≡ (elem j js || Dict.contains j d)
unfolding track
contains-track m j [] d = refl
contains-track m j (x ∷ js) d =
    ground (arith, contains-track m j js (add_method m x d), contains-add_method m x j d)

pub contains-track_source_methods :
    (j : String) (xs ys : List String)
    → Dict.contains j (track_source_methods xs ys) ≡ (elem j ys || elem j xs)
unfolding track_source_methods
contains-track_source_methods j xs ys = ground (
  arith,
  contains-track bm25 j ys (track dense xs []),
  contains-track dense j xs [],
  contains_nil (List SourceMethod) j,
)

-- One mark for each time that `j` stands in the list.
abbrev pub marks : String → SourceMethod → List String → List SourceMethod
marks j m [] = []
marks j m (x ∷ xs) = if x == j then m ∷ marks j m xs else marks j m xs

get_or-set_default :
    (x j : String) (d : Dict String (List SourceMethod))
    → Dict.get_or j [] (Dict.set_default x [] d) ≡ Dict.get_or j [] d
unfolding Dict.get_or Dict.set_default Dict.contains
get_or-set_default x j d = ground (arith, lookup-insert x j [] d, eq_iff x j)

get_or-insert :
    (x j : String) (v : List SourceMethod) (d : Dict String (List SourceMethod))
    → Dict.get_or j [] (Dict.insert x v d) ≡ (if x == j then v else Dict.get_or j [] d)
unfolding Dict.get_or
get_or-insert x j v d = ground (arith, lookup-insert x j v d)

get_or-add_method :
    (m : SourceMethod) (x j : String) (d : Dict String (List SourceMethod))
    → Dict.get_or j [] (add_method m x d)
      ≡ (if x == j then Dict.get_or j [] d ++ m ∷ [] else Dict.get_or j [] d)
unfolding add_method
get_or-add_method m x j d =
    let there = Dict.set_default x [] d in
    ground (
      arith,
      get_or-insert x j (Dict.get_or x [] there ++ m ∷ []) there,
      get_or-set_default x j d,
      eq_iff x j,
    )

get_or-track :
    (m : SourceMethod) (j : String) (js : List String) (d : Dict String (List SourceMethod))
    → Dict.get_or j [] (track m js d) ≡ Dict.get_or j [] d ++ marks j m js
unfolding track
get_or-track m j [] d = sym (append-nil (Dict.get_or j [] d))
get_or-track m j (x ∷ js) d = ground (
  arith,
  get_or-track m j js (add_method m x d),
  get_or-add_method m x j d,
  append_assoc (Dict.get_or j [] d) (m ∷ []) (marks j m js),
)

-- The methods of a chunk: `dense` for each dense result that has it, then `bm25` for each BM25
-- result.
pub get_or-track_source_methods :
    (j : String) (xs ys : List String)
    → Dict.get_or j [] (track_source_methods xs ys) ≡ marks j dense xs ++ marks j bm25 ys
unfolding track_source_methods
get_or-track_source_methods j xs ys =
    get_or-track bm25 j ys (track dense xs [])
    ∙ ap (λ l. l ++ marks j bm25 ys) (get_or-track dense j xs [] ∙ nothing)
  where
    nothing : Dict.get_or {V = List SourceMethod} j [] [] ++ marks j dense xs ≡ marks j dense xs
    nothing = unfold Dict.get_or Dict.lookup in refl
