-- ===== src/Retrieval/VectorStore.antt =====
-- app/retrieval/qdrant_store.py: the vectors of a knowledge base, in a collection of the client of
-- Qdrant, which is a parameter, as `uuid5` and the texts of ids are. Metadata beside the known keys of
-- a payload are left out.
use rag_kb.Base.{
  ℕ, ◌≡◌, ◌↔◌, refl, ap, String, Bool, true, false, List, [], ◌∷◌, ◌++◌, map, Option, none, some,
  arith, nat_beq_iff,
}
use rag_kb.Base.Text.{Text}
use rag_kb.Base.Numerals.{decimal, value_from, value_from-decimal}
use rag_kb.Base.Equality.{elem, nat_eq}
use rag_kb.Errors.{Result, ok, err, vector_store_error}
use rag_kb.Documents.Processing.{VectorPoint}
use rag_kb.Retrieval.{SearchResult}

-- The payload of a point. A key that is missing in an answer is `none`.
pub record Payload : Type 0 where
  pub chunk_id : Option String
  pub document_id : Option Text
  pub knowledge_base_id : Option Text
  pub chunk_index : Option ℕ
  pub text : Option Text

module _ (Vector F : Type 0) where
  -- `PointStruct`
  pub record PointStruct : Type 0 where
    pub id : String
    pub vector : Vector
    pub payload : Payload

  -- `ScoredPoint`
  pub record ScoredPoint : Type 0 where
    pub id : String
    pub payload : Option Payload
    pub score : F

  -- The calls of `AsyncQdrantClient`, for a state of the server; `none` is an exception. The last
  -- arguments of `query_points` are the limit and the document that a filter asks for; `delete` takes
  -- the document of its filter.
  pub record Client : Type 1 where
    pub State : Type 0
    pub collection_exists : Text → State → Option Bool
    pub create_collection : Text → ℕ → State → Option State
    pub upsert : Text → List PointStruct → State → Option State
    pub query_points : Text → Vector → ℕ → Option Text → State → Option (List ScoredPoint)
    pub delete : Text → Text → State → Option State
    pub delete_collection : Text → State → Option State

  -- `QdrantVectorStore.__init__`, with `uuid5(NAMESPACE_URL, name)`, the texts of ids, and the
  -- parsing of a text as an id.
  pub record QdrantVectorStore : Type 1 where
    pub client : Client
    pub collection_prefix : Text
    pub uuid5 : Text → String
    pub id_text : ℕ → Text
    pub parse_id : Text → Option ℕ

  module _ (s : QdrantVectorStore) where
    abbrev pub State : Type 0
    State = s.client.State

    -- `_collection_name`
    unfoldable pub collection_name : ℕ → Text
    collection_name knowledge_base_id = s.collection_prefix ++ s.id_text knowledge_base_id

    -- The name that `_point_id` derives the id of a point from.
    unfoldable pub point_name : ℕ → ℕ → Text
    unfolding decimal
    point_name document_id chunk_index = s.id_text document_id ++ 58 ∷ decimal chunk_index

    -- `_point_id`
    unfoldable pub point_id : ℕ → ℕ → String
    unfolding point_name
    point_id document_id chunk_index = s.uuid5 (point_name document_id chunk_index)

    abbrev created : Text → ℕ → State → Option Bool → Option State
    created name dimension w none = none
    created name dimension w (some true) = some w
    created name dimension w (some false) = s.client.create_collection name dimension w

    -- `_ensure_collection_exists`
    unfoldable pub ensure_collection_exists : Text → ℕ → State → Option State
    ensure_collection_exists name dimension w =
        created name dimension w (s.client.collection_exists name w)

    abbrev pub point_struct : VectorPoint Vector → PointStruct
    point_struct p = record {
      id = point_id p.document_id p.chunk_index;
      vector = p.vector;
      payload = record {
        chunk_id = some p.chunk_id;
        document_id = some (s.id_text p.document_id);
        knowledge_base_id = some (s.id_text p.knowledge_base_id);
        chunk_index = some p.chunk_index;
        text = some p.text;
      };
    }

    -- `except Exception`: the server keeps what was done before the exception.
    abbrev pub or_failed : State → Option State → Result (Unit {0}) × State
    or_failed w none = (err vector_store_error, w)
    or_failed w (some w') = (ok tt, w')

    abbrev upserted :
        Text → List (VectorPoint Vector) → State → Option State → Result (Unit {0}) × State
    upserted name points w none = (err vector_store_error, w)
    upserted name points w (some w1) =
        or_failed w1 (s.client.upsert name (map point_struct points) w1)

    -- `upsert`
    unfoldable pub upsert : ℕ → List (VectorPoint Vector) → ℕ → State → Result (Unit {0}) × State
    unfolding collection_name ensure_collection_exists point_id
    upsert knowledge_base_id [] dimension w = (ok tt, w)
    upsert knowledge_base_id (p ∷ points) dimension w =
        let name = collection_name knowledge_base_id in
        upserted name (p ∷ points) w (ensure_collection_exists name dimension w)

    abbrev or_default : {A : Type 0} → A → Option A → A
    or_default a none = a
    or_default a (some b) = b

    abbrev result_of : ScoredPoint → Payload → Option ℕ → Option (SearchResult F)
    result_of p load none = none
    result_of p load (some document_id) = some (record {
      chunk_id = or_default p.id load.chunk_id;
      document_id = document_id;
      chunk_index = or_default 0 load.chunk_index;
      text = or_default [] load.text;
      score = p.score;
    })

    abbrev parsed : Option Text → Option ℕ
    parsed none = none
    parsed (some t) = s.parse_id t

    abbrev with_payload : ScoredPoint → Option Payload → Option (SearchResult F)
    with_payload p none = none
    with_payload p (some load) = result_of p load (parsed load.document_id)

    -- `_to_search_result`; `none` is the exception of a payload without the id of a document.
    unfoldable pub to_search_result : ScoredPoint → Option (SearchResult F)
    to_search_result p = with_payload p p.payload

    -- The comprehension over the points: an exception for one is one for all.
    unfoldable pub to_search_results : List ScoredPoint → Option (List (SearchResult F))
    unfolding to_search_result
    to_search_results [] = some []
    to_search_results (p ∷ ps) = elim (to_search_result p) [
      | none ↦ none
      | some r ↦ elim (to_search_results ps) [ none ↦ none | some rs ↦ some (r ∷ rs) ]
    ]

    abbrev all_or_failed : Option (List (SearchResult F)) → Result (List (SearchResult F))
    all_or_failed none = err vector_store_error
    all_or_failed (some rs) = ok rs

    abbrev answered : Option (List ScoredPoint) → Result (List (SearchResult F))
    answered none = err vector_store_error
    answered (some ps) = all_or_failed (to_search_results ps)

    abbrev searched :
        Text → Vector → ℕ → Option Text → State → Option Bool → Result (List (SearchResult F))
    searched name v top_k only w none = err vector_store_error
    searched name v top_k only w (some false) = ok []
    searched name v top_k only w (some true) = answered (s.client.query_points name v top_k only w)

    abbrev filter_of : Option ℕ → Option Text
    filter_of none = none
    filter_of (some document_id) = some (s.id_text document_id)

    -- `search`
    unfoldable pub search : ℕ → Vector → ℕ → Option ℕ → State → Result (List (SearchResult F))
    unfolding collection_name to_search_results
    search knowledge_base_id query_vector top_k document_id w =
        let name = collection_name knowledge_base_id in
        searched name query_vector top_k (filter_of document_id) w
          (s.client.collection_exists name w)

    abbrev where_there : (State → Option State) → State → Option Bool → Result (Unit {0}) × State
    where_there act w none = (err vector_store_error, w)
    where_there act w (some false) = (ok tt, w)
    where_there act w (some true) = or_failed w (act w)

    -- `delete_by_document`
    unfoldable pub delete_by_document : ℕ → ℕ → State → Result (Unit {0}) × State
    unfolding collection_name
    delete_by_document knowledge_base_id document_id w =
        let name = collection_name knowledge_base_id in
        where_there (s.client.delete name (s.id_text document_id)) w
          (s.client.collection_exists name w)

    -- `delete_collection`
    unfoldable pub delete_collection : ℕ → State → Result (Unit {0}) × State
    unfolding collection_name
    delete_collection knowledge_base_id w =
        let name = collection_name knowledge_base_id in
        where_there (s.client.delete_collection name) w (s.client.collection_exists name w)

before_colon :
    (xs ys a b : Text)
    → elem 58 xs ≡ false
    → elem 58 ys ≡ false
    → xs ++ 58 ∷ a ≡ ys ++ 58 ∷ b
    → (xs ≡ ys) × (a ≡ b)
before_colon [] [] a b h k e = let same : a ≡ b = cc in (refl, same)
before_colon [] (y ∷ ys) a b h k e = let first : 58 ≡ y = cc in absurd (clash first)
  where
    clash : 58 ≡ y → ⊥
    clash p = ground (arith, k, nat_beq_iff y 58, p)
before_colon (x ∷ xs) [] a b h k e = let first : x ≡ 58 = cc in absurd (clash first)
  where
    clash : x ≡ 58 → ⊥
    clash p = ground (arith, h, nat_beq_iff x 58, p)
before_colon (x ∷ xs) (y ∷ ys) a b h k e =
    let first : x ≡ y = cc in
    let rest : xs ++ 58 ∷ a ≡ ys ++ 58 ∷ b = cc in
    let (same, tails) = before_colon xs ys a b (later x xs h) (later y ys k) rest in
    (rw first (ap (λ l. y ∷ l) same), tails)
  where
    later : (c : ℕ) (l : Text) → elem 58 (c ∷ l) ≡ false → elem 58 l ≡ false
    later c l g = ground (arith, g)

-- Two points with one name are of one document and one index. Texts of ids have no colon, and
-- different ids have different texts.
point_name-injective :
    {Vector F : Type 0} (s : QdrantVectorStore Vector F) (document_id other i j : ℕ)
    → ((a b : ℕ) → s.id_text a ≡ s.id_text b → a ≡ b)
    → ((a : ℕ) → elem 58 (s.id_text a) ≡ false)
    → point_name Vector F s document_id i ≡ point_name Vector F s other j
    → (document_id ≡ other) × (i ≡ j)
unfolding point_name
point_name-injective s d other i j injective no_colon e =
    let (ids, indices) =
      before_colon (s.id_text d) (s.id_text other) (decimal i) (decimal j) (no_colon d)
        (no_colon other) e in
    (
      injective d other ids,
      omega (arith, value_from-decimal i, value_from-decimal j, ap (value_from 0) indices),
    )

-- Two points of an upsert are given one id exactly if they are of one document and one index. Texts of ids have no colon, different ids have different texts, and the hash does
-- not collide on the names of these two points.
pub point_struct-id_iff :
    {Vector F : Type 0} (s : QdrantVectorStore Vector F) (p q : VectorPoint Vector)
    → ((a b : ℕ) → s.id_text a ≡ s.id_text b → a ≡ b)
    → ((a : ℕ) → elem 58 (s.id_text a) ≡ false)
    → (s.uuid5 (point_name Vector F s p.document_id p.chunk_index)
          ≡ s.uuid5 (point_name Vector F s q.document_id q.chunk_index)
        → point_name Vector F s p.document_id p.chunk_index
          ≡ point_name Vector F s q.document_id q.chunk_index)
    → ((point_struct Vector F s p).id ≡ (point_struct Vector F s q).id)
      ↔ ((p.document_id ≡ q.document_id) × (p.chunk_index ≡ q.chunk_index))
unfolding point_id
point_struct-id_iff {Vector} {F} s p q injective no_colon no_collision = (
  λ e.
      point_name-injective s p.document_id q.document_id p.chunk_index q.chunk_index injective
        no_colon (no_collision e),
  λ (same, at_one). rw same (rw at_one refl),
)
