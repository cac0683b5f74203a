-- ===== src/Tests/Vectors.antt =====
-- The names of the points of a collection.
use rag_kb.Base.{
  ℕ, ◌≡◌, ◌↔◌, if◌then◌else◌, List, [], ◌∷◌, ◌++◌, ◌+◌, none, some, arith, true, false,
}
use rag_kb.Base.Text.{Text, codes}
use rag_kb.Base.Equality.{elem, nat_eq}
use rag_kb.Base.Numerals.{decimal}
use rag_kb.Documents.Processing.{VectorPoint}
use rag_kb.Retrieval.VectorStore.{
  Client, PointStruct, QdrantVectorStore, point_struct, point_struct-id_iff, point_name,
}

-- A server with one collection, which keeps all its points.
abbrev one_collection : Client ℕ ℕ
one_collection = record {
  State = List (PointStruct ℕ ℕ);
  collection_exists = λ name w. some true;
  create_collection = λ name dimension w. some w;
  upsert = λ name points w. some (w ++ points);
  query_points = λ name v k only w. some [];
  delete = λ name document w. some w;
  delete_collection = λ name w. some [];
}

abbrev char_of : ℕ → Text
char_of n = (100 + n) ∷ []

abbrev store : QdrantVectorStore ℕ ℕ
store = record {
  client = one_collection;
  collection_prefix = codes "kb_";
  uuid5 = λ name. if elem 49 name then "one" else "another";
  id_text = char_of;
  parse_id = λ t. none;
}

char_of-injective : (a b : ℕ) → char_of a ≡ char_of b → a ≡ b
char_of-injective a b e = let same : 100 + a ≡ 100 + b = cc in omega (arith, same)

no_colon : (a : ℕ) → elem 58 (char_of a) ≡ false
no_colon a = ground arith

abbrev point : ℕ → VectorPoint ℕ
point i = record {
  chunk_id = "c";
  document_id = 2;
  knowledge_base_id = 1;
  chunk_index = i;
  vector = 0;
  text = [];
}

apart :
    store.uuid5 (point_name ℕ ℕ store 2 1) ≡ store.uuid5 (point_name ℕ ℕ store 2 3)
    → point_name ℕ ℕ store 2 1 ≡ point_name ℕ ℕ store 2 3
unfolding point_name decimal
apart e = cc

point_struct-id_iff_example :
    ((point_struct ℕ ℕ store (point 1)).id ≡ (point_struct ℕ ℕ store (point 3)).id)
    ↔ ((◌≡◌ {A = ℕ} 2 2) × (◌≡◌ {A = ℕ} 1 3))
point_struct-id_iff_example =
    point_struct-id_iff store (point 1) (point 3) char_of-injective no_colon apart
