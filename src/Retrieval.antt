-- ===== src/Retrieval.antt =====
-- app/retrieval/base.py and app/retrieval/bm25_store.py: the chunks that the stages of retrieval
-- hand on, over any type of scores. Identifiers of chunks and documents are texts and numbers that
-- are only compared. The `extra_metadata` fields, which no stage reads, are left out.
pub mod Fusion
pub mod Bm25
pub mod Hybrid
pub mod Rerank
pub mod Dedup
pub mod Compress
pub mod Pipeline
pub mod VectorStore
use rag_kb.Base.{ℕ, String, List}
use rag_kb.Base.Text.{Text}

pub record SearchResult (S : Type 0) : Type 0 where
  pub chunk_id : String
  pub document_id : ℕ
  pub chunk_index : ℕ
  pub text : Text
  pub score : S

pub record Bm25Document : Type 0 where
  pub chunk_id : String
  pub document_id : ℕ
  pub chunk_index : ℕ
  pub text : Text

pub record Bm25Result (S : Type 0) : Type 0 where
  pub chunk_id : String
  pub document_id : ℕ
  pub chunk_index : ℕ
  pub text : Text
  pub score : S

pub data SourceMethod : Type 0 where
  dense bm25 : SourceMethod

pub record RetrievedChunk (S : Type 0) : Type 0 where
  pub chunk_id : String
  pub document_id : ℕ
  pub chunk_index : ℕ
  pub text : Text
  pub fused_score : S
  pub source_methods : List SourceMethod

pub record RankedChunk (S : Type 0) : Type 0 where
  pub chunk_id : String
  pub document_id : ℕ
  pub chunk_index : ℕ
  pub text : Text
  pub rerank_score : S
  pub source_methods : List SourceMethod

pub record CompressedChunk (S : Type 0) : Type 0 where
  pub chunk_id : String
  pub document_id : ℕ
  pub chunk_index : ℕ
  pub text : Text
  pub rerank_score : S
  pub token_count : ℕ
