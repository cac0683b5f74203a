-- ===== src/Lib.antt =====
-- RAG-kb: a server for knowledge bases. Users register and log in, upload documents, and ask
-- questions; a document is loaded, cut into chunks, embedded and indexed by a task in the background,
-- and a question is answered from the chunks that a hybrid search finds, reranks and compresses.
--
-- Parts, and the code that each models:
--   * Chunking: app/chunking. Fixed, Sentence and Recursive are the strategies (`chunk` of each
--     class), Factory is `ChunkingFactory.get_strategy`. The windows of Fixed run on fuel, the number
--     of tokens of the text, which is enough because the step is positive.
--   * Retrieval: app/retrieval. Fusion is `reciprocal_rank_fusion`, Bm25 is `BM25Store.search`,
--     Hybrid is `HybridRetriever.retrieve` from the results of the two searches on, Rerank is
--     `RerankingService.rerank` and the score of Cohere's provider, Dedup is
--     `Deduplicator.deduplicate`, Compress is `ContextCompressor.compress`, VectorStore is
--     `QdrantVectorStore` over a client that is a parameter.
--   * RateLimit: app/middleware/rate_limiting.py. `dispatch` takes the time, the request and
--     `_request_times`, and gives the outcome and the new `_request_times`.
--   * Auth: app/core/security.py (Security), the tables and repositories of users and tokens (Store)
--     and app/services/auth_service.py (Service); Sessions, Links, Resets and Accounts are proofs. A
--     method is a function from the tables and the sent mail to a result and the new ones; the clock
--     and the random draws of a call are arguments.
--   * Documents: the knowledge bases and documents (Service), one run of
--     app/tasks/document_processing.py with its commits and rollbacks (Processing), and the runs that
--     Celery makes one behind the other (Runs).
--   * Loaders: app/loaders. Formats has text, CSV, DOCX and HTML, Pdf both loaders of PDF, Factory the
--     choice by extension; Layout is proofs.
--   * Cache: app/core/cache.py and the invalidation of cached responses.
--   * Llm: app/llm/llm_service.py and app/embeddings/embedding_service.py (Queries is `embed_text`).
--   * Guardrails: app/guardrails. Injection is the check of a question, Output that of an answer; the
--     tables of patterns are written out, the matching is a parameter.
--   * Prompts: app/llm/templates.py and app/llm/prompt_builder.py; Sources is proofs.
--   * Conversations: app/services/conversation_service.py and its tables. Service has the operations
--     on conversations, Sending is `send_message` and `send_message_streaming`, and the session that
--     app/db/dependencies.py gives a request (`requested`). A method is a function from the stores
--     to an outcome and the stores that its session sees; an outcome is a value, an exception of the
--     program, or one of Python's own. The time of the transaction stands in the stores, and the
--     order in which the database gives messages is a parameter. Access, Turns, Replies, Cached,
--     Streams, History and Ownership are proofs.
--   * Evaluation: app/evaluation. The metrics, Judge, Results (the averages) and Runner; Fences is
--     proofs.
--   * Admin: app/services/admin_service.py, and the checks of users in app/api/dependencies.py.
--   * Base and Errors hold what these share: lists and dictionaries as Python has them, a stable
--     sort, sets, texts as lists of code points, floats as far as scores need them, the exceptions.
--   * Tests hold concrete inputs.
--
-- How they interact: Processing calls Chunking.Factory on the loaded text; Recursive falls back on
-- Sentence and that on Fixed; Hybrid uses Fusion; Compress takes the deduplication as an argument.
-- Retrieval.Pipeline puts search, reranking and compression together; Conversations and Evaluation
-- run it, build the prompt with Prompts, and ask the model. Conversations calls Guardrails in front
-- of a question and behind an answer, and Cache for questions without a history.
--
-- Parameters stand for what is not in the repository: tiktoken, BM25Okapi, numpy, the reranking
-- models, jose, passlib, Redis, JSON, the parsers of file formats, SHA-256, regular expressions, the
-- model providers and tenacity, Qdrant's client, and in Processing also the loaders, the file storage
-- and the vector store. Identifiers are numbers or strings, times are ticks of a clock, and the order of floats is that of
-- floats without NaN.
--
-- Not modelled: the clients of file storage, the HTTP interface, configuration and observability: for
-- the most part calls of other packages, wiring, and input and output. The ids of messages, latencies, pauses, logs and counters are left out of the parts that have them.
pub mod Base
pub mod Errors
pub mod Chunking
pub mod Retrieval
pub mod RateLimit
pub mod Auth
pub mod Documents
pub mod Cache
pub mod Llm
pub mod Evaluation
pub mod Loaders
pub mod Guardrails
pub mod Prompts
pub mod Conversations
pub mod Admin
mod Tests
