-- ===== src/Embedding.antt =====
-- internal/adapter/embedder: the embedder of BM25 weights, and the chunker.
pub mod Tokens
pub mod Chunks
pub mod Bm25
