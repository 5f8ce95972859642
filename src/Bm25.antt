-- ===== src/Bm25.antt =====
-- backend/rag/embedding.py: the BM25 statistics of `EmbeddingService`.
pub mod Stats
pub mod Dimensions
mod Tests
