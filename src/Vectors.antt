-- ===== src/Vectors.antt =====
-- backend/vectordb/milvus_writer.py: how chunks become rows of the vector database.
pub mod Writer
pub mod Writes
mod Tests
