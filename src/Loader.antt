-- ===== src/Loader.antt =====
-- backend/rag/document_loader.py: from a file to the chunks that are stored.
pub mod Chunk
pub mod Distinct
pub mod Levels
pub mod Identifiers
pub mod Numbering
pub mod Links
pub mod Splits
pub mod Files
pub mod Forest
pub mod SectionIds
pub mod Sections
pub mod Loads
pub mod Samples
mod Tests
