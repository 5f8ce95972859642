-- ===== src/Retrieval.antt =====
-- backend/rag/rag_utils.py: the retrieval pipeline. `Doc` is a retrieved chunk, `Sort` Python's sort,
-- `Merge` the merging of chunks into their parents, `Rerank` the reranking, `Expand` the expansion of
-- the context, `Formula` and `Citation` the two other paths, `Search` the whole of
-- `retrieve_documents`. `AutoMerge` and the modules named
-- Laws are lemmas on the module before them.
pub mod Doc
pub mod Sort
pub mod ParentStore
pub mod Merge
pub mod MergeLaws
pub mod AutoMerge
pub mod Rerank
pub mod RerankLaws
pub mod Expand
pub mod ExpandLaws
pub mod Formula
pub mod Citation
pub mod Search
pub mod SearchLaws
mod Tests
