-- ===== src/Lib.antt =====
-- PaperRAG: verification of the Python backend.
--
-- The backend answers questions about academic papers. Documents are split into chunks of three
-- levels and stored in Milvus (leaves) and PostgreSQL (parents); a question is answered from the
-- chunks that a hybrid retrieval finds. Long operations are jobs with a stored status, and the Go
-- service hands AI work to an internal execution surface. The development models the parts that
-- carry this logic:
--
-- - Execution: backend/internal_api. A row is `Execution` of executions.py; each change that
--   `_mutate` applies is a function on a row (`start_change`, `succeed_change`, ...). `Store` is
--   `ExecutionStore`, a step for each method, since each runs under the store's lock; `Postgres` is
--   `PostgresExecutionStore`, a step for each transaction over the table with its three unique keys.
--   `Runner` is `_run`: between two of its calls of the store any list of calls by other threads may
--   come, the run lock is held by one thread at a time, and the handler's outcome (a result, a
--   `TaskError`, an exception) and the readings of the clock are arguments. `Router` is the
--   endpoints, over the rows in memory with the error that the table's `submit` has for a request whose
--   key and task match two rows. The pydantic codec of the table and the freshness of `uuid4` are hypotheses.
-- - Jobs: backend/services/upload_jobs.py. `Manager` is `UploadJobManager`: a change works on a copy,
--   and an exception leaves the stored job as it was. `Redis` is `RedisJobManager._mutate`: a loop of
--   eight rounds; for each round the write that another client makes between WATCH and EXEC, if any,
--   is an argument. The rounds are the fuel, as in the source, and running out of them is the
--   source's `RuntimeError`.
-- - Retrieval: backend/rag/rag_utils.py from the candidates to the answer: `_rerank_documents`,
--   `_merge_to_parent_level` and `_auto_merge_documents`, `_expand_context`, `_formula_search`,
--   `_citation_boost` and `retrieve_documents`, with the table of parent chunks of
--   backend/rag/parent_chunk_store.py (`ParentStore`), each write one transaction. The scores are a
--   type with the comparison `<`; what the reranker, its HTTP endpoint, Milvus and the LSH index
--   answer are arguments, exceptions included; of the endpoint's exceptions the five that the source names
--   are caught, and others escape.
--   An exception of a stage inside the hybrid or the dense attempt is one of the whole attempt, as
--   the source's `try` has it. A missing key of a chunk is its default.
-- - Cache: backend/services/cache.py. `Semantic` is `SemanticCache`, whose normal form of a query,
--   embedding and similarity are arguments; `evict` has the number of entries and one more as fuel,
--   and running out of it is the error of `min` on an empty dictionary. `Breaker` is the circuit
--   breaker of `RedisCache` and the operations behind it.
-- - Bm25: backend/rag/embedding.py. `Stats` is the tokens of a text, the statistics, their file and
--   the vector of a text; the order in which Python goes through a set, `str.lower` and the
--   floating-point weight are arguments.
-- - Loader: backend/rag/document_loader.py. `Levels` is `_split_page_to_three_levels` with its four
--   counters, `Splits` the standard and the structural split, `Files` the chain of the PDF parsers,
--   `load_document` and the folder. The text splitters, what the libraries make of a file, the
--   regular expressions of the cleaner and of the extractors, and `str` of a number are arguments.
-- - Documents: backend/services/document_jobs.py. `Calls` is the state that the operations share with
--   the services (ingested state, files, vectors, parents, statistics) and calls that may fail: for
--   each call to come an argument says that it works or after which part of its work it fails, as an
--   exception or the end of the process. `Index` is the operations under the lock of the index, with one
--   write of the file by another process, between the loader's read and the second hash; other such writes
--   are not represented. The rows of the collection have the columns that the writer gives them, without
--   the two vectors. The table of parents and the statistics are changed by functions of which nothing
--   is assumed; the results say which calls they were given. `Recovery` is the readers and the recovery
--   at the start, `Filename` the rule for names on code points. `Loading` and `Program` put the model
--   of the loader in the place of the service. `write_documents` registers the texts and inserts the
--   rows in order; a failure keeps the first of them.
-- - Vectors: backend/vectordb/milvus_writer.py. `write_documents` with the vectors of a text, the size
--   of the batches and the outcome of each call (of the collection, the statistics, the embedding, the
--   insertion and the report) as arguments; the rounds of its loop are the fuel, as many as there are
--   documents.
-- - Agent: backend/agent/verify.py. `Verify` is the choice of the final answer and the check of its
--   citations; what the regular expression finds in a text is an argument.
-- - Base: Python's dictionaries in the order of insertion, lists and text, results that return or
--   raise, and JSON values.
--
-- Not modelled: the job runners of backend/services/document_jobs.py and the JSON file of its state,
-- the regular expressions over texts, the LangGraph workflow, the model calls of the agent,
-- conversations, authentication, the public API and the database schema; the Go service (server), the Vue frontend
-- (frontend) and the scripts are other programs. Logging and metrics have no effect on the state.
pub mod Base
pub mod Execution
pub mod Jobs
pub mod Retrieval
pub mod Cache
pub mod Bm25
pub mod Loader
pub mod Documents
pub mod Vectors
pub mod Agent
