-- ===== src/Lib.antt =====
-- RAG Enterprise: the backend of a document search service, in backend/src/rag_enterprise. Documents
-- are organised in knowledge bases and folders, uploaded, split to chunks, indexed, and searched to
-- answer questions. This library models the parts that decide what is stored: the commands on knowledge
-- bases, the way of an uploaded file to chunks and embeddings, and what the lexical search is over.
--
-- The knowledge service (Knowledge): the commands that change the database and the file store.
--   Knowledge/Enums, Models: knowledge/enums.py and knowledge/models.py. A record is a table's row and
--     `Database` is the lists of rows. Identifiers and times are numbers.
--   Knowledge/Errors: application/common/errors.py, result.py and knowledge/authorization.py.
--     `Outcome` is a result, a failure with its error, or an exception that leaves the handler.
--   Knowledge/Storage, Session: knowledge/infrastructure/storage.py and db/unit_of_work/sqlalchemy.py.
--     A step `Tx A` takes a session (the database as the session sees it, the one that is committed,
--     and the files) to an outcome and a session. `unit_of_work` keeps what has been committed. The
--     file store is the one in memory, and takes no part in the transaction.
--   Knowledge/Repositories: knowledge/repositories, one module for each, and in Indexed the cascading
--     deletes of indexing/repositories and generation/repositories.py.
--   Knowledge/Commands, Commands/Validation: knowledge/commands.py, context.py and validation.py.
--   Knowledge/Handlers: knowledge/handlers/command_handlers.py, with one function for the `handle` of
--     each of the 18 classes (`CreateFolderHandler.handle` is `create_folder`); Handlers/Dispatch is
--     knowledge/registration.py with application/commands/dispatcher.py.
--   Knowledge/Authorization, Atomicity, LegalHold, Subtrees, Removal, LostUpdates, Uploading, Binding,
--     VersionNumbers: theorems on these.
-- The splitter (Chunking): chunking/splitter.py.
--   Chunking/Breaks: `_choose_break`, `str.rfind` and slices. Chunking/Split: `_split_span`, its loop on
--     fuel. The fuel is the length of the span, which is enough since each round moves the cursor by at
--     least one. Chunking/Merge: `_merge_units` with `flush_buffer` and the join of the last two spans.
--   Chunking/Coalesce: `_coalesce_semantic_units`; its fuel is the number of units, and each round takes at
--     least one. Chunking/Pieces: `_trim_span`, `_heading_covering`, and `split_paragraphs`, which is
--     `split_persian_document` from the paragraphs on.
--   Chunking/Split/Tiling, Split/Stutter, Merge/Spans, Merge/Coverage, Merge/Bounds, Merge/Ends,
--     Coalesce/Keeping, Coalesce/Ends, Pieces/Trimming, Pieces/Covering, Pieces/Bounds, Pieces/Exact:
--     theorems on these.
--   Chunking/Service: chunking/service.py, which replaces the chunks of a version by the pieces of its text;
--     Service/Replacing: a theorem on it.
-- The indexing service (Indexing): indexing/, which embeds the chunks of a version. It works on the same
--   `Database`; the calls of the provider are counted, as its answers may vary.
--   Indexing/Enums, Models, Session: indexing/enums.py, models.py and exceptions.py; an `Action` takes a
--     session to a result or an exception. `in_session` keeps what has been committed.
--   Indexing/Repositories: indexing/repositories, and the queries on versions.
--   Indexing/Batches, Embedding, Service, Service/Attempts: indexing/service.py. Embedding has the calls of
--     the provider; the fuel of `_embed_batch_with_split` is one more than the chunks of the batch, and
--     each of its recursive calls has fewer. Service has the rounds over the vectors of a batch, and
--     Service/Attempts one attempt, the attempts in a row, and the three operations.
--   Indexing/Keeping, Service/Rounds: the rules by which a predicate on sessions is carried through an
--     action. Indexing/Generations, Coverage, Completion, Superseding, Embedding/Splitting: theorems.
-- The pipeline (Pipeline): pipeline/service.py, which takes a version through processing, chunking and
--   indexing. Pipeline has the steps and Pipeline/Service the methods; Pipeline/Failures: theorems.
-- The lexical index (Retrieval), which the search reads. Retrieval/Corpus: `list_indexed_corpus` of
--   indexing/repositories/embedding.py, the rows of the four tables that a search may find;
--     Corpus/Searched, Corpus/Current: theorems.
--   Retrieval/LexicalIndex: retrieval/lexical_index.py, with the process cache and the side files as its
--     state. The storage root is taken to be given. LexicalIndex/Caching: theorems.
-- Prelude has what they share: Boolean tests on native numbers, lists, tables with the statements
-- that select, update and delete rows, and strings as lists of code points.
--
-- Parameters. A handler takes an `Env`: the readings of the clock, the identifier that `uuid4` gives,
-- SHA-256, and the database's `LIKE`. The loop of the splitter takes the candidate breaks, which regular
-- expressions find, and `int(0.7 * n)`, which is computed with floating point numbers. The chunking
-- service takes the paragraphs of a text, the indexing service the answers of the embedding provider, and
-- the pipeline what the parsers make of a file, and UTF-8. The lexical index takes the clock and the
-- function `tokenize_lexical`, of which nothing is assumed but what a theorem states.
--
-- Not modelled: constraints of the database (foreign keys, unique indexes, checks), but for the one on
-- the generations of embeddings, and failures of the database or the file store, but for a missing key;
-- the columns of time stamps; sessions that run at the same time; the file store on disk; the query
-- handlers and the HTTP layer; in the splitter, how paragraphs are found and classed; the call by which the
-- indexing service writes the side file of the lexical index after its commit, a side file that is no
-- JSON, and the scores of BM25; and the processing, generation and evaluation packages, and the rest of
-- the retrieval package.
pub mod Prelude
pub mod Indexing
pub mod Knowledge
pub mod Chunking
pub mod Pipeline
pub mod Retrieval
