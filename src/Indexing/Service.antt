-- ===== src/Indexing/Service.antt =====
-- indexing/service.py: one attempt to index a version (`_index_once`), the attempts in a row and what
-- is recorded when they fail. The clock, the fresh identifiers and the texts of numbers are taken from
-- outside; of the delays between attempts only their number matters. Not modelled: the logging and the
-- lexical side file, which `_persist_lexical_index` writes after the commit and never fails on.
pub mod Attempts
pub mod Rounds
use rag_enterprise.Prelude.{
  ℕ, zero, suc, ◌+◌, Bool, true, false, not, ◌&&◌, ◌||◌, Option, none, some, List, [], ◌∷◌, ◌++◌,
  map, length, ◌==◌, is_none, is_in, rows_where, if◌then◌else◌,
}
use rag_enterprise.Prelude.Text.{Str, codes}
use rag_enterprise.Knowledge.Enums.{ProcessingStatus}
use rag_enterprise.Knowledge.Models.{Database, DocumentVersion}
use rag_enterprise.Knowledge.Repositories.Scope.{TenantScope}
use rag_enterprise.Indexing.Enums.{IndexStatus, is_indexed_chunk}
use rag_enterprise.Indexing.Models.{Chunk, Embedding, Vector, IndexingResult}
use rag_enterprise.Indexing.Session.{
  World, Action, Outcome, ok, raised, Failure, indexing_error, other_error, FailureCode, code_text,
  unknown_error, empty_chunk_list, dimension_mismatch, partial_embedding_failure,
  storage_write_error, pure, throw, fail, query, execute, commit, ◌>>=◌, ◌>>◌, in_session,
}
use rag_enterprise.Indexing.Batches.{BatchLimits, iter_batches}
use rag_enterprise.Indexing.Embedding.{Provider, embed_batch_with_split}
use rag_enterprise.Indexing.Repositories.Chunks.{
  list_for_version, mark_superseded_for_versions, set_indexed,
}
use rag_enterprise.Indexing.Repositories.Embeddings.{
  find_active_match, next_generation, mark_stale_for_chunk_model, mark_stale_for_versions,
  is_refused, add,
}
use rag_enterprise.Indexing.Repositories.Versions.{
  get_version, list_for_document, set_version, with_status,
}

pub record Env : Type 0 where
  pub provider : Provider
  pub embedding_model_id : ℕ
  pub limits : BatchLimits
  pub retry_delays : ℕ
  pub now : ℕ
  pub later : ℕ
  pub new_id : Database → ℕ
  pub text_of : ℕ → Str
  pub refusal : Str

-- The value of a status, for messages.
abbrev pub status_text : ProcessingStatus → Str
status_text ProcessingStatus.uploaded = codes "uploaded"
status_text ProcessingStatus.extracting = codes "extracting"
status_text ProcessingStatus.extracted = codes "extracted"
status_text ProcessingStatus.chunking = codes "chunking"
status_text ProcessingStatus.chunked = codes "chunked"
status_text ProcessingStatus.indexing = codes "indexing"
status_text ProcessingStatus.indexed = codes "indexed"
status_text ProcessingStatus.failed = codes "failed"
status_text ProcessingStatus.superseded = codes "superseded"

abbrev pub is_indexed : ProcessingStatus → Bool
is_indexed ProcessingStatus.indexed = true
is_indexed _ = false

-- `status in {CHUNKED, INDEXING, FAILED, INDEXED}`
abbrev pub is_indexable : ProcessingStatus → Bool
is_indexable ProcessingStatus.chunked = true
is_indexable ProcessingStatus.indexing = true
is_indexable ProcessingStatus.failed = true
is_indexable ProcessingStatus.indexed = true
is_indexable _ = false

-- `status in {INDEXED, CHUNKED, INDEXING}`
abbrev pub is_replaceable : ProcessingStatus → Bool
is_replaceable ProcessingStatus.indexed = true
is_replaceable ProcessingStatus.chunked = true
is_replaceable ProcessingStatus.indexing = true
is_replaceable _ = false

unfoldable pub active_match : Env → Chunk → Database → Option Embedding
active_match env c = find_active_match c.id env.embedding_model_id c.content_hash

unfoldable pub new_embedding :
    Env → DocumentVersion → Chunk → Vector → (generation : ℕ) → Database → Embedding
new_embedding env version c vector generation db = record {
  id = env.new_id db;
  organization_id = version.organization_id;
  workspace_id = version.workspace_id;
  chunk_id = c.id;
  document_version_id = version.id;
  knowledge_base_id = version.knowledge_base_id;
  embedding_model_id = env.embedding_model_id;
  model_key = env.provider.model_key;
  vector = vector;
  dimensions = env.provider.dimensions;
  content_hash = c.content_hash;
  generation = generation;
  index_status = IndexStatus.indexed;
}

-- `if force or no active match: mark_stale_for_chunk_model(…)`
unfoldable pub retire : Env → (force : Bool) → Chunk → Database → Database
unfolding active_match
retire env force c db =
    if force || is_none (active_match env c db)
    then mark_stale_for_chunk_model c.id env.embedding_model_id db
    else db

-- `try: add(Embedding(…)) except Exception: raise StorageWriteError`
unfoldable pub insert_embedding : Env → Embedding → Action Unit
insert_embedding env e = do
  refused ← query (is_refused e)
  if refused then fail storage_write_error env.refusal else execute (add e)

-- One round of the loop of `_embed_and_persist_batch`, from the length of the vector on.
unfoldable pub store_vector : Env → (force : Bool) → DocumentVersion → Chunk → Vector → Action Unit
unfolding retire new_embedding insert_embedding
store_vector env force version c vector = do
  execute (retire env force c)
  generation ← query (next_generation c.id env.embedding_model_id)
  e ← query (new_embedding env version c vector generation)
  insert_embedding env e
  execute (set_indexed c.id)

unfoldable pub wrong_length : Env → Vector → Action Unit
wrong_length env vector = fail dimension_mismatch (
    codes "Expected "
    ++ env.text_of env.provider.dimensions
    ++ codes " dims, got "
    ++ env.text_of (length vector))

-- The round.
unfoldable pub persist_vector :
    Env → (force : Bool) → DocumentVersion → Chunk → Vector → Action Unit
unfolding store_vector wrong_length
persist_vector env force version c vector =
    if length vector == env.provider.dimensions
    then store_vector env force version c vector
    else wrong_length env vector

-- The loop, over `zip(batch, vectors, strict=True)`: the rounds that it ran.
unfoldable pub persist_vectors :
    Env → (force : Bool) → DocumentVersion → List Chunk → List Vector → Action ℕ
unfolding persist_vector
persist_vectors env force version [] [] = pure 0
persist_vectors env force version (c ∷ cs) [] =
    throw (other_error (codes "zip() argument 2 is shorter than argument 1"))
persist_vectors env force version [] (v ∷ vs) =
    throw (other_error (codes "zip() argument 2 is longer than argument 1"))
persist_vectors env force version (c ∷ cs) (v ∷ vs) = do
  persist_vector env force version c v
  rest ← persist_vectors env force version cs vs
  pure (suc rest)

unfoldable pub embed_and_persist_batch :
    Env → (force : Bool) → DocumentVersion → List Chunk → Action ℕ
unfolding persist_vectors
embed_and_persist_batch env force version batch = do
  vectors ← embed_batch_with_split env.provider batch
  persist_vectors env force version batch vectors

-- The loop over the batches.
unfoldable pub persist_batches :
    Env → (force : Bool) → DocumentVersion → List (List Chunk) → Action ℕ
unfolding embed_and_persist_batch
persist_batches env force version [] = pure 0
persist_batches env force version (b ∷ bs) = do
  created ← embed_and_persist_batch env force version b
  rest ← persist_batches env force version bs
  pure (created + rest)
