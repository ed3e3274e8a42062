-- ===== src/Indexing/Service/Attempts.antt =====
-- indexing/service.py: `_index_once`, `_supersede_prior_versions`, `_mark_failed`,
-- `_run_with_retries` and the three operations of the service.
use rag_enterprise.Prelude.{
  ℕ, zero, suc, Bool, true, false, not, ◌&&◌, Option, none, some, List, [], ◌∷◌, ◌++◌, map, length,
  ◌==◌, is_none, is_in, rows_where, if◌then◌else◌,
}
use rag_enterprise.Prelude.Text.{codes}
use rag_enterprise.Knowledge.Enums.{ProcessingStatus}
use rag_enterprise.Knowledge.Models.{Database, DocumentVersion}
use rag_enterprise.Knowledge.Repositories.Scope.{TenantScope}
use rag_enterprise.Indexing.Enums.{is_indexed_chunk}
use rag_enterprise.Indexing.Models.{Chunk, IndexingResult}
use rag_enterprise.Indexing.Session.{
  World, Action, Outcome, ok, raised, Failure, indexing_error, other_error, FailureCode, code_text,
  unknown_error, empty_chunk_list, dimension_mismatch, partial_embedding_failure, pure, fail, query,
  execute, commit, ◌>>=◌, ◌>>◌, in_session,
}
use rag_enterprise.Indexing.Batches.{iter_batches}
use rag_enterprise.Indexing.Repositories.Chunks.{
  list_for_version, mark_superseded_for_versions, set_indexed,
}
use rag_enterprise.Indexing.Repositories.Embeddings.{mark_stale_for_versions}
use rag_enterprise.Indexing.Repositories.Versions.{
  get_version, list_for_document, set_version, with_status,
}
use rag_enterprise.Indexing.Service.{
  Env, is_indexed, is_indexable, is_replaceable, status_text, active_match, persist_batches,
}

-- The loop that sorts the chunks into those that still need a vector and a count of the others.
unfoldable pub mark_skipped : Chunk → Action Unit
mark_skipped c = if is_indexed_chunk c.status then pure tt else execute (set_indexed c.id)

unfoldable pub select_pending : Env → (force : Bool) → List Chunk → Action (List Chunk × ℕ)
unfolding mark_skipped
select_pending env force [] = pure ([], 0)
select_pending env true (c ∷ cs) = do
  (pending, skipped) ← select_pending env true cs
  pure (c ∷ pending, skipped)
select_pending env false (c ∷ cs) = do
  existing ← query (active_match env c)
  if is_none existing then pure tt else mark_skipped c
  (pending, skipped) ← select_pending env false cs
  pure (if is_none existing then (c ∷ pending, skipped) else (pending, suc skipped))

-- `remaining`
unfoldable pub unmatched : Env → List Chunk → Database → List Chunk
unfolding active_match
unmatched env chunks db = rows_where (λ c. is_none (active_match env c db)) chunks

abbrev pub scope_of : DocumentVersion → TenantScope
scope_of v = record { organization_id = v.organization_id; workspace_id = v.workspace_id }

-- `prior_ids`
unfoldable pub prior_ids : DocumentVersion → Database → List ℕ
prior_ids version db =
    map (λ v. v.id)
      (rows_where (λ v. not (v.id == version.id) && is_replaceable v.processing_status)
        (list_for_document (scope_of version) version.knowledge_base_id version.document_id db))

abbrev pub as_superseded : ℕ → DocumentVersion → DocumentVersion
as_superseded now v = record v {
  processing_status = ProcessingStatus.superseded;
  superseded_at = some now;
}

-- The loop over the siblings.
unfoldable pub supersede_versions : ℕ → List ℕ → List DocumentVersion → Database → Database
supersede_versions now ids [] db = db
supersede_versions now ids (v ∷ vs) db =
    let here = if is_in v.id ids then set_version v.id (as_superseded now) db else db in
    supersede_versions now ids vs here

unfoldable pub supersede_prior_versions : Env → DocumentVersion → Database → Database
unfolding prior_ids supersede_versions
supersede_prior_versions env version db =
    let siblings =
      list_for_document (scope_of version) version.knowledge_base_id version.document_id db in
    let ids = prior_ids version db in
    mark_stale_for_versions ids
      (mark_superseded_for_versions ids (supersede_versions env.now ids siblings db))

-- `processing_status = INDEXED`, `indexed_at = now` and `failure_reason = None`
abbrev pub as_indexed : ℕ → DocumentVersion → DocumentVersion
as_indexed now v = record v {
  processing_status = ProcessingStatus.indexed;
  indexed_at = some now;
  failure_reason = none;
}

abbrev pub as_failed : FailureCode → DocumentVersion → DocumentVersion
as_failed code = with_status ProcessingStatus.failed (some (code_text code))

unfoldable pub result_of : Env → ℕ → (created skipped : ℕ) → IndexingResult
result_of env id created skipped = record {
  document_version_id = id;
  embedding_model_id = env.embedding_model_id;
  embeddings_created = created;
  embeddings_skipped = skipped;
  embeddings_failed = 0;
}

-- From the count of the chunks that failed on.
unfoldable pub finish :
    Env → DocumentVersion → (created skipped : ℕ) → (remaining : List Chunk) → Action IndexingResult
unfolding supersede_prior_versions result_of
finish env version created skipped [] = do
  execute (supersede_prior_versions env version)
  execute (set_version version.id (as_indexed env.later))
  commit
  pure (result_of env version.id created skipped)
finish env version created skipped (c ∷ cs) = do
  execute (set_version version.id (as_failed partial_embedding_failure))
  commit
  fail partial_embedding_failure
      (env.text_of (length (c ∷ cs)) ++ codes " chunks failed embedding after retries")

-- From the loop over the batches on, for the pending chunks and the count of the others.
unfoldable pub index_pending :
    Env → (force : Bool) → DocumentVersion → List Chunk × ℕ → Action IndexingResult
unfolding unmatched finish
index_pending env force version (pending, skipped) = do
  created ← persist_batches env force version (iter_batches env.limits pending)
  remaining ← query (unmatched env pending)
  finish env version created skipped remaining

-- From the test of the list of chunks on.
unfoldable pub index_chunks :
    Env → (force : Bool) → DocumentVersion → List Chunk → Action IndexingResult
unfolding select_pending index_pending
index_chunks env force version [] = do
  execute (set_version version.id (as_failed empty_chunk_list))
  commit
  fail empty_chunk_list (codes "Zero chunks supplied")
index_chunks env force version (c ∷ cs) = do
  selected ← select_pending env force (c ∷ cs)
  index_pending env force version selected

unfoldable pub already_indexed : Env → DocumentVersion → Action IndexingResult
unfolding result_of
already_indexed env version = do
  chunks ← query (list_for_version version.id)
  pure (result_of env version.id 0 (length chunks))

unfoldable pub start_indexing : Env → (force : Bool) → DocumentVersion → Action IndexingResult
unfolding index_chunks
start_indexing env force version = do
  execute (set_version version.id (with_status ProcessingStatus.indexing none))
  chunks ← query (list_for_version version.id)
  index_chunks env force version chunks

-- From the row of the version on.
unfoldable pub index_version : Env → (force : Bool) → DocumentVersion → Action IndexingResult
unfolding already_indexed start_indexing
index_version env force version =
    if is_indexed version.processing_status && not force
    then already_indexed env version
    else if not (is_indexable version.processing_status)
    then fail unknown_error (
        codes "Version status "
        ++ status_text version.processing_status
        ++ codes " is not indexable")
    else start_indexing env force version

unfoldable pub missing_version : {A : Type 0} → Env → ℕ → Action A
missing_version env id = fail unknown_error (codes "Version not found: " ++ env.text_of id)

unfoldable pub index_found :
    Env → (force : Bool) → ℕ → Option DocumentVersion → Action IndexingResult
unfolding index_version missing_version
index_found env force id none = missing_version env id
index_found env force id (some version) = index_version env force version

unfoldable pub index_once : Env → (force : Bool) → ℕ → Action IndexingResult
unfolding index_found
index_once env force id = do found ← query (get_version id); index_found env force id found

unfoldable pub record_failure : FailureCode → Option DocumentVersion → Action Unit
record_failure code none = pure tt
record_failure code (some version) = do execute (set_version version.id (as_failed code)); commit

unfoldable pub mark_failed : ℕ → FailureCode → Action Unit
unfolding record_failure
mark_failed id code = do found ← query (get_version id); record_failure code found

-- `exc.code in {"empty_chunk_list", "dimension_mismatch"}`
abbrev pub is_fatal : FailureCode → Bool
is_fatal empty_chunk_list = true
is_fatal dimension_mismatch = true
is_fatal _ = false

-- `await self._mark_failed(…); raise`
unfoldable pub give_up : ℕ → FailureCode → Failure → World → Outcome IndexingResult × World
unfolding mark_failed
give_up id code failure w = let (_, w') = in_session (mark_failed id code) w in (raised failure, w')

-- What follows the last attempt.
unfoldable pub after_last : ℕ → Outcome IndexingResult → World → Outcome IndexingResult × World
unfolding give_up
after_last id (ok r) w = (ok r, w)
after_last id (raised (indexing_error e)) w = give_up id e.code (indexing_error e) w
after_last id (raised (other_error message)) w =
    give_up id unknown_error (indexing_error (record { code = unknown_error; message = message })) w

-- What follows an earlier one: `again` is the rest of the loop.
unfoldable pub after_early :
    ℕ
    → (again : World → Outcome IndexingResult × World) → Outcome IndexingResult
    → World
    → Outcome IndexingResult × World
unfolding give_up
after_early id again (ok r) w = (ok r, w)
after_early id again (raised (indexing_error e)) w =
    if is_fatal e.code then give_up id e.code (indexing_error e) w else again w
after_early id again (raised (other_error message)) w = again w

-- The loop, for the number of attempts after this one.
unfoldable pub attempt :
    (more : ℕ) → Env → (force : Bool) → ℕ → World → Outcome IndexingResult × World
unfolding after_last after_early
attempt zero env force id w =
    let (r, w') = in_session (index_once env force id) w in after_last id r w'
attempt (suc more) env force id w =
    let (r, w') = in_session (index_once env force id) w in
    after_early id (attempt more env force id) r w'

-- `_run_with_retries`: one attempt more than there are delays.
unfoldable pub run_with_retries : Env → (force : Bool) → ℕ → World → Outcome IndexingResult × World
unfolding attempt
run_with_retries env = attempt env.retry_delays env

unfoldable pub index_document_version : Env → ℕ → World → Outcome IndexingResult × World
unfolding run_with_retries
index_document_version env = run_with_retries env false

unfoldable pub reindex_document_version : Env → ℕ → World → Outcome IndexingResult × World
unfolding run_with_retries
reindex_document_version env = run_with_retries env true

-- `status in {FAILED, INDEXING, CHUNKED}`
abbrev pub is_resumable : ProcessingStatus → Bool
is_resumable ProcessingStatus.failed = true
is_resumable ProcessingStatus.indexing = true
is_resumable ProcessingStatus.chunked = true
is_resumable _ = false

abbrev pub is_failed : ProcessingStatus → Bool
is_failed ProcessingStatus.failed = true
is_failed _ = false

unfoldable pub reset_failed : DocumentVersion → Action Unit
reset_failed version = do
  execute (set_version version.id (with_status ProcessingStatus.chunked none))
  commit

unfoldable pub prepare_resume : Env → ℕ → Option DocumentVersion → Action Unit
unfolding missing_version reset_failed
prepare_resume env id none = missing_version env id
prepare_resume env id (some version) =
    if not (is_resumable version.processing_status)
    then fail unknown_error
        (codes "Cannot resume from status " ++ status_text version.processing_status)
    else if is_failed version.processing_status
    then reset_failed version
    else pure tt

abbrev after_resume : Env → ℕ → Outcome (Unit {0}) → World → Outcome IndexingResult × World
after_resume env id (ok _) w = index_document_version env id w
after_resume env id (raised f) w = (raised f, w)

unfoldable pub resume_failed_indexing : Env → ℕ → World → Outcome IndexingResult × World
unfolding prepare_resume
resume_failed_indexing env id w =
    let (r, w') = in_session (query (get_version id) >>= prepare_resume env id) w in
    after_resume env id r w'
