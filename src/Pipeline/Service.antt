-- ===== src/Pipeline/Service.antt =====
-- pipeline/service.py: the methods of `ProcessAndIndexService`.
use rag_enterprise.Prelude.{
  ℕ, Bool, true, false, not, ◌&&◌, Option, none, some, List, [], ◌∷◌, ◌++◌, ◌==◌, take, length,
  scalar, rows_where, if◌then◌else◌,
}
use rag_enterprise.Prelude.Text.{Str, codes}
use rag_enterprise.Knowledge.Enums.{ProcessingStatus, is_deleted_document}
use rag_enterprise.Knowledge.Models.{Database, Document, DocumentVersion}
use rag_enterprise.Indexing.Session.{indexing_error, other_error, code_text}
use rag_enterprise.Indexing.Session as Sessions
use rag_enterprise.Indexing.Models.{IndexingResult}
use rag_enterprise.Indexing.Repositories.Versions.{get_version, set_version, with_status}
use rag_enterprise.Indexing.Service.{is_indexed, status_text}
use rag_enterprise.Indexing.Service.Attempts.{index_document_version, is_failed}
use rag_enterprise.Chunking.Service.{ChunkingResult, chunked, refused, chunk_document_version}
use rag_enterprise.Pipeline.{
  Env, World, not_found, conflict, internal_error, ProcessAndIndexError, Caught, Outcome, done,
  stopped, caught, escaped, Step, give, end_with, read, save, ◌>>=◌, ◌>>◌, require, get_file,
  put_file, coded, extraction_of, extracted_key, declared_language, chosen_language,
}

pub record Request : Type 0 where
  pub organization_id : ℕ
  pub workspace_id : ℕ
  pub document_id : ℕ

pub record ProcessAndIndexResult : Type 0 where
  pub current_status : ProcessingStatus
  pub processed_chunks : ℕ
  pub indexed_embeddings : ℕ
  pub warnings : List Str
  pub document_version_id : ℕ

unfoldable pub find_document : Request → Database → Option Document
find_document r db =
    scalar
      (λ d.
        d.id == r.document_id
        && d.organization_id == r.organization_id
        && d.workspace_id == r.workspace_id
        && not (is_deleted_document d.status))
      db.documents

unfoldable pub load_version : Request → Step DocumentVersion
unfolding find_document
load_version r = do
  document ← read (find_document r)
  document ← require not_found (codes "Document not found") document
  id ←
      require conflict (codes "Document has no current version to process")
        document.current_version_id
  version ← read (get_version id)
  require not_found (codes "Document version not found") version

unfoldable pub require_version : ℕ → Step DocumentVersion
require_version id = do
  version ← read (get_version id)
  require not_found (codes "Document version not found") version

-- The two numbers that the service counts: all chunks and all embeddings of the version.
unfoldable pub count_artifacts : ℕ → Database → ℕ × ℕ
count_artifacts id db = (
  length (rows_where (λ c. c.document_version_id == id) db.chunks),
  length (rows_where (λ e. e.document_version_id == id) db.embeddings),
)

-- The warnings of the extraction and the language for the chunks.
unfoldable pub run_processing : Env → ℕ → Step (List Str × Option Str)
unfolding require_version
run_processing env id = do
  version ← require_version id
  save (set_version version.id (with_status ProcessingStatus.extracting none))
  declared ← read (declared_language version.document_id)
  content ← get_file env version.storage_key_original
  (text, (detected, warnings)) ← extraction_of (env.process_file content version.file_name)
  bytes ← coded (env.encode text)
  put_file (extracted_key version.storage_key_original) bytes
  again ← require_version id
  save (
      set_version again.id (λ v. record v {
        storage_key_extracted = some (extracted_key version.storage_key_original);
        processing_status = ProcessingStatus.extracted;
        failure_reason = none;
      }))
  give (warnings, chosen_language detected declared)

-- `if language is None`
unfoldable pub or_declared : Option Str → ℕ → Database → Option Str
or_declared none document db = declared_language document db
or_declared (some l) document db = some l

unfoldable pub chunk_text : Env → ℕ → Str → Option Str → Step ChunkingResult
chunk_text env id text language w =
    let (r, db) = chunk_document_version env.chunking id text language w.db in
    elim r [
      | chunked a ↦ (done a, record w { db = db })
      | refused e ↦ (caught (record { reason = e.code; message = e.message }), record w { db = db })
    ]

unfoldable pub no_text : DocumentVersion → ProcessAndIndexError
no_text version = record {
  kind = conflict;
  message = codes "Document version has no extracted text";
  current_status = some version.processing_status;
  failure_code = none;
}

-- `if not version.storage_key_extracted: raise`
unfoldable pub chunk_extracted : Env → DocumentVersion → Option Str → Step ChunkingResult
unfolding no_text or_declared chunk_text
chunk_extracted env version language = elim version.storage_key_extracted [
  | none ↦ end_with (stopped (no_text version))
  | some key ↦ do
    chosen ← read (or_declared language version.document_id)
    content ← get_file env key
    text ← coded (env.decode content)
    chunk_text env version.id text chosen
]

unfoldable pub run_chunking : Env → ℕ → Option Str → Step ChunkingResult
unfolding require_version chunk_extracted
run_chunking env id language = do version ← require_version id; chunk_extracted env version language

unfoldable pub run_indexing : Env → ℕ → Step IndexingResult
run_indexing env id w =
    let before : Sessions.World = record { db = w.db; calls = w.calls } in
    let (r, w') = index_document_version env.indexing id before in
    let after = record w { db = w'.db; calls = w'.calls } in
    elim r [
      | Sessions.ok a ↦ (done a, after)
      | Sessions.raised (indexing_error e) ↦
          (caught (record { reason = code_text e.code; message = e.message }), after)
      | Sessions.raised (other_error m) ↦ (escaped m, after)
    ]

-- `if status in {UPLOADED, FAILED}`
abbrev pub is_unprocessed : ProcessingStatus → Bool
is_unprocessed ProcessingStatus.uploaded = true
is_unprocessed ProcessingStatus.failed = true
is_unprocessed _ = false

abbrev pub is_extracted : ProcessingStatus → Bool
is_extracted ProcessingStatus.extracted = true
is_extracted _ = false

-- `status in {UPLOADED, FAILED, EXTRACTED, CHUNKED}`
abbrev pub is_processable : ProcessingStatus → Bool
is_processable ProcessingStatus.uploaded = true
is_processable ProcessingStatus.failed = true
is_processable ProcessingStatus.extracted = true
is_processable ProcessingStatus.chunked = true
is_processable _ = false

-- The number of chunks, with the warnings so far.
unfoldable pub chunk_stage : Env → ℕ → List Str → Option Str → Step (ℕ × List Str)
unfolding run_chunking
chunk_stage env id warnings language = do
  r ← run_chunking env id language
  give (r.chunk_count, warnings ++ r.warnings)

-- The first two stages: what is done depends on the status at the start.
unfoldable pub prepare : Env → ℕ → ProcessingStatus → Step (ℕ × List Str)
unfolding run_processing chunk_stage count_artifacts
prepare env id status =
    if is_unprocessed status
    then (do (warnings, language) ← run_processing env id; chunk_stage env id warnings language)
    else if is_extracted status
    then chunk_stage env id [] none
    else read (λ db. ((count_artifacts id db).0, []))

-- The body of the `try`.
unfoldable pub run_stages : Env → ℕ → ProcessingStatus → Step ProcessAndIndexResult
unfolding prepare run_indexing count_artifacts
run_stages env id status = do
  (processed, warnings) ← prepare env id status
  indexed ← run_indexing env id
  counts ← read (count_artifacts id)
  give (record {
    current_status = ProcessingStatus.indexed;
    processed_chunks = processed;
    indexed_embeddings = counts.1;
    warnings = warnings;
    document_version_id = id;
  })

-- `f"{reason}: {message}"`, with the first 500 characters of the message.
unfoldable pub failure_text : Caught → Str
failure_text c = c.reason ++ codes ": " ++ take 500 c.message

abbrev pub mark_version : ℕ → Caught → Database → Option DocumentVersion → Database
mark_version id c db none = db
mark_version id c db (some version) =
    if is_failed version.processing_status
    then db
    else set_version version.id (with_status ProcessingStatus.failed (some (failure_text c))) db

-- A version that is missing, or marked, is reported as failed.
unfoldable pub mark_failed : ℕ → Caught → Database → Database
unfolding failure_text
mark_failed id c db = mark_version id c db (get_version id db)

unfoldable pub failure_of : Caught → ProcessAndIndexError
failure_of c = record {
  kind = internal_error;
  message = c.message;
  current_status = some ProcessingStatus.failed;
  failure_code = some c.reason;
}

-- The `except` clauses.
unfoldable pub handle_failure :
    ℕ → Outcome ProcessAndIndexResult → World → Outcome ProcessAndIndexResult × World
unfolding mark_failed failure_of
handle_failure id (done a) w = (done a, w)
handle_failure id (stopped e) w = (stopped e, w)
handle_failure id (caught c) w = (stopped (failure_of c), record w { db = mark_failed id c w.db })
handle_failure id (escaped m) w = (escaped m, w)

unfoldable pub already_indexed : ℕ → Step ProcessAndIndexResult
unfolding count_artifacts
already_indexed id = do
  counts ← read (count_artifacts id)
  give (record {
    current_status = ProcessingStatus.indexed;
    processed_chunks = counts.0;
    indexed_embeddings = counts.1;
    warnings = codes "already_indexed" ∷ [];
    document_version_id = id;
  })

unfoldable pub refusal : ProcessingStatus → ProcessAndIndexError
refusal status = record {
  kind = conflict;
  message = codes "Document version cannot be processed from status " ++ status_text status;
  current_status = some status;
  failure_code = none;
}

unfoldable pub guarded_stages : Env → ℕ → ProcessingStatus → Step ProcessAndIndexResult
unfolding run_stages handle_failure
guarded_stages env id status w = let (r, w') = run_stages env id status w in handle_failure id r w'

-- From the version on.
unfoldable pub process_version : Env → DocumentVersion → Step ProcessAndIndexResult
unfolding already_indexed refusal guarded_stages
process_version env version =
    if is_indexed version.processing_status
    then already_indexed version.id
    else if is_processable version.processing_status
    then guarded_stages env version.id version.processing_status
    else end_with (stopped (refusal version.processing_status))

unfoldable pub process_document : Env → Request → Step ProcessAndIndexResult
unfolding load_version process_version
process_document env r = do version ← load_version r; process_version env version
