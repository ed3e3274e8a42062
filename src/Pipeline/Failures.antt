-- ===== src/Pipeline/Failures.antt =====
-- pipeline/service.py: the status of a version after a failure of `process_document`.
use rag_enterprise.Prelude.{ℕ, ◌≡◌, refl, true, false, none, some, List, ◌⊎◌, ◌++◌, take}
use rag_enterprise.Prelude.Text.{Str, codes}
use rag_enterprise.Knowledge.Enums.{ProcessingStatus}
use rag_enterprise.Knowledge.Models.{Database, Document, DocumentVersion}
use rag_enterprise.Indexing.Repositories.Versions.{get_version, set_version, with_status}
use rag_enterprise.Indexing.Service.{is_indexed}
use rag_enterprise.Indexing.Completion.Retries.{set_version_found}
use rag_enterprise.Pipeline.{
  Env, World, ProcessAndIndexError, internal_error, Outcome, other_exception, Caught, done, stopped,
  caught, escaped, give, end_with, read, save, require, get_file, extraction_of, ◌>>=◌,
}
use rag_enterprise.Pipeline.Service.{
  ProcessAndIndexResult, Request, find_document, load_version, require_version, run_processing,
  is_unprocessed, is_processable, prepare, run_stages, handle_failure, refusal, guarded_stages,
  process_version, process_document,
}

-- The version, if it is there, has failed. It had before, and is as it was, or the reason of the failure is
-- the code and the first 500 characters of the message.
abbrev pub HasFailed : Caught → ℕ → (before after : Database) → Type 0
HasFailed c id before after =
    (v : DocumentVersion)
    → get_version id after ≡ some v
    → (v.processing_status ≡ ProcessingStatus.failed)
      × ((get_version id before ≡ some v)
          ⊎ (v.failure_reason ≡ some (c.reason ++ codes ": " ++ take 500 c.message)))

-- The error that the caller gets for an exception.
pub record IsReport (c : Caught) (e : ProcessAndIndexError) : Type 0 where
  pub kind : e.kind ≡ internal_error
  pub text : e.message ≡ c.message
  pub code : e.failure_code ≡ some c.reason
  pub status : e.current_status ≡ some ProcessingStatus.failed

abbrev pub Reports : Caught → Outcome ProcessAndIndexResult → Type 0
Reports c (done r) = ⊥
Reports c (stopped e) = IsReport c e
Reports c (caught d) = ⊥
Reports c (escaped m) = ⊥

-- The world in which a version is being extracted.
abbrev pub extracting_world : DocumentVersion → World → World
extracting_world version w = record w {
  db = set_version version.id (with_status ProcessingStatus.extracting none) w.db;
}

load_version_found :
    (r : Request) (w : World) (d : Document) (id : ℕ) (version : DocumentVersion)
    → find_document r w.db ≡ some d
    → d.current_version_id ≡ some id
    → get_version id w.db ≡ some version
    → load_version r w ≡ (done version, w)
unfolding load_version require read give ◌>>=◌
load_version_found r w d id version document current found = rw (document, current, found) refl

module _ (env : Env) (r : Request) (w : World) (d : Document) (version : DocumentVersion) where
  -- What the stages leave, for the version of the document.
  abbrev pub staged : Outcome ProcessAndIndexResult × World
  staged = run_stages env version.id version.processing_status w

-- The processing of a file that fails in a way that is not foreseen.
run_processing_broken :
    (env : Env) (w : World) (version : DocumentVersion) (content : List ℕ) (message : Str)
    → get_version version.id w.db ≡ some version
    → w.files version.storage_key_original ≡ some content
    → env.process_file content version.file_name ≡ other_exception message
    → run_processing env version.id w ≡ (escaped message, extracting_world version w)
unfolding run_processing require_version require read give save get_file extraction_of end_with
    ◌>>=◌
run_processing_broken env w version content message found file broken =
    rw (found, file, broken) refl

unprocessed_fits :
    (status : ProcessingStatus)
    → is_unprocessed status ≡ true
    → (is_indexed status ≡ false) × (is_processable status ≡ true)
unprocessed_fits ProcessingStatus.uploaded h = (refl, refl)
unprocessed_fits ProcessingStatus.failed h = (refl, refl)
unprocessed_fits ProcessingStatus.extracting h = cc
unprocessed_fits ProcessingStatus.extracted h = cc
unprocessed_fits ProcessingStatus.chunking h = cc
unprocessed_fits ProcessingStatus.chunked h = cc
unprocessed_fits ProcessingStatus.indexing h = cc
unprocessed_fits ProcessingStatus.indexed h = cc
unprocessed_fits ProcessingStatus.superseded h = cc

process_version_broken :
    (env : Env) (w : World) (version : DocumentVersion) (message : Str)
    → is_unprocessed version.processing_status ≡ true
    → run_processing env version.id w ≡ (escaped message, extracting_world version w)
    → process_version env version w ≡ (escaped message, extracting_world version w)
unfolding process_version guarded_stages run_stages prepare handle_failure ◌>>=◌
process_version_broken env w version message new broken =
    let (unindexed, fit) = unprocessed_fits version.processing_status new in
    rw (unindexed, fit, new, broken) refl

-- If the processing of a file that has not been processed raises an exception that the service does
-- not catch, then the version is left as being extracted, and any further call of `process_document` for the document,
-- whatever the environment, is refused and changes nothing.
pub process_document-stuck :
    (env : Env) (r : Request) (w : World) (d : Document) (version : DocumentVersion)
    (content : List ℕ) (message : Str)
    → find_document r w.db ≡ some d
    → d.current_version_id ≡ some version.id
    → get_version version.id w.db ≡ some version
    → is_unprocessed version.processing_status ≡ true
    → w.files version.storage_key_original ≡ some content
    → env.process_file content version.file_name ≡ other_exception message
    → (process_document env r w ≡ (escaped message, extracting_world version w))
      × ((env' : Env) (r' : Request)
          → find_document r' w.db ≡ some d
          → process_document env' r' (extracting_world version w)
            ≡ (stopped (refusal ProcessingStatus.extracting), extracting_world version w))
unfolding process_document process_version find_document end_with set_version ◌>>=◌
process_document-stuck env r w d version content message document current found new file broken = (
  rw (load_version_found r w d version.id version document current found) (
      process_version_broken env w version message new
        (run_processing_broken env w version content message found file broken)),
  λ env' r' document'.
      rw
        (load_version_found r' (extracting_world version w) d version.id
          (with_status ProcessingStatus.extracting none version) document' current
          (set_version_found version.id (with_status ProcessingStatus.extracting none) w.db version
            (λ x. refl) found))
        refl,
)
