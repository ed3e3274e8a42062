-- ===== src/Pipeline.antt =====
-- pipeline/service.py: `ProcessAndIndexService`. A call of the service goes through several sessions; a
-- step here takes the world between them, which is the durable database, the file store and the count of
-- the calls of the embedding provider. Parsers and codecs are parameters: how a file is processed, and
-- UTF-8. A step ends with a value, with an error of the service, with one of the exceptions that
-- `process_document` catches, or with another exception, which leaves the service.
pub mod Service
pub mod Failures
mod Examples
use rag_enterprise.Prelude.{
  ℕ, Bool, true, false, not, ◌&&◌, Option, none, some, List, [], ◌∷◌, ◌++◌, ◌==◌, take, length,
  scalar, rows_where, if◌then◌else◌,
}
use rag_enterprise.Prelude.Text.{Str, codes, str_eq}
use rag_enterprise.Knowledge.Enums.{ProcessingStatus, is_deleted_document}
use rag_enterprise.Knowledge.Models.{
  Database, Document, DocumentVersion, StorageKey, version_key, extended_key,
}
use rag_enterprise.Knowledge.Session.{Files}
use rag_enterprise.Knowledge.Storage.{same_key}
use rag_enterprise.Indexing.Session.{indexing_error, other_error, code_text}
use rag_enterprise.Indexing.Session as Sessions
use rag_enterprise.Indexing.Models.{IndexingResult}
use rag_enterprise.Indexing.Repositories.Versions.{get_version, set_version, with_status}
use rag_enterprise.Indexing.Service as Indexing
use rag_enterprise.Indexing.Service.{is_indexed}
use rag_enterprise.Indexing.Service.Attempts.{index_document_version, is_failed}
use rag_enterprise.Chunking.Service as Chunking
use rag_enterprise.Chunking.Service.{
  ChunkingResult, Chunked, chunked, refused, chunk_document_version,
}

-- What `process_file` comes to: the text with its detected language and its warnings, a
-- ProcessingError, an OSError, or another exception.
pub data Extraction : Type 0 where
  extracted_text : (text language : Str) → List Str → Extraction
  processing_error : (code message : Str) → Extraction
  os_error : (name message : Str) → Extraction
  other_exception : (message : Str) → Extraction

pub record Env : Type 0 where
  pub process_file : List ℕ → (file_name : Str) → Extraction
  pub encode : Str → Option (List ℕ)
  pub decode : List ℕ → Option Str
  pub key_text : StorageKey → Str
  pub chunking : Chunking.Env
  pub indexing : Indexing.Env

pub record World : Type 0 where
  pub db : Database
  pub files : Files
  pub calls : ℕ

pub data ErrorKind : Type 0 where
  not_found conflict internal_error : ErrorKind

pub record ProcessAndIndexError : Type 0 where
  pub kind : ErrorKind
  pub message : Str
  pub current_status : Option ProcessingStatus
  pub failure_code : Option Str

-- An exception that `process_document` catches: its code, or the name of its class, and its message.
pub record Caught : Type 0 where
  pub reason : Str
  pub message : Str

pub data Outcome (A : Type 0) : Type 0 where
  done : A → Outcome A
  stopped : ProcessAndIndexError → Outcome A
  caught : Caught → Outcome A
  escaped : Str → Outcome A

abbrev pub Step : Type 0 → Type 0
Step A = World → Outcome A × World

module _ {A : Type 0} where
  unfoldable pub give : A → Step A
  give a w = (done a, w)

  unfoldable pub end_with : Outcome A → Step A
  end_with r w = (r, w)

  unfoldable pub read : (Database → A) → Step A
  read f w = (done (f w.db), w)

-- A session that assigns to the columns of a version and commits.
unfoldable pub save : (Database → Database) → Step Unit
save f w = (done tt, record w { db = f w.db })

module _ {A B : Type 0} where
  abbrev pub follow : Outcome A → (A → Step B) → Step B
  follow (done a) f w = f a w
  follow (stopped e) f w = (stopped e, w)
  follow (caught c) f w = (caught c, w)
  follow (escaped m) f w = (escaped m, w)

  infixl 5 ◌>>=◌ ◌>>◌
  unfoldable pub ◌>>=◌ : Step A → (A → Step B) → Step B
  ◌>>=◌ m f w = let (r, w') = m w in follow r f w'

  abbrev pub ◌>>◌ : Step A → Step B → Step B
  m >> n = m >>= λ _. n

unfoldable pub plain_error : ErrorKind → Str → ProcessAndIndexError
plain_error kind message = record {
  kind = kind;
  message = message;
  current_status = none;
  failure_code = none;
}

unfoldable pub require : {A : Type 0} → ErrorKind → Str → Option A → Step A
unfolding plain_error
require kind message none = end_with (stopped (plain_error kind message))
require kind message (some a) = give a

-- `self._file_storage.get(key=key)`: a missing key is a KeyError.
unfoldable pub get_file : Env → StorageKey → Step (List ℕ)
get_file env key w = elim (w.files key) [
  | none ↦ (caught (record { reason = codes "KeyError"; message = env.key_text key }), w)
  | some content ↦ (done content, w)
]

unfoldable pub put_file : StorageKey → List ℕ → Step Unit
put_file key content w =
    (done tt, record w { files = λ k. if same_key k key then some content else w.files k })

-- A codec that may raise a UnicodeError, which is a ValueError and not caught.
unfoldable pub coded : {A : Type 0} → Option A → Step A
coded none = end_with (escaped (codes "UnicodeError"))
coded (some a) = give a

unfoldable pub extraction_of : Extraction → Step (Str × (Str × List Str))
extraction_of (extracted_text text language warnings) = give (text, (language, warnings))
extraction_of (processing_error code message) =
    end_with (caught (record { reason = code; message = message }))
extraction_of (os_error name message) =
    end_with (caught (record { reason = name; message = message }))
extraction_of (other_exception message) = end_with (escaped message)

-- `f"{storage_key}.extracted.txt"`
unfoldable pub extracted_key : StorageKey → StorageKey
extracted_key (version_key o w d v name) = version_key o w d v (name ++ codes ".extracted.txt")
extracted_key key = extended_key key (codes ".extracted.txt")

-- `document.declared_language if document is not None else None`
unfoldable pub declared_language : ℕ → Database → Option Str
declared_language document db = elim (scalar (λ d. d.id == document) db.documents) [
  | none ↦ none
  | some d ↦ some d.declared_language
]

-- `if detected and detected != "unknown"`
unfoldable pub chosen_language : (detected : Str) → Option Str → Option Str
chosen_language [] declared = declared
chosen_language (c ∷ s) declared =
    if str_eq (c ∷ s) (codes "unknown") then declared else some (c ∷ s)
