-- ===== src/Chunking/Service.antt =====
-- chunking/service.py: `chunk_document_version`. The statements are those of one session: what is
-- returned is the database that is committed. How `split_persian_document` finds the paragraphs of a
-- text, SHA-256, the fresh identifiers and the text of an identifier are parameters.
pub mod Replacing
use rag_enterprise.Prelude.{
  ℕ, suc, ◌+◌, Bool, true, false, not, Option, none, some, List, [], ◌∷◌, ◌++◌, ◌==◌, ltb, length,
  any_row, delete_rows, if◌then◌else◌,
}
use rag_enterprise.Prelude.Text.{Str, codes, strip}
use rag_enterprise.Knowledge.Enums.{ProcessingStatus}
use rag_enterprise.Knowledge.Models.{Database, DocumentVersion}
use rag_enterprise.Indexing.Enums.{ChunkStatus}
use rag_enterprise.Indexing.Models.{Chunk}
use rag_enterprise.Indexing.Repositories.Versions.{get_version, set_version, with_status}
use rag_enterprise.Chunking.Merge.{TextUnit, Limits}
use rag_enterprise.Chunking.Pieces.{
  ChunkPiece, Strategy, by_heading, by_paragraph, split_paragraphs,
}

pub record Splitter : Type 0 where
  pub candidate_breaks : Bool → Str → List ℕ
  pub seven_tenths : ℕ → ℕ
  pub paragraph_units : Str → List TextUnit
  pub limits : Limits

pub record Env : Type 0 where
  pub splitter : Splitter
  pub sha256 : Str → Str
  pub new_id : (index : ℕ) → ℕ
  pub text_of : ℕ → Str

pub record ChunkingResult : Type 0 where
  pub document_version_id : ℕ
  pub chunk_count : ℕ
  pub warnings : List Str

pub record ChunkingError : Type 0 where
  pub code : Str
  pub message : Str

pub data Chunked : Type 0 where
  chunked : ChunkingResult → Chunked
  refused : ChunkingError → Chunked

unfoldable pub split_persian_document : Splitter → Str → List ChunkPiece
split_persian_document sp text =
    split_paragraphs sp.candidate_breaks sp.seven_tenths sp.limits text (sp.paragraph_units text)

abbrev pub is_heading_piece : Strategy → Bool
is_heading_piece by_heading = true
is_heading_piece by_paragraph = false

abbrev pub strategy_text : Strategy → Str
strategy_text by_heading = codes "heading"
strategy_text by_paragraph = codes "paragraph"

unfoldable pub warnings_of : List ChunkPiece → List Str
warnings_of pieces =
    (if any_row (λ p. ltb 0 p.overlap_chars) pieces
      then codes "oversized_unit_split_with_overlap" ∷ []
      else [])
    ++ (if any_row (λ p. is_heading_piece p.strategy) pieces
        then codes "heading_boundaries_applied" ∷ []
        else codes "paragraph_boundaries_applied" ∷ [])

unfoldable pub new_chunk : Env → DocumentVersion → Option Str → (index : ℕ) → ChunkPiece → Chunk
new_chunk env version language index piece = record {
  id = env.new_id index;
  organization_id = version.organization_id;
  workspace_id = version.workspace_id;
  knowledge_base_id = version.knowledge_base_id;
  document_id = version.document_id;
  document_version_id = version.id;
  sequence_number = index;
  text = piece.text;
  content_hash = env.sha256 piece.text;
  start_offset = piece.start;
  end_offset = piece.stop;
  heading = piece.heading;
  language = language;
  strategy = strategy_text piece.strategy;
  status = ChunkStatus.created;
}

-- The comprehension over `enumerate(pieces)`, from an index on.
unfoldable pub new_chunks :
    Env → DocumentVersion → Option Str → (index : ℕ) → List ChunkPiece → List Chunk
unfolding new_chunk
new_chunks env version language index [] = []
new_chunks env version language index (p ∷ ps) =
    new_chunk env version language index p ∷ new_chunks env version language (suc index) ps

-- `delete(Embedding)` and `delete(Chunk)` for the version.
unfoldable pub clear_version : ℕ → Database → Database
clear_version id db = record db {
  embeddings = delete_rows (λ e. e.document_version_id == id) db.embeddings;
  chunks = delete_rows (λ c. c.document_version_id == id) db.chunks;
}

unfoldable pub add_all : List Chunk → Database → Database
add_all chunks db = record db { chunks = db.chunks ++ chunks }

-- From the test of the list of chunks on.
unfoldable pub store_chunks :
    DocumentVersion → (warnings : List Str) → List Chunk → Database → Chunked × Database
unfolding add_all
store_chunks version warnings [] db = (
  refused (record {
    code = codes "empty_chunk_list";
    message = codes "No chunks produced from extracted text";
  }),
  set_version version.id (with_status ProcessingStatus.failed (some (codes "empty_chunk_list"))) db,
)
store_chunks version warnings (c ∷ cs) db = (
  chunked (record {
    document_version_id = version.id;
    chunk_count = length (c ∷ cs);
    warnings = warnings;
  }),
  set_version version.id (λ v. record v { processing_status = ProcessingStatus.chunked })
      (add_all (c ∷ cs) db),
)

-- From the row of the version on.
unfoldable pub chunk_version :
    Env → Option Str → List ChunkPiece → ℕ → Option DocumentVersion → Database → Chunked × Database
unfolding store_chunks clear_version new_chunks warnings_of
chunk_version env language pieces id none db = (
  refused (record {
    code = codes "not_found";
    message = codes "Version not found: " ++ env.text_of id;
  }),
  db,
)
chunk_version env language pieces id (some version) db =
    store_chunks version (warnings_of pieces) (new_chunks env version language 0 pieces) (
      clear_version version.id
        (set_version version.id (with_status ProcessingStatus.chunking none) db))

-- `if not cleaned: raise`, and the rest of the call.
unfoldable pub chunk_cleaned : Env → ℕ → Str → Option Str → Database → Chunked × Database
unfolding chunk_version split_persian_document
chunk_cleaned env id [] language db = (
  refused (record { code = codes "empty_content"; message = codes "Extracted text is empty" }),
  db,
)
chunk_cleaned env id (c ∷ text) language db =
    chunk_version env language (split_persian_document env.splitter (c ∷ text)) id
      (get_version id db) db

unfoldable pub chunk_document_version : Env → ℕ → Str → Option Str → Database → Chunked × Database
unfolding chunk_cleaned
chunk_document_version env id text language db = chunk_cleaned env id (strip text) language db
