-- ===== src/Chunking/Service/Replacing.antt =====
-- chunking/service.py: the rows of a version after `chunk_document_version`.
use rag_enterprise.Prelude.{
  ℕ, suc, ◌≡◌, refl, ap, All, Bool-cases, inl, inr, Bool, true, not, ◌&&◌, Option, some, List, [],
  ◌∷◌, ◌++◌, ◌==◌, ==_iff, arith, all_rows, rows_where, delete_rows,
}
use rag_enterprise.Prelude.Text.{Str, strip}
use rag_enterprise.Knowledge.Models.{Database, DocumentVersion}
use rag_enterprise.Indexing.Enums.{ChunkStatus, is_deleted_chunk}
use rag_enterprise.Indexing.Models.{Chunk, Embedding}
use rag_enterprise.Indexing.Repositories.Chunks.{
  insert_by_sequence, order_by_sequence, list_for_version,
}
use rag_enterprise.Indexing.Repositories.Versions.{get_version, set_version}
use rag_enterprise.Chunking.Breaks.{slice}
use rag_enterprise.Chunking.Pieces.{ChunkPiece}
use rag_enterprise.Chunking.Pieces.Exact.{IsExact, split_paragraphs-AllExact}
use rag_enterprise.Chunking.Service.{
  Splitter, Env, ChunkingResult, chunked, new_chunk, new_chunks, clear_version, add_all,
  store_chunks, chunk_version, chunk_cleaned, chunk_document_version, split_persian_document,
}

-- `list_for_version` of the version `id`.
abbrev is_listed : ℕ → Chunk → Bool
is_listed id c = c.document_version_id == id && not (is_deleted_chunk c.status)

rows_where-append :
    (p : Chunk → Bool) (xs ys : List Chunk)
    → rows_where p (xs ++ ys) ≡ rows_where p xs ++ rows_where p ys
unfolding rows_where
rows_where-append p [] ys = refl
rows_where-append p (x ∷ xs) ys = ground (arith, rows_where-append p xs ys)

old_gone :
    (id : ℕ) (cs : List Chunk)
    → rows_where (is_listed id) (delete_rows (λ c. c.document_version_id == id) cs) ≡ []
unfolding rows_where delete_rows
old_gone id [] = refl
old_gone id (c ∷ cs) = ground (arith, old_gone id cs)

module _ (env : Env) (version : DocumentVersion) (language : Option Str) where
  new_listed :
      (i : ℕ) (ps : List ChunkPiece)
      → rows_where (is_listed version.id) (new_chunks env version language i ps)
        ≡ new_chunks env version language i ps
  unfolding rows_where new_chunks new_chunk
  new_listed i [] = refl
  new_listed i (p ∷ ps) = rw ((==_iff version.id version.id).1 refl, new_listed (suc i) ps) refl

  new_ordered :
      (i : ℕ) (ps : List ChunkPiece)
      → order_by_sequence (new_chunks env version language i ps)
        ≡ new_chunks env version language i ps
  unfolding order_by_sequence new_chunks
  new_ordered i [] = refl
  new_ordered i (p ∷ ps) = rw (new_ordered (suc i) ps) (head i p ps)
    where
      head :
          (i : ℕ) (p : ChunkPiece) (ps : List ChunkPiece)
          → insert_by_sequence
              (new_chunk env version language i p)
              (new_chunks env version language (suc i) ps)
            ≡ new_chunk env version language i p ∷ new_chunks env version language (suc i) ps
      head i p [] = refl
      head i p (q ∷ qs) = ground arith

  -- The rows of the version in the table, in the order of their sequence numbers.
  listed :
      (old : List Chunk) (ps : List ChunkPiece)
      → order_by_sequence (
          rows_where (is_listed version.id) (
            delete_rows (λ c. c.document_version_id == version.id) old
            ++ new_chunks env version language 0 ps))
        ≡ new_chunks env version language 0 ps
  listed old ps =
      rw
        (
          rows_where-append (is_listed version.id)
              (delete_rows (λ c. c.document_version_id == version.id) old)
              (new_chunks env version language 0 ps),
          old_gone version.id old,
          new_listed 0 ps,
        )
        (new_ordered 0 ps)

no_embeddings :
    (id : ℕ) (es : List Embedding)
    → all_rows
        (λ e. not (e.document_version_id == id))
        (delete_rows (λ e. e.document_version_id == id) es)
      ≡ true
unfolding all_rows delete_rows rows_where
no_embeddings id [] = refl
no_embeddings id (e ∷ es) = ground (arith, no_embeddings id es)

others_kept :
    (version : DocumentVersion) (old new : List Chunk)
    → delete_rows (λ c. c.document_version_id == version.id) new ≡ []
    → delete_rows
        (λ c. c.document_version_id == version.id)
        (delete_rows (λ c. c.document_version_id == version.id) old ++ new)
      ≡ delete_rows (λ c. c.document_version_id == version.id) old
unfolding delete_rows rows_where
others_kept version [] new h = h
others_kept version (c ∷ cs) new h = elim (Bool-cases (c.document_version_id == version.id)) [
  | inl own ↦ rw own (others_kept version cs new h)
  | inr other ↦ rw other (rw other (ap (λ xs. c ∷ xs) (others_kept version cs new h)))
]

all_own :
    (env : Env) (version : DocumentVersion) (language : Option Str) (i : ℕ) (ps : List ChunkPiece)
    → delete_rows (λ c. c.document_version_id == version.id) (new_chunks env version language i ps)
      ≡ []
unfolding delete_rows rows_where new_chunks new_chunk
all_own env version language i [] = refl
all_own env version language i (p ∷ ps) =
    rw ((==_iff version.id version.id).1 refl) (all_own env version language (suc i) ps)

-- The chunk with the number `i` is the piece of the text: its text is what lies between its offsets.
pub record IsRowOf (env : Env) (version : DocumentVersion) (language : Option Str) (text : Str)
    (i : ℕ) (p : ChunkPiece) (c : Chunk) : Type 0 where
  pub number : c.sequence_number ≡ i
  pub begins : c.start_offset ≡ p.start
  pub ends : c.end_offset ≡ p.stop
  pub exact : c.text ≡ slice c.start_offset c.end_offset text
  pub hash : c.content_hash ≡ env.sha256 (slice c.start_offset c.end_offset text)
  pub heading : c.heading ≡ p.heading
  pub tongue : c.language ≡ language
  pub organization : c.organization_id ≡ version.organization_id
  pub workspace : c.workspace_id ≡ version.workspace_id
  pub knowledge_base : c.knowledge_base_id ≡ version.knowledge_base_id
  pub document : c.document_id ≡ version.document_id
  pub status : c.status ≡ ChunkStatus.created

-- The chunks are the pieces one by one, numbered from `i`.
abbrev pub AreRowsOf :
    Env → DocumentVersion → Option Str → Str → ℕ → List ChunkPiece → List Chunk → Type 0
AreRowsOf env version language text i [] [] = Unit
AreRowsOf env version language text i [] (c ∷ cs) = ⊥
AreRowsOf env version language text i (p ∷ ps) [] = ⊥
AreRowsOf env version language text i (p ∷ ps) (c ∷ cs) =
    IsRowOf env version language text i p c × AreRowsOf env version language text (suc i) ps cs

new_chunks-AreRowsOf :
    (env : Env) (version : DocumentVersion) (language : Option Str) (text : Str) (i : ℕ)
    (ps : List ChunkPiece)
    → All (IsExact text) ps
    → AreRowsOf env version language text i ps (new_chunks env version language i ps)
unfolding new_chunks new_chunk
new_chunks-AreRowsOf env version language text i [] h = tt
new_chunks-AreRowsOf env version language text i (p ∷ ps) h = (
  record {
    number = refl;
    begins = refl;
    ends = refl;
    exact = h.0;
    hash = ap env.sha256 h.0;
    heading = refl;
    tongue = refl;
    organization = refl;
    workspace = refl;
    knowledge_base = refl;
    document = refl;
    status = refl;
  },
  new_chunks-AreRowsOf env version language text (suc i) ps h.1,
)

-- What the version has after its chunking, and what the other versions have.
pub record IsChunked (env : Env) (version : DocumentVersion) (language : Option Str) (text : Str)
    (before after : Database) : Type 0 where
  pub chunks :
      AreRowsOf env version language text 0
        (split_persian_document env.splitter text)
        (list_for_version version.id after)
  pub others :
      delete_rows (λ c. c.document_version_id == version.id) after.chunks
      ≡ delete_rows (λ c. c.document_version_id == version.id) before.chunks
  pub embeddings : all_rows (λ e. not (e.document_version_id == version.id)) after.embeddings ≡ true

chunk_version_chunked :
    (env : Env) (language : Option Str) (text : Str) (pieces : List ChunkPiece) (id : ℕ)
    (version : DocumentVersion) (db : Database) (r : ChunkingResult)
    → split_persian_document env.splitter text ≡ pieces
    → All (IsExact text) pieces
    → (chunk_version env language pieces id (some version) db).0 ≡ chunked r
    → IsChunked env version language text db
        (chunk_version env language pieces id (some version) db).1
unfolding chunk_version store_chunks new_chunks add_all clear_version set_version list_for_version
chunk_version_chunked env language text [] id version db r s h e = cc
chunk_version_chunked env language text (p ∷ ps) id version db r s h e = record {
  chunks =
      rw (s, listed env version language db.chunks (p ∷ ps))
        (new_chunks-AreRowsOf env version language text 0 (p ∷ ps) h);
  others =
      others_kept version db.chunks (new_chunks env version language 0 (p ∷ ps))
        (all_own env version language 0 (p ∷ ps));
  embeddings = no_embeddings version.id db.embeddings;
}

split_persian_document-AllExact :
    (sp : Splitter) (text : Str) → All (IsExact text) (split_persian_document sp text)
unfolding split_persian_document
split_persian_document-AllExact sp text =
    split_paragraphs-AllExact sp.candidate_breaks sp.seven_tenths sp.limits text
      (sp.paragraph_units text)

chunk_cleaned_chunked :
    (env : Env) (id : ℕ) (text : Str) (language : Option Str) (db : Database)
    (version : DocumentVersion) (r : ChunkingResult)
    → get_version id db ≡ some version
    → (chunk_cleaned env id text language db).0 ≡ chunked r
    → IsChunked env version language text db (chunk_cleaned env id text language db).1
unfolding chunk_cleaned
chunk_cleaned_chunked env id [] language db version r found e = cc
chunk_cleaned_chunked env id (c ∷ text) language db version r found e = rw found (
    chunk_version_chunked env language (c ∷ text) (split_persian_document env.splitter (c ∷ text))
      id version db r refl (split_persian_document-AllExact env.splitter (c ∷ text))
      (rw found at e))

-- A chunking that succeeds leaves as the listed chunks of the version the pieces of the stripped text,
-- in their order and numbered from 0, each with the text between its offsets and the digest of that
-- text; it leaves no embedding of the version, and the chunks of the other versions as they were.
pub chunk_document_version-IsChunked :
    (env : Env) (id : ℕ) (text : Str) (language : Option Str) (db : Database)
    (version : DocumentVersion) (r : ChunkingResult)
    → get_version id db ≡ some version
    → (chunk_document_version env id text language db).0 ≡ chunked r
    → IsChunked env version language
        (strip text)
        db
        (chunk_document_version env id text language db).1
unfolding chunk_document_version
chunk_document_version-IsChunked env id text = chunk_cleaned_chunked env id (strip text)
