-- ===== src/Pipeline/Examples.antt =====
-- The theorems on the chunking and the pipeline service, at concrete inputs.
use rag_enterprise.Prelude.{◌≡◌, refl, none, some, [], ◌∷◌, scalar, any_row}
use rag_enterprise.Prelude.Text.{codes, strip, lstrip, is_space, str_eq}
use rag_enterprise.Knowledge.Enums.{ProcessingStatus}
use rag_enterprise.Knowledge.Models.{Document, DocumentVersion}
use rag_enterprise.Knowledge.Samples.{free_document, sample_db}
use rag_enterprise.Indexing.Samples.{chunked_version, chunked_db, indexing_env}
use rag_enterprise.Indexing.Repositories.Versions.{get_version}
use rag_enterprise.Chunking.Service as Chunking
use rag_enterprise.Chunking.Service.{
  Splitter, chunked, chunk_document_version, chunk_cleaned, chunk_version, store_chunks, new_chunks,
  split_persian_document, warnings_of,
}
use rag_enterprise.Chunking.Pieces.{
  split_paragraphs, pieces_of, or_whole, trim_span, trim_front, trim_back, blank_at,
}
use rag_enterprise.Chunking.Coalesce.{coalesce_units}
use rag_enterprise.Chunking.Merge.{merge_units}
use rag_enterprise.Chunking.Service.Replacing.{IsChunked, chunk_document_version-IsChunked}
use rag_enterprise.Pipeline.{
  Env, World, Caught, Extraction, other_exception, processing_error, stopped, escaped,
}
use rag_enterprise.Pipeline.Service.{Request, find_document, refusal, process_document}
use rag_enterprise.Pipeline.Failures.{extracting_world, process_document-stuck}

-- No paragraph is found: the text is one piece.
abbrev whole_splitter : Splitter
whole_splitter = record {
  candidate_breaks = λ b text. [];
  seven_tenths = λ n. n;
  paragraph_units = λ text. [];
  limits = record {
    max_chunk_chars = 10;
    min_chunk_chars = 2;
    overlap_chars = 1;
    target_chunk_chars = 8;
  };
}

abbrev chunking_env : Chunking.Env
chunking_env = record {
  splitter = whole_splitter;
  sha256 = λ text. text;
  new_id = λ i. i;
  text_of = λ n. n ∷ [];
}

abbrev uploaded_version : DocumentVersion
uploaded_version = record chunked_version { processing_status = ProcessingStatus.uploaded }

abbrev current_document : Document
current_document = record free_document { current_version_id = some 50 }

abbrev env_with : Extraction → Env
env_with extraction = record {
  process_file = λ content name. extraction;
  encode = λ text. some text;
  decode = λ content. some content;
  key_text = λ key. [];
  chunking = chunking_env;
  indexing = indexing_env;
}

abbrev uploaded_world : World
uploaded_world = record {
  db = record sample_db {
    documents = current_document ∷ [];
    document_versions = uploaded_version ∷ [];
  };
  files = λ key. some (codes "ab");
  calls = 0;
}

abbrev request : Request
request = record { organization_id = 1; workspace_id = 2; document_id = 31 }

chunk_document_version-IsChunked_example :
    IsChunked chunking_env chunked_version none
      (strip (codes "ab"))
      chunked_db
      (chunk_document_version chunking_env 50 (codes "ab") none chunked_db).1
unfolding chunk_document_version chunk_cleaned chunk_version store_chunks new_chunks
    split_persian_document warnings_of split_paragraphs pieces_of or_whole trim_span trim_front
    trim_back blank_at coalesce_units merge_units strip lstrip is_space str_eq get_version scalar
    any_row
chunk_document_version-IsChunked_example =
    chunk_document_version-IsChunked chunking_env 50 (codes "ab") none chunked_db chunked_version
      (record {
        document_version_id = 50;
        chunk_count = 1;
        warnings = codes "paragraph_boundaries_applied" ∷ [];
      })
      refl refl

abbrev empty_content : Env
empty_content = env_with (processing_error (codes "empty_content") (codes "no text"))

abbrev no_text : Caught
no_text = record { reason = codes "empty_content"; message = codes "no text" }

abbrev broken_parser : Env
broken_parser = env_with (other_exception (codes "bad"))

process_document-stuck_example :
    (process_document broken_parser request uploaded_world
      ≡ (escaped (codes "bad"), extracting_world uploaded_version uploaded_world))
    × ((env' : Env) (r' : Request)
        → find_document r' uploaded_world.db ≡ some current_document
        → process_document env' r' (extracting_world uploaded_version uploaded_world) ≡ (
          stopped (refusal ProcessingStatus.extracting),
          extracting_world uploaded_version uploaded_world,
        ))
unfolding find_document get_version scalar
process_document-stuck_example =
    process_document-stuck broken_parser request uploaded_world current_document uploaded_version
      (codes "ab") (codes "bad") refl refl refl refl refl refl
