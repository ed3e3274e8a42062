-- ===== src/Retrieval/Examples.antt =====
-- The theorems on the lexical search, at concrete inputs.
use rag_enterprise.Prelude.{◌≡◌, refl, none, List, [], ◌∷◌, arith, All, all_rows, rows_where, is_in}
use rag_enterprise.Prelude.Text.{Str, codes}
use rag_enterprise.Knowledge.Enums.{ProcessingStatus}
use rag_enterprise.Knowledge.Models.{Database, Document, DocumentVersion}
use rag_enterprise.Knowledge.Samples.{held_document}
use rag_enterprise.Indexing.Enums.{ChunkStatus, IndexStatus}
use rag_enterprise.Indexing.Models.{Embedding}
use rag_enterprise.Indexing.Samples.{chunked_version, first_chunk, chunked_db}
use rag_enterprise.Retrieval.Corpus.{CorpusRequest, list_indexed_corpus}
use rag_enterprise.Retrieval.LexicalIndex.{
  State, whole, index_text, build_bm25_index, load_bm25_index, persist_kb_lexical_index,
}
use rag_enterprise.Retrieval.LexicalIndex.Caching.{
  load_bm25_index-repeats, load_bm25_index-persisted,
}
use rag_enterprise.Retrieval.Corpus.Searched.{IsAllowed, list_indexed_corpus-AllAllowed}
use rag_enterprise.Retrieval.Corpus.Current.{AreLinked, list_indexed_corpus-AllCurrent}
use rag_enterprise.Indexing.Superseding.{is_rival}
use rag_enterprise.Indexing.Superseding.Settled.{is_settled}
use rag_enterprise.Indexing.Repositories.Versions.{of_document}

-- One token.
abbrev whole_text : Str → List Str
whole_text text = text ∷ []

abbrev searched_embedding : Embedding
searched_embedding = record {
  id = 70;
  organization_id = 1;
  workspace_id = 2;
  chunk_id = 60;
  document_version_id = 50;
  knowledge_base_id = 10;
  embedding_model_id = 7;
  model_key = codes "m";
  vector = [];
  dimensions = 0;
  content_hash = codes "h";
  generation = 1;
  index_status = IndexStatus.indexed;
}

abbrev searched_document : Document
searched_document = record held_document { id = 31 }

-- One document with one chunk, that is indexed.
abbrev searched_db : Database
searched_db = record chunked_db {
  documents = searched_document ∷ [];
  document_versions = record chunked_version { processing_status = ProcessingStatus.indexed } ∷ [];
  chunks = record first_chunk { status = ChunkStatus.indexed } ∷ [];
  embeddings = searched_embedding ∷ [];
}

-- The chunk has changed.
abbrev changed_db : Database
changed_db = record searched_db {
  chunks = record first_chunk { status = ChunkStatus.indexed; text = codes "c" } ∷ [];
}

abbrev all_documents : CorpusRequest
all_documents = record {
  organization_id = 1;
  knowledge_base_id = 10;
  embedding_model_id = 7;
  document_ids = [];
  language = none;
}

abbrev one_document : CorpusRequest
one_document = record all_documents { document_ids = 31 ∷ [] }

abbrev empty_state : State
empty_state = record { cache = λ k. none; side_files = λ kb model. none }

load_bm25_index-repeats_example :
    (load_bm25_index whole_text one_document changed_db 20
      (load_bm25_index whole_text all_documents searched_db 10 empty_state).1).0
    ≡ (load_bm25_index whole_text all_documents searched_db 10 empty_state).0
unfolding list_indexed_corpus rows_where is_in
load_bm25_index-repeats_example =
    load_bm25_index-repeats whole_text all_documents one_document searched_db changed_db 10 20
      empty_state (record { organization = refl; knowledge_base = refl; model = refl }) refl refl
      (omega arith)

load_bm25_index-persisted_example :
    (load_bm25_index whole_text
      (whole one_document)
      searched_db
      10
      (persist_kb_lexical_index whole_text one_document searched_db empty_state)).0
    ≡ build_bm25_index whole_text (list_indexed_corpus (whole one_document) searched_db)
unfolding list_indexed_corpus rows_where is_in index_text
load_bm25_index-persisted_example =
    load_bm25_index-persisted whole_text one_document searched_db 10 empty_state ((λ e. cc), tt)

list_indexed_corpus-AllAllowed_example :
    All (IsAllowed one_document searched_db) (list_indexed_corpus one_document searched_db)
list_indexed_corpus-AllAllowed_example = list_indexed_corpus-AllAllowed one_document searched_db

abbrev searched_version : DocumentVersion
searched_version = record chunked_version { processing_status = ProcessingStatus.indexed }

list_indexed_corpus-AllCurrent_example :
    All
      (λ row.
        row.document_id ≡ searched_version.document_id
        → row.document_version_id ≡ searched_version.id)
      (list_indexed_corpus one_document searched_db)
unfolding AreLinked all_rows is_settled is_rival of_document
list_indexed_corpus-AllCurrent_example =
    list_indexed_corpus-AllCurrent searched_version one_document searched_db refl refl
