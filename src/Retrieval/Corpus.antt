-- ===== src/Retrieval/Corpus.antt =====
-- indexing/repositories/embedding.py: `list_indexed_corpus`, the chunks that the lexical search is over.
pub mod Searched
pub mod Current
use rag_enterprise.Prelude.{
  ℕ, Bool, true, false, ◌&&◌, ◌||◌, Option, none, some, List, [], ◌∷◌, ◌++◌, ◌==◌, ltb, leb,
  is_none, is_in, map, rows_where, if◌then◌else◌,
}
use rag_enterprise.Prelude.Text.{Str, str_eq}
use rag_enterprise.Knowledge.Enums.{is_active_document}
use rag_enterprise.Knowledge.Models.{Database, Document, DocumentVersion}
use rag_enterprise.Indexing.Enums.{is_indexed_chunk, is_indexed_vector}
use rag_enterprise.Indexing.Models.{Chunk, Embedding}
use rag_enterprise.Indexing.Service.{is_indexed}

pub record CorpusRequest : Type 0 where
  pub organization_id : ℕ
  pub knowledge_base_id : ℕ
  pub embedding_model_id : ℕ
  pub document_ids : List ℕ
  pub language : Option Str

pub record LexicalCorpusRow : Type 0 where
  pub chunk_id : ℕ
  pub document_id : ℕ
  pub document_version_id : ℕ
  pub knowledge_base_id : ℕ
  pub text : Str
  pub chunk_index : ℕ
  pub start_char : ℕ
  pub end_char : ℕ
  pub heading : Option Str
  pub language : Option Str

-- The conditions on the embedding.
unfoldable pub is_searched_vector : CorpusRequest → Embedding → Bool
is_searched_vector r e =
    e.organization_id == r.organization_id
    && e.knowledge_base_id == r.knowledge_base_id
    && e.embedding_model_id == r.embedding_model_id
    && is_indexed_vector e.index_status

-- `language is None or Chunk.language == language`
abbrev pub has_language : Option Str → Option Str → Bool
has_language none found = true
has_language (some l) none = false
has_language (some l) (some found) = str_eq found l

-- `not document_ids or Chunk.document_id in document_ids`
abbrev pub is_wanted : List ℕ → ℕ → Bool
is_wanted [] document = true
is_wanted (i ∷ ids) document = is_in document (i ∷ ids)

unfoldable pub is_searched_chunk : CorpusRequest → Embedding → Chunk → Bool
is_searched_chunk r e c =
    c.id == e.chunk_id
    && is_indexed_chunk c.status
    && is_wanted r.document_ids c.document_id
    && has_language r.language c.language

unfoldable pub is_searched_document : Chunk → Document → Bool
is_searched_document c d =
    d.id == c.document_id && is_active_document d.status && is_none d.deleted_at

unfoldable pub is_searched_version : Chunk → DocumentVersion → Bool
is_searched_version c v = v.id == c.document_version_id && is_indexed v.processing_status

unfoldable pub corpus_row : Chunk → Document → LexicalCorpusRow
corpus_row c d = record {
  chunk_id = c.id;
  document_id = d.id;
  document_version_id = c.document_version_id;
  knowledge_base_id = c.knowledge_base_id;
  text = c.text;
  chunk_index = c.sequence_number;
  start_char = c.start_offset;
  end_char = c.end_offset;
  heading = c.heading;
  language = c.language;
}

abbrev pub flat_map : {A B : Type 0} → (A → List B) → List A → List B
flat_map f [] = []
flat_map f (x ∷ xs) = f x ++ flat_map f xs

-- The rows of the four tables that fit together.
unfoldable pub filtered_join : CorpusRequest → Database → List LexicalCorpusRow
unfolding is_searched_vector is_searched_chunk is_searched_document is_searched_version corpus_row
filtered_join r db =
    flat_map
      (λ e.
        flat_map
          (λ c.
            flat_map
              (λ d.
                map (λ _. corpus_row c d) (rows_where (is_searched_version c) db.document_versions))
              (rows_where (is_searched_document c) db.documents))
          (rows_where (is_searched_chunk r e) db.chunks))
      (rows_where (is_searched_vector r) db.embeddings)

-- `ORDER BY document.id, sequence_number, chunk.id`
unfoldable pub is_before : LexicalCorpusRow → LexicalCorpusRow → Bool
is_before a b =
    ltb a.document_id b.document_id
    || (a.document_id == b.document_id
        && (ltb a.chunk_index b.chunk_index
            || (a.chunk_index == b.chunk_index && leb a.chunk_id b.chunk_id)))

unfoldable pub insert_row : LexicalCorpusRow → List LexicalCorpusRow → List LexicalCorpusRow
unfolding is_before
insert_row x [] = x ∷ []
insert_row x (y ∷ ys) = let rest = insert_row x ys in if is_before x y then x ∷ y ∷ ys else y ∷ rest

unfoldable pub order_rows : List LexicalCorpusRow → List LexicalCorpusRow
unfolding insert_row
order_rows [] = []
order_rows (x ∷ xs) = insert_row x (order_rows xs)

unfoldable pub list_indexed_corpus : CorpusRequest → Database → List LexicalCorpusRow
unfolding filtered_join order_rows
list_indexed_corpus r db = order_rows (filtered_join r db)
