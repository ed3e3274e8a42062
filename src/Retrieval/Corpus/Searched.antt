-- ===== src/Retrieval/Corpus/Searched.antt =====
-- indexing/repositories/embedding.py: which rows `list_indexed_corpus` gives.
use rag_enterprise.Prelude.{
  ◌≡◌, sym, Bool, true, ◌&&◌, Bool-cases, inl, inr, List, [], ◌∷◌, ◌==◌, ==_iff, subst, arith, map,
  All, All-append, any_row, rows_where, is_none,
}
use rag_enterprise.Prelude.Text.{str_eq, str_eq_refl}
use rag_enterprise.Knowledge.Enums.{is_active_document}
use rag_enterprise.Knowledge.Models.{Database, Document, DocumentVersion}
use rag_enterprise.Indexing.Enums.{is_indexed_chunk, is_indexed_vector}
use rag_enterprise.Indexing.Models.{Chunk, Embedding}
use rag_enterprise.Indexing.Service.{is_indexed}
use rag_enterprise.Retrieval.Corpus.{
  CorpusRequest, LexicalCorpusRow, flat_map, has_language, is_wanted, is_searched_vector,
  is_searched_chunk, is_searched_document, is_searched_version, corpus_row, filtered_join,
  is_before, insert_row, order_rows, list_indexed_corpus,
}

-- A predicate on what is selected may use that the row is in the table.
All-rows_where :
    {A : Type 0} (P : A → Type 0) (p : A → Bool) (xs : List A)
    → ((x : A) → p x ≡ true → ((q : A → Bool) → q x ≡ true → any_row q xs ≡ true) → P x)
    → All P (rows_where p xs)
unfolding rows_where any_row
All-rows_where P p [] f = tt
All-rows_where P p (x ∷ xs) f =
    let rest = All-rows_where P p xs (λ y py there. f y py (λ q qy. ground (arith, there q qy))) in
    elim (Bool-cases (p x)) [
      | inl fits ↦ rw fits (f x fits (λ q qx. ground arith), rest)
      | inr other ↦ rw other rest
    ]

All-flat_map :
    {A B : Type 0} (P : B → Type 0) (f : A → List B) (xs : List A)
    → All (λ x. All P (f x)) xs
    → All P (flat_map f xs)
All-flat_map P f [] h = tt
All-flat_map P f (x ∷ xs) h = All-append P (f x) (flat_map f xs) h.0 (All-flat_map P f xs h.1)

All-map :
    {A B : Type 0} (P : B → Type 0) (f : A → B) (xs : List A)
    → All (λ x. P (f x)) xs
    → All P (map f xs)
All-map P f [] h = tt
All-map P f (x ∷ xs) h = (h.0, All-map P f xs h.1)

module _ (P : LexicalCorpusRow → Type 0) where
  All-insert_row :
      (x : LexicalCorpusRow) (ys : List LexicalCorpusRow) → P x → All P ys → All P (insert_row x ys)
  unfolding insert_row
  All-insert_row x [] px h = (px, tt)
  All-insert_row x (y ∷ ys) px h =
      let rest = All-insert_row x ys px h.1 in
      elim (Bool-cases (is_before x y)) [
        | inl fits ↦ rw fits (px, h)
        | inr other ↦ rw other (h.0, rest)
      ]

  All-order_rows : (xs : List LexicalCorpusRow) → All P xs → All P (order_rows xs)
  unfolding order_rows
  All-order_rows [] h = tt
  All-order_rows (x ∷ xs) h = All-insert_row x (order_rows xs) h.0 (All-order_rows xs h.1)

  -- To show a predicate of the rows of the corpus.
  pub All-list_indexed_corpus :
      (r : CorpusRequest) (db : Database)
      → ((e : Embedding) (c : Chunk) (d : Document) (v : DocumentVersion)
          → is_searched_vector r e ≡ true
          → ((q : Embedding → Bool) → q e ≡ true → any_row q db.embeddings ≡ true)
          → is_searched_chunk r e c ≡ true
          → ((q : Chunk → Bool) → q c ≡ true → any_row q db.chunks ≡ true)
          → is_searched_document c d ≡ true
          → ((q : Document → Bool) → q d ≡ true → any_row q db.documents ≡ true)
          → is_searched_version c v ≡ true
          → ((q : DocumentVersion → Bool) → q v ≡ true → any_row q db.document_versions ≡ true)
          → P (corpus_row c d))
      → All P (list_indexed_corpus r db)
  unfolding list_indexed_corpus filtered_join
  All-list_indexed_corpus r db f = All-order_rows _ (
      All-flat_map P _ _ (
        All-rows_where _ _ db.embeddings (λ e pe he. All-flat_map P _ _ (
          All-rows_where _ _ db.chunks (λ c pc hc. All-flat_map P _ _ (
            All-rows_where _ _ db.documents (λ d pd hd. All-map P _ _ (
              All-rows_where _ _ db.document_versions
                (λ v pv hv. f e c d v pe he pc hc pd hd pv hv)))))))))

-- The rows behind a row of the corpus.
pub record IsAllowed (r : CorpusRequest) (db : Database) (row : LexicalCorpusRow) : Type 0 where
  pub vector :
      any_row
        (λ e.
          e.organization_id == r.organization_id
          && e.knowledge_base_id == r.knowledge_base_id
          && e.embedding_model_id == r.embedding_model_id
          && e.chunk_id == row.chunk_id
          && is_indexed_vector e.index_status)
        db.embeddings
      ≡ true
  pub chunk :
      any_row
        (λ c. c.id == row.chunk_id && is_indexed_chunk c.status && str_eq c.text row.text)
        db.chunks
      ≡ true
  pub document :
      any_row
        (λ d. d.id == row.document_id && is_active_document d.status && is_none d.deleted_at)
        db.documents
      ≡ true
  pub version :
      any_row
        (λ v. v.id == row.document_version_id && is_indexed v.processing_status)
        db.document_versions
      ≡ true
  pub wanted : is_wanted r.document_ids row.document_id ≡ true
  pub language : has_language r.language row.language ≡ true

allowed :
    (r : CorpusRequest) (db : Database) (e : Embedding) (c : Chunk) (d : Document)
    (v : DocumentVersion)
    → is_searched_vector r e ≡ true
    → ((q : Embedding → Bool) → q e ≡ true → any_row q db.embeddings ≡ true)
    → is_searched_chunk r e c ≡ true
    → ((q : Chunk → Bool) → q c ≡ true → any_row q db.chunks ≡ true)
    → is_searched_document c d ≡ true
    → ((q : Document → Bool) → q d ≡ true → any_row q db.documents ≡ true)
    → is_searched_version c v ≡ true
    → ((q : DocumentVersion → Bool) → q v ≡ true → any_row q db.document_versions ≡ true)
    → IsAllowed r db (corpus_row c d)
unfolding is_searched_vector is_searched_chunk is_searched_document is_searched_version corpus_row
allowed r db e c d v pe he pc hc pd hd pv hv =
    let same : c.document_id ≡ d.id = sym ((==_iff d.id c.document_id).0 (ground arith)) in
    let wanted : is_wanted r.document_ids c.document_id ≡ true = ground arith in
    record {
      vector = he _ (ground arith);
      chunk = hc _ (ground (arith, str_eq_refl c.text));
      document = hd _ (ground arith);
      version = hv _ (ground arith);
      wanted = subst (λ i. is_wanted r.document_ids i ≡ true) same wanted;
      language = ground arith;
    }

-- A row of the corpus of a request has an indexed embedding of the request's organization, knowledge base
-- and model, an indexed chunk with its text, an indexed version, and a document that is active and not
-- deleted; and it fits the documents and the language that the request asks for.
pub list_indexed_corpus-AllAllowed :
    (r : CorpusRequest) (db : Database) → All (IsAllowed r db) (list_indexed_corpus r db)
list_indexed_corpus-AllAllowed r db = All-list_indexed_corpus (IsAllowed r db) r db (allowed r db)
