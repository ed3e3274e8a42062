-- ===== src/Retrieval/Corpus/Current.antt =====
-- indexing/repositories/embedding.py with indexing/service.py: the version that the corpus has of a
-- document.
use rag_enterprise.Prelude.{
  ◌≡◌, refl, sym, ◌∙◌, Bool, true, false, not, ◌&&◌, ◌||◌, List, [], ◌∷◌, ◌==◌, ==_iff, arith, All,
  any_row, all_rows,
}
use rag_enterprise.Knowledge.Enums.{ProcessingStatus}
use rag_enterprise.Knowledge.Models.{Database, DocumentVersion}
use rag_enterprise.Indexing.Service.Attempts.{scope_of}
use rag_enterprise.Indexing.Models.{Chunk}
use rag_enterprise.Indexing.Repositories.Versions.{of_document}
use rag_enterprise.Indexing.Service.{is_indexed, is_replaceable}
use rag_enterprise.Indexing.Superseding.{is_rival}
use rag_enterprise.Indexing.Superseding.Settled.{is_settled, AreSettled}
use rag_enterprise.Retrieval.Corpus.{
  CorpusRequest, is_searched_document, is_searched_version, corpus_row, list_indexed_corpus,
}
use rag_enterprise.Retrieval.Corpus.Searched.{All-list_indexed_corpus}

refuted :
    {A : Type 0} (p : A → Bool) (xs : List A)
    → all_rows p xs ≡ true
    → any_row (λ x. not (p x)) xs ≡ false
unfolding all_rows any_row
refuted p [] h = refl
refuted p (x ∷ xs) h = ground (arith, refuted p xs)

-- What all rows pass, a row that is in the table passes.
passes :
    {A : Type 0} (p : A → Bool) (xs : List A) (x : A)
    → all_rows p xs ≡ true
    → ((q : A → Bool) → q x ≡ true → any_row q xs ≡ true)
    → p x ≡ true
passes p xs x h there = ground (arith, refuted p xs h, there (λ y. not (p y)))

-- A version whose identifier a chunk of the document has is a version of the document, in the tenant and
-- the knowledge base of the given one.
unfoldable pub AreLinked : DocumentVersion → Database → Type 0
AreLinked version db =
    all_rows
      (λ v.
        all_rows
          (λ c.
            not (v.id == c.document_version_id && c.document_id == version.document_id)
            || of_document (scope_of version) version.knowledge_base_id version.document_id v)
          db.chunks)
      db.document_versions
    ≡ true

indexed_replaceable : (s : ProcessingStatus) → is_indexed s ≡ true → is_replaceable s ≡ true
indexed_replaceable ProcessingStatus.indexed h = refl
indexed_replaceable _ h = cc

-- The only version that is settled and indexed.
sole :
    (version v : DocumentVersion)
    → is_settled version v ≡ true
    → is_indexed v.processing_status ≡ true
    → of_document (scope_of version) version.knowledge_base_id version.document_id v ≡ true
    → v.id ≡ version.id
unfolding is_settled is_rival
sole version v settled indexed own =
    (==_iff v.id version.id).0 (ground (arith, indexed_replaceable v.processing_status indexed))

linked_own :
    (version v : DocumentVersion) (c : Chunk)
    → v.id ≡ c.document_version_id
    → c.document_id ≡ version.document_id
    → (not (v.id == c.document_version_id && c.document_id == version.document_id)
        || of_document (scope_of version) version.knowledge_base_id version.document_id v)
      ≡ true
    → of_document (scope_of version) version.knowledge_base_id version.document_id v ≡ true
linked_own version v c found own h = ground (
  arith,
  h,
  (==_iff v.id c.document_version_id).1 found,
  (==_iff c.document_id version.document_id).1 own,
)

module _ (version : DocumentVersion) (r : CorpusRequest) (db : Database) where
  -- Where a version is settled, as an indexing leaves it, a row of the corpus that is of its document is
  -- of this version, if a version whose identifier a chunk of the document has is a version of the
  -- document, in the same tenant and knowledge base.
  pub list_indexed_corpus-AllCurrent :
      AreSettled version db
      → AreLinked version db
      → All
          (λ row. row.document_id ≡ version.document_id → row.document_version_id ≡ version.id)
          (list_indexed_corpus r db)
  unfolding AreLinked is_searched_version is_searched_document corpus_row
  list_indexed_corpus-AllCurrent settled linked =
      All-list_indexed_corpus _ r db (λ e c d v pe he pc hc pd hd pv hv same.
        let linked_chunk = passes _ db.chunks c (passes _ db.document_versions v linked hv) hc in
        let only = passes (is_settled version) db.document_versions v settled hv in
        let found : v.id ≡ c.document_version_id =
          (==_iff v.id c.document_version_id).0 (ground arith) in
        let of_its : c.document_id ≡ version.document_id =
          sym ((==_iff d.id c.document_id).0 (ground arith)) ∙ same in
        sym found
        ∙ sole version v only (ground arith) (linked_own version v c found of_its linked_chunk))
