-- ===== src/Retrieval/LexicalIndex.antt =====
-- retrieval/lexical_index.py: the index of the lexical search, which is kept in the process and in a side
-- file. An index is its documents; how a text is cut to tokens and the clock are parameters, and a side
-- file is what its JSON holds.
pub mod Caching
use rag_enterprise.Prelude.{
  ℕ, ◌-◌, Bool, true, false, not, ◌&&◌, Option, none, some, List, [], ◌∷◌, ◌++◌, ◌==◌, leb, length,
  map, is_none, if◌then◌else◌,
}
use rag_enterprise.Prelude.Text.{Str, strip}
use rag_enterprise.Knowledge.Models.{Database}
use rag_enterprise.Retrieval.Corpus.{CorpusRequest, LexicalCorpusRow, list_indexed_corpus}

pub record LexicalDocument : Type 0 where
  pub row : LexicalCorpusRow
  pub tokens : List Str

abbrev pub Index : Type 0
Index = List LexicalDocument

pub record CacheKey : Type 0 where
  pub organization_id : ℕ
  pub knowledge_base_id : ℕ
  pub embedding_model_id : ℕ
  pub document_count : ℕ

pub record Entry : Type 0 where
  pub stored_at : ℕ
  pub index : Index

-- The name of a side file leaves the organization out.
pub record SideFile : Type 0 where
  pub document_count : ℕ
  pub documents : Index

pub record State : Type 0 where
  pub cache : CacheKey → Option Entry
  pub side_files : (knowledge_base_id embedding_model_id : ℕ) → Option SideFile

unfoldable pub same_key : CacheKey → CacheKey → Bool
same_key a b =
    a.organization_id == b.organization_id
    && a.knowledge_base_id == b.knowledge_base_id
    && a.embedding_model_id == b.embedding_model_id
    && a.document_count == b.document_count

unfoldable pub cache_key : CorpusRequest → (document_count : ℕ) → CacheKey
cache_key r document_count = record {
  organization_id = r.organization_id;
  knowledge_base_id = r.knowledge_base_id;
  embedding_model_id = r.embedding_model_id;
  document_count = document_count;
}

unfoldable pub index_text : LexicalCorpusRow → Str
index_text row = elim row.heading [
  | none ↦ row.text
  | some heading_text ↦ elim (strip heading_text) [
    | [] ↦ row.text
    | c ∷ s ↦ (c ∷ s) ++ 10 ∷ row.text
  ]
]

-- `not document_ids and language is None`
abbrev pub is_unfiltered : CorpusRequest → Bool
is_unfiltered r = elim r.document_ids [ [] ↦ is_none r.language | i ∷ ids ↦ false ]

-- `now - cached[0] <= _CACHE_TTL_SECONDS`
abbrev pub is_fresh : (now : ℕ) → Entry → Bool
is_fresh now e = leb (now - e.stored_at) 300

unfoldable pub store_entry : CacheKey → Entry → State → State
unfolding same_key
store_entry key e s = record s { cache = λ k. if same_key k key then some e else s.cache k }

-- The keys with the prefix are dropped.
unfoldable pub drop_entries : CorpusRequest → State → State
drop_entries r s = record s {
  cache = λ k.
      if k.organization_id == r.organization_id
        && k.knowledge_base_id == r.knowledge_base_id
        && k.embedding_model_id == r.embedding_model_id
      then none
      else s.cache k;
}

abbrev pub whole : CorpusRequest → CorpusRequest
whole r = record r { document_ids = []; language = none }

module _ (tokenize : Str → List Str) where
  unfoldable pub build_bm25_index : List LexicalCorpusRow → Index
  unfolding index_text
  build_bm25_index = map (λ row. record { row = row; tokens = tokenize (index_text row) })

  unfoldable pub write_side_file : CorpusRequest → List LexicalCorpusRow → State → State
  unfolding build_bm25_index
  write_side_file r rows s = record s {
    side_files = λ kb model.
        if kb == r.knowledge_base_id && model == r.embedding_model_id
        then some (record { document_count = length rows; documents = build_bm25_index rows })
        else s.side_files kb model;
  }

  -- A document without tokens is cut again, without its heading.
  unfoldable pub read_document : LexicalDocument → LexicalDocument
  read_document d = elim d.tokens [ [] ↦ record d { tokens = tokenize d.row.text } | t ∷ ts ↦ d ]

  -- A count of 0 is read as -1, so an empty file is never used.
  unfoldable pub load_side_file : Option SideFile → (expected_count : ℕ) → Option Index
  unfolding read_document
  load_side_file none expected_count = none
  load_side_file (some f) expected_count =
      if not (f.document_count == 0)
        && f.document_count == expected_count
        && length f.documents == expected_count
      then some (map read_document f.documents)
      else none

  -- `if index is None: build`
  unfoldable pub use_side_file :
      CorpusRequest → List LexicalCorpusRow → Option Index → State → Index × State
  unfolding build_bm25_index write_side_file
  use_side_file r rows none s = (build_bm25_index rows, write_side_file r rows s)
  use_side_file r rows (some index) s = (index, s)

  -- The index that is read or built, and the state with the side file that may have been written.
  unfoldable pub fetch_index : CorpusRequest → List LexicalCorpusRow → State → Index × State
  unfolding load_side_file use_side_file
  fetch_index r rows s =
      if is_unfiltered r
      then use_side_file r rows
          (load_side_file (s.side_files r.knowledge_base_id r.embedding_model_id) (length rows)) s
      else (build_bm25_index rows, s)

  unfoldable pub load_fresh :
      CorpusRequest → List LexicalCorpusRow → (now : ℕ) → State → Index × State
  unfolding fetch_index store_entry cache_key
  load_fresh r rows now s =
      let (index, s') = fetch_index r rows s in
      (
        index,
        store_entry (cache_key r (length rows)) (record { stored_at = now; index = index }) s',
      )

  -- The test of the cached entry.
  unfoldable pub load_cached :
      CorpusRequest → List LexicalCorpusRow → (now : ℕ) → Option Entry → State → Index × State
  unfolding load_fresh
  load_cached r rows now none s = load_fresh r rows now s
  load_cached r rows now (some e) s =
      if is_fresh now e then (e.index, s) else load_fresh r rows now s

  -- From the rows on.
  unfoldable pub load_rows :
      CorpusRequest → List LexicalCorpusRow → (now : ℕ) → State → Index × State
  unfolding load_cached
  load_rows r rows now s = load_cached r rows now (s.cache (cache_key r (length rows))) s

  unfoldable pub load_bm25_index : CorpusRequest → Database → (now : ℕ) → State → Index × State
  unfolding load_rows
  load_bm25_index r db now s = load_rows r (list_indexed_corpus r db) now s

  unfoldable pub persist_kb_lexical_index : CorpusRequest → Database → State → State
  unfolding drop_entries write_side_file
  persist_kb_lexical_index r db s =
      drop_entries r (write_side_file r (list_indexed_corpus (whole r) db) s)
