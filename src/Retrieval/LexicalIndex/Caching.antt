-- ===== src/Retrieval/LexicalIndex/Caching.antt =====
-- retrieval/lexical_index.py: what `load_bm25_index` returns after another call.
use rag_enterprise.Prelude.{
  ℕ, ◌+◌, ◌≤◌, ◌≡◌, refl, sym, ap, Bool, true, false, none, some, List, [], ◌∷◌, ==_iff, length,
  map, arith, All, if◌then◌else◌,
}
use rag_enterprise.Prelude.Text.{Str}
use rag_enterprise.Knowledge.Models.{Database}
use rag_enterprise.Retrieval.Corpus.{CorpusRequest, LexicalCorpusRow, list_indexed_corpus}
use rag_enterprise.Retrieval.LexicalIndex.{
  Index, CacheKey, Entry, State, same_key, cache_key, index_text, is_fresh, build_bm25_index,
  write_side_file, read_document, load_side_file, store_entry, fetch_index, load_fresh, load_cached,
  load_rows, use_side_file, load_bm25_index, drop_entries, whole, persist_kb_lexical_index,
}

same_key_refl : (k : CacheKey) → same_key k k ≡ true
unfolding same_key
same_key_refl k = ground arith

-- Two requests for the same organization, knowledge base and model.
pub record SameBase (a b : CorpusRequest) : Type 0 where
  pub organization : a.organization_id ≡ b.organization_id
  pub knowledge_base : a.knowledge_base_id ≡ b.knowledge_base_id
  pub model : a.embedding_model_id ≡ b.embedding_model_id

-- The entries of the base are gone.
dropped_entry :
    (r : CorpusRequest) (n : ℕ) (s : State)
    → (drop_entries r s).cache (cache_key (whole r) n) ≡ none
unfolding drop_entries cache_key
dropped_entry r n s =
    rw
      (
        (==_iff r.organization_id r.organization_id).1 refl,
        (==_iff r.knowledge_base_id r.knowledge_base_id).1 refl,
        (==_iff r.embedding_model_id r.embedding_model_id).1 refl,
      )
      refl

module _ (tokenize : Str → List Str) where
  stored_entry : (key : CacheKey) (e : Entry) (s : State) → (store_entry key e s).cache key ≡ some e
  unfolding store_entry
  stored_entry key e s = rw (same_key_refl key) refl

  -- A miss stores what it returns.
  load_rows_miss :
      (r : CorpusRequest) (rows : List LexicalCorpusRow) (now : ℕ) (s : State)
      → s.cache (cache_key r (length rows)) ≡ none
      → (load_rows tokenize r rows now s).1.cache (cache_key r (length rows))
        ≡ some (record { stored_at = now; index = (load_rows tokenize r rows now s).0 })
  unfolding load_rows load_cached load_fresh
  load_rows_miss r rows now s miss =
      rw miss (stored_entry (cache_key r (length rows)) _ (fetch_index tokenize r rows s).1)

  load_rows_hit :
      (r : CorpusRequest) (rows : List LexicalCorpusRow) (now : ℕ) (s : State) (e : Entry)
      → s.cache (cache_key r (length rows)) ≡ some e
      → is_fresh now e ≡ true
      → load_rows tokenize r rows now s ≡ (e.index, s)
  unfolding load_rows load_cached
  load_rows_hit r rows now s e found fresh = rw (found, fresh) refl

  -- After a request that has missed the cache, a request for the same base within the time to live gets
  -- the index of the first, if as many rows fit it, whatever the documents and the language that the
  -- two ask for, and even if the database has changed.
  pub load_bm25_index-repeats :
      (a b : CorpusRequest) (before after : Database) (now later : ℕ) (s : State)
      → SameBase a b
      → length (list_indexed_corpus a before) ≡ length (list_indexed_corpus b after)
      → s.cache (cache_key a (length (list_indexed_corpus a before))) ≡ none
      → later ≤ now + 300
      → (load_bm25_index tokenize b after later (load_bm25_index tokenize a before now s).1).0
        ≡ (load_bm25_index tokenize a before now s).0
  unfolding load_bm25_index cache_key
  load_bm25_index-repeats a b before after now later s same count miss soon =
      let first = load_rows tokenize a (list_indexed_corpus a before) now s in
      let entry : Entry = record { stored_at = now; index = first.0 } in
      let stored = load_rows_miss a (list_indexed_corpus a before) now s miss in
      let found : first.1.cache (cache_key b (length (list_indexed_corpus b after))) ≡ some entry =
        rw (sym count, sym same.organization, sym same.knowledge_base, sym same.model) stored in
      ap (λ p. p.0)
        (load_rows_hit b (list_indexed_corpus b after) later first.1 entry found (ground arith))

  -- The tokens of a text without a heading are none where those with the heading are none.
  abbrev CutsAlike : List LexicalCorpusRow → Type 0
  CutsAlike = All (λ row. tokenize (index_text row) ≡ [] → tokenize row.text ≡ [])

  read_document_lem :
      (row : LexicalCorpusRow) (tokens : List Str)
      → (tokens ≡ [] → tokenize row.text ≡ [])
      → read_document tokenize (record { row = row; tokens = tokens })
        ≡ record { row = row; tokens = tokens }
  unfolding read_document
  read_document_lem row [] h = rw (h refl) refl
  read_document_lem row (t ∷ ts) h = refl

  read_built :
      (rows : List LexicalCorpusRow)
      → CutsAlike rows
      → map (read_document tokenize) (build_bm25_index tokenize rows)
        ≡ build_bm25_index tokenize rows
  unfolding build_bm25_index
  read_built [] h = refl
  read_built (row ∷ rows) h =
      rw (read_document_lem row (tokenize (index_text row)) h.0, read_built rows h.1) refl

  length-build_bm25_index :
      (rows : List LexicalCorpusRow) → length (build_bm25_index tokenize rows) ≡ length rows
  unfolding build_bm25_index
  length-build_bm25_index [] = refl
  length-build_bm25_index (row ∷ rows) = omega (arith, length-build_bm25_index rows)

  -- What is read from a file for these rows, or built without one.
  use_either :
      (r : CorpusRequest) (rows : List LexicalCorpusRow) (s : State) (index : Index) (b : Bool)
      → index ≡ build_bm25_index tokenize rows
      → (use_side_file tokenize r rows (if b then some index else none) s).0
        ≡ build_bm25_index tokenize rows
  unfolding use_side_file
  use_either r rows s index true h = h
  use_either r rows s index false h = refl

  -- What a request without a filter gets from the side file, or builds.
  fetch_written :
      (r : CorpusRequest) (rows : List LexicalCorpusRow) (s : State)
      → CutsAlike rows
      → s.side_files r.knowledge_base_id r.embedding_model_id
        ≡ some (record { document_count = length rows; documents = build_bm25_index tokenize rows })
      → (fetch_index tokenize (whole r) rows s).0 ≡ build_bm25_index tokenize rows
  unfolding fetch_index load_side_file
  fetch_written r rows s h written =
      rw written (use_either (whole r) rows s _ _ (read_built rows h))

  written_file :
      (r : CorpusRequest) (rows : List LexicalCorpusRow) (s : State)
      → (drop_entries r (write_side_file tokenize r rows s)).side_files r.knowledge_base_id
          r.embedding_model_id
        ≡ some (record { document_count = length rows; documents = build_bm25_index tokenize rows })
  unfolding drop_entries write_side_file
  written_file r rows s =
      rw
        (
          (==_iff r.knowledge_base_id r.knowledge_base_id).1 refl,
          (==_iff r.embedding_model_id r.embedding_model_id).1 refl,
        )
        refl

  -- After the index of a knowledge base has been persisted, a request without a filter gets the index
  -- of the corpus, if a text has no tokens where it has none with its heading.
  pub load_bm25_index-persisted :
      (r : CorpusRequest) (db : Database) (now : ℕ) (s : State)
      → CutsAlike (list_indexed_corpus (whole r) db)
      → (load_bm25_index tokenize (whole r) db now (persist_kb_lexical_index tokenize r db s)).0
        ≡ build_bm25_index tokenize (list_indexed_corpus (whole r) db)
  unfolding load_bm25_index load_rows load_fresh persist_kb_lexical_index
  load_bm25_index-persisted r db now s h =
      let rows = list_indexed_corpus (whole r) db in
      let written = write_side_file tokenize r rows s in
      rw (dropped_entry r (length rows) written)
        (fetch_written r rows (drop_entries r written) h (written_file r rows s))
