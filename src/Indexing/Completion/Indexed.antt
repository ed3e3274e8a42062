-- ===== src/Indexing/Completion/Indexed.antt =====
-- indexing/service.py: an attempt that returns.
use rag_enterprise.Prelude.{
  ℕ, ◌≡◌, refl, Bool, true, false, not, ◌&&◌, ◌||◌, none, some, List, [], ◌∷◌, ◌==◌, ==_iff, arith,
  All, Bool-cases, inl, inr, map, is_none, is_in, scalar, any_row, all_rows, rows_where,
  scalar-test, any_row-update_rows,
}
use rag_enterprise.Knowledge.Enums.{ProcessingStatus}
use rag_enterprise.Knowledge.Models.{Database, DocumentVersion}
use rag_enterprise.Indexing.Models.{Chunk, Embedding, IndexingResult}
use rag_enterprise.Indexing.Session.{
  Session, World, ok, execute, commit, query, pure, fail, throw, ◌>>=◌, in_session,
}
use rag_enterprise.Indexing.Repositories.Chunks.{list_for_version, mark_superseded_for_versions}
use rag_enterprise.Indexing.Repositories.Embeddings.{
  is_active_match, find_active_match, mark_stale_for_versions, stale_vector,
}
use rag_enterprise.Indexing.Repositories.Versions.{
  get_version, set_version, with_status, list_for_document,
}
use rag_enterprise.Indexing.Service.{Env, active_match, is_indexed, is_indexable, is_replaceable}
use rag_enterprise.Indexing.Service.Attempts.{
  select_pending, prior_ids, scope_of, supersede_versions, supersede_prior_versions, finish,
  index_pending, index_chunks, start_indexing, index_version, index_found, index_once,
}
use rag_enterprise.Indexing.Coverage.{IsHeld, holds}
use rag_enterprise.Indexing.Batches.{iter_batches, iter_batches-concat}
use rag_enterprise.Indexing.Coverage.Ensuring.{AreKeyed, All-map, All-both, persist_batches-Keeps}
use rag_enterprise.Indexing.Completion.{fails, goes_on, index_pending_cases}
use rag_enterprise.Indexing.Completion.Failing.{IsRow, HasKeys, IsRow-AreKeyed}
use rag_enterprise.Indexing.Coverage.Selection.{
  select_pending-Selects, pending_of, All-pending_of, All-selected, All-list_for_version,
  list_for_version-own,
}

supersede_versions-embeddings :
    (vs : List DocumentVersion) (now : ℕ) (ids : List ℕ) (db : Database)
    → (supersede_versions now ids vs db).embeddings ≡ db.embeddings
unfolding supersede_versions set_version
supersede_versions-embeddings [] now ids db = refl
supersede_versions-embeddings (v ∷ vs) now ids db = elim (Bool-cases (is_in v.id ids)) [
  | inl prior ↦ rw (supersede_versions, prior) (supersede_versions-embeddings vs now ids _)
  | inr other ↦ rw (supersede_versions, other) (supersede_versions-embeddings vs now ids db)
]

-- An embedding of a chunk is of the chunk's version.
abbrev pub linked : Chunk → Embedding → Bool
linked c e = not (e.chunk_id == c.id) || e.document_version_id == c.document_version_id

-- The embeddings of each chunk of the table.
abbrev pub HasLinks : Database → Type 0
HasLinks db = All (λ c. all_rows (linked c) db.embeddings ≡ true) db.chunks

-- Its own identifier is not among those of the other versions.
prior_ids-own :
    (version : DocumentVersion) (db : Database) → is_in version.id (prior_ids version db) ≡ false
unfolding prior_ids is_in rows_where
prior_ids-own version db =
    go (list_for_document (scope_of version) version.knowledge_base_id version.document_id db)
  where
    go :
        (vs : List DocumentVersion)
        → is_in version.id (
            map
              (λ v. v.id)
              (rows_where (λ v. not (v.id == version.id) && is_replaceable v.processing_status) vs))
          ≡ false
    go [] = refl
    go (v ∷ vs) = ground (arith, go vs)

mark_stale-IsHeld :
    (env : Env) (version : DocumentVersion) (c : Chunk) (ids : List ℕ) (db : Database)
    → is_in version.id ids ≡ false
    → IsHeld env version c db
    → IsHeld env version c (mark_stale_for_versions ids db)
unfolding mark_stale_for_versions is_active_match is_in
mark_stale-IsHeld env version c [] db own h = h
mark_stale-IsHeld env version c (i ∷ ids) db own h = record {
  found =
      any_row-update_rows (holds env version c) _ stale_vector db.embeddings (λ e p q. ground arith)
        h.found;
}

mark_superseded-embeddings :
    (ids : List ℕ) (db : Database)
    → (mark_superseded_for_versions ids db).embeddings ≡ db.embeddings
unfolding mark_superseded_for_versions
mark_superseded-embeddings [] db = refl
mark_superseded-embeddings (i ∷ ids) db = refl

supersede-IsHeld :
    (env : Env) (version : DocumentVersion) (c : Chunk) (db : Database)
    → IsHeld env version c db
    → IsHeld env version c (supersede_prior_versions env version db)
unfolding supersede_prior_versions
supersede-IsHeld env version c db h =
    mark_stale-IsHeld env version c (prior_ids version db) _ (prior_ids-own version db) (record {
      found =
          rw
            (
              mark_superseded-embeddings (prior_ids version db),
              supersede_versions-embeddings _ env.now (prior_ids version db) db,
            )
            h.found;
    })

-- An active match of a chunk of the version, as the link of the chunk and its embeddings has it.
match-IsHeld :
    (env : Env) (version : DocumentVersion) (c : Chunk) (db : Database)
    → all_rows (linked c) db.embeddings ≡ true
    → (c.document_version_id == version.id) ≡ true
    → is_none (active_match env c db) ≡ false
    → IsHeld env version c db
unfolding active_match find_active_match is_active_match scalar any_row all_rows
match-IsHeld env version c db l own m = record { found = go db.embeddings l m }
  where
    go :
        (es : List Embedding)
        → all_rows (linked c) es ≡ true
        → is_none (scalar (is_active_match c.id env.embedding_model_id c.content_hash) es) ≡ false
        → any_row (holds env version c) es ≡ true
    go [] l m = cc
    go (e ∷ es) l m = ground (arith, go es)

module _ (env : Env) (force : Bool) (version : DocumentVersion) (K : Chunk → Type 0)
    (keyed : AreKeyed K) where
  -- The end of an attempt makes the embeddings durable.
  finish-IsHeld :
      (created skipped : ℕ) (c : Chunk) (s : Session)
      → IsHeld env version c s.working
      → IsHeld env version c (finish env version created skipped [] s).1.committed
  unfolding finish execute commit pure set_version ◌>>=◌
  finish-IsHeld created skipped c s h = record {
    found = (supersede-IsHeld env version c s.working h).found;
  }

  -- Pending chunks, and those that had an embedding.
  index_pending-IsHeld :
      (pending : List Chunk) (skipped : ℕ) (s : Session) (r : IndexingResult)
      → All K pending
      → (index_pending env force version (pending, skipped) s).0 ≡ ok r
      → (c : Chunk) → K c
      → IsHeld env version c s.working
      → IsHeld env version c (index_pending env force version (pending, skipped) s).1.committed
  index_pending-IsHeld pending skipped s r k e c kc h =
      elim (index_pending_cases env force version K keyed pending skipped s k) [
        | fails f _ q ↦ cc (rw q at e)
        | goes_on n _ held q ↦
            let batches = iter_batches env.limits pending in
            let whole = iter_batches-concat env.limits pending in
            rw q (
              finish-IsHeld n skipped c _ (
                (persist_batches-Keeps env force version K keyed c batches kc (rw whole k)).at s h))
      ]

  index_pending-All :
      (pending : List Chunk) (skipped : ℕ) (s : Session) (r : IndexingResult)
      → All K pending
      → (index_pending env force version (pending, skipped) s).0 ≡ ok r
      → All
          (λ c.
            IsHeld env version c (index_pending env force version (pending, skipped) s).1.committed)
          pending
  index_pending-All pending skipped s r k e =
      elim (index_pending_cases env force version K keyed pending skipped s k) [
        | fails f _ q ↦ cc (rw q at e)
        | goes_on n _ held q ↦
            rw q (All-map _ _ (λ c h. finish-IsHeld n skipped c _ h) pending held)
      ]

-- What is known of a chunk that is listed for the version.
record IsListed (db : Database) (version : DocumentVersion) (c : Chunk) : Type 0 where
  row : IsRow db c
  link : all_rows (linked c) db.embeddings ≡ true
  own : (c.document_version_id == version.id) ≡ true

module _ (db : Database) (env : Env) (force : Bool) (version : DocumentVersion) where
  index_chunks-IsHeld :
      (cs : List Chunk) (s : Session) (r : IndexingResult)
      → s.working.embeddings ≡ db.embeddings
      → All (IsListed db version) cs
      → (index_chunks env force version cs s).0 ≡ ok r
      → All (λ c. IsHeld env version c (index_chunks env force version cs s).1.committed) cs
  unfolding index_chunks ◌>>=◌
  index_chunks-IsHeld [] s r same k e = tt
  index_chunks-IsHeld (c ∷ cs) s r same k e =
      let chosen = select_pending-Selects env force (c ∷ cs) s in
      let pending = pending_of env force (c ∷ cs) s.working in
      let after = (select_pending env force (c ∷ cs) s).1 in
      let keyed = IsRow-AreKeyed db in
      let rows : All (IsRow db) (c ∷ cs) = All-map _ _ (λ d h. h.row) (c ∷ cs) k in
      let left = All-pending_of (IsRow db) env force (c ∷ cs) s.working rows in
      let e' = rw chosen.result at e in
      All-map
        (λ d.
          IsHeld env version d
            (index_pending env force version (pending, chosen.skipped) after).1.committed)
        _ (λ d h. rw chosen.result h) (c ∷ cs)
        (All-selected (IsListed db version) _ env force (c ∷ cs) s.working
          (λ d q m.
            index_pending-IsHeld env force version (IsRow db) keyed pending chosen.skipped after r
              left e' d q.row
              (record {
                found =
                    rw chosen.embeddings
                      (match-IsHeld env version d s.working (rw same q.link) q.own m).found;
              }))
          k
          (index_pending-All env force version (IsRow db) keyed pending chosen.skipped after r left
            e'))

list_for_version-IsListed :
    (db : Database) (version : DocumentVersion)
    → HasKeys db
    → HasLinks db
    → All (IsListed db version) (list_for_version version.id db)
list_for_version-IsListed db version keys links =
    let ids = list_for_version version.id db in
    All-both (λ c. (c.document_version_id == version.id) ≡ true)
      (λ c. IsRow db c × (all_rows (linked c) db.embeddings ≡ true)) (IsListed db version)
      (λ c own p. record { row = p.0; link = p.1; own = own }) ids
      (list_for_version-own (λ c. (c.document_version_id == version.id) ≡ true) version.id db
        (λ c h. h))
      (All-list_for_version (λ c. IsRow db c × (all_rows (linked c) db.embeddings ≡ true))
        version.id db
        (All-both (IsRow db) (λ c. all_rows (linked c) db.embeddings ≡ true) _ (λ c p q. (p, q))
          db.chunks keys links))

-- An indexing that returns, and that had something to do, leaves every chunk of the version with an
-- active embedding that was made for the version, if the identifiers of chunks are keys and each embedding
-- is of the version of its chunk.
pub index_once-IsHeld :
    (env : Env) (force : Bool) (id : ℕ) (w : World) (version : DocumentVersion) (r : IndexingResult)
    → HasKeys w.db
    → HasLinks w.db
    → get_version id w.db ≡ some version
    → (is_indexed version.processing_status && not force) ≡ false
    → (in_session (index_once env force id) w).0 ≡ ok r
    → All
        (λ c. IsHeld env version c (in_session (index_once env force id) w).1.db)
        (list_for_version id w.db)
unfolding in_session index_once index_found index_version start_indexing query execute fail throw
    set_version get_version scalar list_for_version ◌>>=◌
index_once-IsHeld env force id w version r keys links found go e =
    let own : version.id ≡ id =
      (==_iff version.id id).0
        (scalar-test (λ u. u.id == id) w.db.document_versions version found) in
    elim (Bool-cases (is_indexable version.processing_status)) [
      | inr refused ↦ cc (rw (found, go, refused) at e)
      | inl fit ↦
          let opened = set_version version.id (with_status ProcessingStatus.indexing none) w.db in
          let s : Session = record { working = opened; committed = w.db; calls = w.calls } in
          rw (found, go, fit, ← own)
            (index_chunks-IsHeld w.db env force version (list_for_version version.id w.db) s r refl
              (list_for_version-IsListed w.db version keys links) (rw (found, go, fit) at e))
    ]
