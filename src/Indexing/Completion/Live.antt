-- ===== src/Indexing/Completion/Live.antt =====
-- indexing/service.py: an indexing with a provider that answers.
use rag_enterprise.Prelude.{
  ℕ, zero, suc, ◌+◌, ◌≡◌, refl, sym, ap, ◌∙◌, Bool, true, false, not, ◌&&◌, none, some, List, [],
  ◌∷◌, ◌==◌, ==_iff, All, map, length, length-append, scalar, scalar-test,
}
use rag_enterprise.Prelude.Text.{Str}
use rag_enterprise.Knowledge.Enums.{ProcessingStatus}
use rag_enterprise.Knowledge.Models.{Database, DocumentVersion}
use rag_enterprise.Indexing.Models.{Chunk, Vector, IndexingResult}
use rag_enterprise.Indexing.Session.{
  Session, World, Outcome, ok, pure, query, execute, commit, ◌>>=◌, in_session,
}
use rag_enterprise.Indexing.Batches.{iter_batches, iter_batches-concat, concat}
use rag_enterprise.Indexing.Embedding.{texts_of}
use rag_enterprise.Indexing.Embedding.Splitting.{EmbedsEach, embed_batch_with_split-map}
use rag_enterprise.Indexing.Repositories.Chunks.{list_for_version}
use rag_enterprise.Indexing.Repositories.Versions.{get_version, set_version, with_status}
use rag_enterprise.Indexing.Service.{
  Env, is_indexed, is_indexable, persist_vector, persist_vectors, embed_and_persist_batch,
  persist_batches,
}
use rag_enterprise.Indexing.Service.Attempts.{
  finish, index_pending, index_chunks, start_indexing, index_version, index_found, index_once,
  result_of, after_last, after_early, attempt, run_with_retries,
}
use rag_enterprise.Indexing.Coverage.{store_vector_lem}
use rag_enterprise.Indexing.Coverage.Selection.{
  select_pending-Selects, pending_of, All-pending_of, All-list_for_version,
}
use rag_enterprise.Indexing.Coverage.Ensuring.{AreKeyed}
use rag_enterprise.Indexing.Completion.{fails, goes_on, index_pending_cases}
use rag_enterprise.Indexing.Completion.Failing.{IsRow, HasKeys, IsRow-AreKeyed}

ok_same : (a b : ℕ) → Path (Outcome ℕ) (ok a) (ok b) → a ≡ b
ok_same a b e = cc

-- The provider embeds each text, in the dimensions that it states.
pub record IsServing (env : Env) (vector : Str → Vector) : Type 0 where
  pub each : EmbedsEach env.provider vector
  pub fit : (t : Str) → length (vector t) ≡ env.provider.dimensions

module _ (env : Env) (vector : Str → Vector) (serving : IsServing env vector) (force : Bool)
    (version : DocumentVersion) where
  persist_vector_ok :
      (c : Chunk) (s : Session) → (persist_vector env force version c (vector c.text) s).0 ≡ ok tt
  unfolding persist_vector
  persist_vector_ok c s =
      let right = (==_iff _ _).1 (serving.fit c.text) in
      rw (right, store_vector_lem env force version c (vector c.text) s) refl

  persist_vectors_ok :
      (cs : List Chunk) (s : Session)
      → (persist_vectors env force version cs (map vector (texts_of cs)) s).0 ≡ ok (length cs)
  unfolding persist_vectors pure ◌>>=◌
  persist_vectors_ok [] s = refl
  persist_vectors_ok (c ∷ cs) s = rw (persist_vector_ok c s, persist_vectors_ok cs _) refl

  batch_ok :
      (b : List Chunk) (s : Session)
      → (embed_and_persist_batch env force version b s).0 ≡ ok (length b)
  unfolding embed_and_persist_batch ◌>>=◌
  batch_ok b s =
      rw (embed_batch_with_split-map env.provider vector serving.each b s) (persist_vectors_ok b _)

  persist_batches_ok :
      (bs : List (List Chunk)) (s : Session)
      → (persist_batches env force version bs s).0 ≡ ok (length (concat bs))
  unfolding persist_batches pure ◌>>=◌
  persist_batches_ok [] s = refl
  persist_batches_ok (b ∷ bs) s =
      rw (batch_ok b s, persist_batches_ok bs _, length-append b (concat bs)) refl

  index_pending_ok :
      (K : Chunk → Type 0)
      → AreKeyed K
      → (pending : List Chunk) (skipped : ℕ) (s : Session) → All K pending
      → (index_pending env force version (pending, skipped) s).0
        ≡ ok (result_of env version.id (length pending) skipped)
  unfolding finish execute commit pure ◌>>=◌
  index_pending_ok K keyed pending skipped s k =
      let all = persist_batches_ok (iter_batches env.limits pending) s in
      elim (index_pending_cases env force version K keyed pending skipped s k) [
        | fails f e q ↦ cc
        | goes_on n e held q ↦
            let count : n ≡ length pending =
              ok_same n _ (sym e ∙ all) ∙ ap length (iter_batches-concat env.limits pending) in
            rw (q, count) refl
      ]

  index_chunks_ok :
      (db : Database) (c : Chunk) (cs : List Chunk) (s : Session)
      → All (IsRow db) (c ∷ cs)
      → (k : ℕ) × (n : ℕ) × ((index_chunks env force version (c ∷ cs) s).0
          ≡ ok (result_of env version.id n k))
        × (n + k ≡ length (c ∷ cs))
  unfolding index_chunks ◌>>=◌
  index_chunks_ok db c cs s rows =
      let chosen = select_pending-Selects env force (c ∷ cs) s in
      let pending = pending_of env force (c ∷ cs) s.working in
      (
        chosen.skipped,
        length pending,
        rw chosen.result (
            index_pending_ok (IsRow db) (IsRow-AreKeyed db) pending chosen.skipped _
              (All-pending_of (IsRow db) env force (c ∷ cs) s.working rows)),
        chosen.complete,
      )

-- The counts of a result that accounts for all `total` chunks.
pub record IsComplete (env : Env) (id total : ℕ) (r : Outcome IndexingResult) : Type 0 where
  pub created : ℕ
  pub skipped : ℕ
  pub returns : r ≡ ok (result_of env id created skipped)
  pub complete : created + skipped ≡ total

module _ (env : Env) (vector : Str → Vector) (serving : IsServing env vector) (force : Bool) where
  index_once_ok :
      (id : ℕ) (w : World) (version : DocumentVersion) (c : Chunk) (cs : List Chunk)
      → HasKeys w.db
      → get_version id w.db ≡ some version
      → is_indexable version.processing_status ≡ true
      → (is_indexed version.processing_status && not force) ≡ false
      → list_for_version id w.db ≡ c ∷ cs
      → IsComplete env id (length (c ∷ cs)) (in_session (index_once env force id) w).0
  unfolding in_session index_once index_found index_version start_indexing query execute set_version
      get_version scalar list_for_version ◌>>=◌
  index_once_ok id w version c cs keys found fit go listed =
      let own : version.id ≡ id =
        (==_iff version.id id).0
          (scalar-test (λ u. u.id == id) w.db.document_versions version found) in
      let opened = set_version version.id (with_status ProcessingStatus.indexing none) w.db in
      let s : Session = record { working = opened; committed = w.db; calls = w.calls } in
      let rows : All (IsRow w.db) (c ∷ cs) =
        rw listed at (All-list_for_version (IsRow w.db) id w.db keys) in
      let (k, n, e, total) = index_chunks_ok env vector serving force version w.db c cs s rows in
      record {
        created = n;
        skipped = k;
        returns = rw (found, go, fit, own, listed) (rw own at e);
        complete = total;
      }

  -- With a provider of which one call in three with one text is answered, an indexing of a version
  -- with chunks returns, and counts each of them as created or skipped, if the version is indexable
  -- and is to be indexed, and the identifiers of chunks are keys.
  pub run_with_retries-IsComplete :
      (id : ℕ) (w : World) (version : DocumentVersion) (c : Chunk) (cs : List Chunk)
      → HasKeys w.db
      → get_version id w.db ≡ some version
      → is_indexable version.processing_status ≡ true
      → (is_indexed version.processing_status && not force) ≡ false
      → list_for_version id w.db ≡ c ∷ cs
      → IsComplete env id (length (c ∷ cs)) (run_with_retries env force id w).0
  unfolding run_with_retries attempt after_last after_early
  run_with_retries-IsComplete id w version c cs keys found fit go listed =
      first env.retry_delays (index_once_ok id w version c cs keys found fit go listed)
    where
      first :
          (more : ℕ)
          → IsComplete env id (length (c ∷ cs)) (in_session (index_once env force id) w).0
          → IsComplete env id (length (c ∷ cs)) (attempt more env force id w).0
      first zero h = record {
        created = h.created;
        skipped = h.skipped;
        returns = rw h.returns refl;
        complete = h.complete;
      }
      first (suc more) h = record {
        created = h.created;
        skipped = h.skipped;
        returns = rw h.returns refl;
        complete = h.complete;
      }
