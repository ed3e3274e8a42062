-- ===== src/Indexing/Superseding/Settled.antt =====
-- indexing/service.py: the versions of a document after `_index_once`.
use rag_enterprise.Prelude.{
  ℕ, ◌≡◌, refl, Bool, true, false, not, ◌&&◌, none, some, List, [], ◌∷◌, ◌==◌, arith, All,
  Bool-cases, inl, inr, all_rows, update_rows, if◌then◌else◌,
}
use rag_enterprise.Knowledge.Enums.{ProcessingStatus}
use rag_enterprise.Knowledge.Models.{Database, DocumentVersion}
use rag_enterprise.Indexing.Models.{Chunk, IndexingResult}
use rag_enterprise.Indexing.Session.{
  Session, World, ok, query, execute, commit, pure, fail, throw, ◌>>=◌, in_session,
}
use rag_enterprise.Indexing.Repositories.Chunks.{list_for_version}
use rag_enterprise.Indexing.Repositories.Versions.{get_version, set_version, with_status}
use rag_enterprise.Indexing.Batches.{iter_batches}
use rag_enterprise.Indexing.Service.{Env, persist_batches, is_indexed, is_indexable}
use rag_enterprise.Indexing.Service.Attempts.{
  select_pending, as_indexed, finish, index_chunks, start_indexing, index_version, index_found,
  index_once,
}
use rag_enterprise.Indexing.Coverage.Selection.{
  select_pending-Selects, pending_of, All-pending_of, All-list_for_version,
}
use rag_enterprise.Indexing.Completion.{fails, goes_on, index_pending_cases}
use rag_enterprise.Indexing.Completion.Failing.{IsRow, HasKeys, IsRow-AreKeyed}
use rag_enterprise.Indexing.Superseding.{is_rival, supersede_prior_versions-is_rival}

-- The version is indexed, and no other of its document is indexed, chunked or being indexed.
unfoldable pub is_settled : DocumentVersion → DocumentVersion → Bool
unfolding is_rival
is_settled version v =
    if v.id == version.id then is_indexed v.processing_status else not (is_rival version v)

abbrev pub AreSettled : DocumentVersion → Database → Type 0
AreSettled version db = all_rows (is_settled version) db.document_versions ≡ true

module _ (env : Env) (force : Bool) (version : DocumentVersion) where
  indexed_settled :
      (vs : List DocumentVersion)
      → all_rows (λ v. not (is_rival version v)) vs ≡ true
      → all_rows
          (is_settled version)
          (update_rows (λ v. v.id == version.id) (as_indexed env.later) vs)
        ≡ true
  unfolding all_rows update_rows is_settled
  indexed_settled [] h = refl
  indexed_settled (v ∷ vs) h = elim (Bool-cases (v.id == version.id)) [
    | inl own ↦ rw (own, own) (ground (arith, indexed_settled vs))
    | inr other ↦ rw (other, other) (ground (arith, indexed_settled vs))
  ]

  finish_settled :
      (created skipped : ℕ) (s : Session)
      → AreSettled version (finish env version created skipped [] s).1.committed
  unfolding finish execute commit pure set_version ◌>>=◌
  finish_settled created skipped s =
      indexed_settled _ (supersede_prior_versions-is_rival env version s.working)

  index_chunks_settled :
      (db : Database) (cs : List Chunk) (s : Session) (r : IndexingResult)
      → All (IsRow db) cs
      → (index_chunks env force version cs s).0 ≡ ok r
      → AreSettled version (index_chunks env force version cs s).1.committed
  unfolding index_chunks execute commit fail throw ◌>>=◌
  index_chunks_settled db [] s r rows e = cc
  index_chunks_settled db (c ∷ cs) s r rows e =
      let chosen = select_pending-Selects env force (c ∷ cs) s in
      let pending = pending_of env force (c ∷ cs) s.working in
      let after = (select_pending env force (c ∷ cs) s).1 in
      let left = All-pending_of (IsRow db) env force (c ∷ cs) s.working rows in
      elim (index_pending_cases env force version (IsRow db) (IsRow-AreKeyed db) pending
        chosen.skipped after left) [
          | fails f _ q ↦ cc (rw (chosen.result, q) at e)
          | goes_on n _ _ q ↦
              rw (chosen.result, q)
                (finish_settled n chosen.skipped
                  (persist_batches env force version (iter_batches env.limits pending) after).1)
        ]

-- After an indexing that returns, and that had something to do, the version is indexed, and no other
-- version of its document is indexed, chunked or being indexed, if the identifiers of chunks are keys.
pub index_once-AreSettled :
    (env : Env) (force : Bool) (id : ℕ) (w : World) (version : DocumentVersion) (r : IndexingResult)
    → HasKeys w.db
    → get_version id w.db ≡ some version
    → (is_indexed version.processing_status && not force) ≡ false
    → (in_session (index_once env force id) w).0 ≡ ok r
    → AreSettled version (in_session (index_once env force id) w).1.db
unfolding in_session index_once index_found index_version start_indexing query execute fail throw
    set_version list_for_version ◌>>=◌
index_once-AreSettled env force id w version r keys found go e =
    elim (Bool-cases (is_indexable version.processing_status)) [
      | inr refused ↦ cc (rw (found, go, refused) at e)
      | inl fit ↦
          let opened = set_version version.id (with_status ProcessingStatus.indexing none) w.db in
          let s : Session = record { working = opened; committed = w.db; calls = w.calls } in
          rw (found, go, fit)
            (index_chunks_settled env force version w.db (list_for_version version.id w.db) s r
              (All-list_for_version (IsRow w.db) version.id w.db keys) (rw (found, go, fit) at e))
    ]
