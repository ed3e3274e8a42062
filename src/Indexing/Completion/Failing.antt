-- ===== src/Indexing/Completion/Failing.antt =====
-- indexing/service.py: an attempt that raises.
use rag_enterprise.Prelude.{
  ℕ, ◌≡◌, refl, subst, Bool, true, not, ◌&&◌, Option, none, some, List, [], ◌∷◌, ◌==◌, ==_iff, All,
  Bool-cases, inl, inr, scalar, any_row, any_row-update_rows,
}
use rag_enterprise.Prelude.Text.{Str}
use rag_enterprise.Knowledge.Enums.{ProcessingStatus}
use rag_enterprise.Knowledge.Models.{Database, DocumentVersion}
use rag_enterprise.Indexing.Models.{Chunk, Embedding}
use rag_enterprise.Indexing.Session.{
  Session, Action, World, raised, Failure, pure, query, execute, commit, fail, throw, ◌>>=◌,
  in_session,
}
use rag_enterprise.Indexing.Batches.{iter_batches, concat}
use rag_enterprise.Indexing.Repositories.Chunks.{set_indexed, list_for_version}
use rag_enterprise.Indexing.Repositories.Embeddings.{is_refused}
use rag_enterprise.Indexing.Repositories.Versions.{get_version, set_version, with_status}
use rag_enterprise.Indexing.Keeping.{Keeps, Keeps-execute}
use rag_enterprise.Indexing.Service.{
  Env, retire, insert_embedding, persist_batches, is_indexed, is_indexable,
}
use rag_enterprise.Indexing.Service.Attempts.{
  select_pending, finish, index_pending, index_chunks, already_indexed, start_indexing,
  index_version, missing_version, index_found, index_once,
}
use rag_enterprise.Indexing.Service.Rounds.{
  Keeps-persist_vector, Keeps-persist_batches, Keeps-select_pending,
}
use rag_enterprise.Indexing.Coverage.Ensuring.{AreKeyed, All-any}
use rag_enterprise.Indexing.Coverage.Selection.{
  select_pending-Selects, pending_of, All-pending_of, All-list_for_version,
}
use rag_enterprise.Indexing.Completion.{fails, goes_on, index_pending_cases}

-- A row of the table, found by its identifier.
abbrev pub IsRow : Database → Chunk → Type 0
IsRow db c = scalar (λ r. r.id == c.id) db.chunks ≡ some c

-- The identifier is a key of the table.
abbrev pub HasKeys : Database → Type 0
HasKeys db = All (IsRow db) db.chunks

pub IsRow-AreKeyed : (db : Database) → AreKeyed (IsRow db)
IsRow-AreKeyed db = record {
  same = λ c d kc kd e.
      let same : d.id ≡ c.id = (==_iff d.id c.id).0 e in
      let kd' : scalar (λ r. r.id == c.id) db.chunks ≡ some d =
        subst (λ i. scalar (λ r. r.id == i) db.chunks ≡ some d) same kd in
      (same, cc (kd', kc));
}

-- The durable database stays as it is.
abbrev Durable : Database → Session → Type 0
Durable db s = s.committed ≡ db

module _ (db : Database) (env : Env) (force : Bool) where
  execute-Durable : (f : Database → Database) → Keeps (Durable db) (execute f)
  execute-Durable f = Keeps-execute (Durable db) f λ s h. h

  insert-Durable : (e : Embedding) → Keeps (Durable db) (insert_embedding env e)
  unfolding insert_embedding query execute fail throw ◌>>=◌
  insert-Durable e = record {
    at = λ s h. elim (Bool-cases (is_refused e s.working)) [
      | inl refused ↦ rw refused h
      | inr fresh ↦ rw fresh h
    ];
  }

  pub persist_batches-Durable :
      (version : DocumentVersion) (bs : List (List Chunk))
      → Keeps (Durable db) (persist_batches env force version bs)
  persist_batches-Durable version bs =
      Keeps-persist_batches (Durable db) (λ _. Unit) env force version (λ s n h. h)
        (λ c v _.
          Keeps-persist_vector (Durable db) env force version c v
            (execute-Durable (retire env force c)) insert-Durable
            (execute-Durable (set_indexed c.id)))
        bs (All-any (λ _. Unit) (λ _. tt) (concat bs))

  pub select_pending-Durable : (cs : List Chunk) → Keeps (Durable db) (select_pending env force cs)
  select_pending-Durable =
      Keeps-select_pending (Durable db) env (λ id. execute-Durable (set_indexed id)) force

-- A version of this identifier.
abbrev pub IsPresent : ℕ → Database → Type 0
IsPresent id db = any_row (λ v. v.id == id) db.document_versions ≡ true

-- The same chunks and the same embeddings, and no version fewer.
pub record SameIndex (a b : Database) : Type 0 where
  pub chunks : a.chunks ≡ b.chunks
  pub embeddings : a.embeddings ≡ b.embeddings
  pub present : (id : ℕ) → IsPresent id b → IsPresent id a

pub SameIndex-refl : (db : Database) → SameIndex db db
SameIndex-refl db = record { chunks = refl; embeddings = refl; present = λ id h. h }

pub SameIndex-set_version :
    (id : ℕ) (status : ProcessingStatus) (reason : Option Str) (a b : Database)
    → SameIndex a b
    → SameIndex (set_version id (with_status status reason) a) b
unfolding set_version
SameIndex-set_version id status reason a b h = record {
  chunks = h.chunks;
  embeddings = h.embeddings;
  present = λ i p.
      any_row-update_rows (λ v. v.id == i) _ (with_status status reason) a.document_versions
        (λ v q _. q) (h.present i p);
}

-- A session that has changed neither, and an action that changes neither if it raises.
pub record IsClean (db : Database) (s : Session) : Type 0 where
  pub working : SameIndex s.working db
  pub committed : SameIndex s.committed db

pub record FailsClean {A : Type 0} (db : Database) (m : Action A) : Type 0 where
  pub at :
      (s : Session) (f : Failure)
      → IsClean db s
      → (m s).0 ≡ raised f
      → SameIndex (m s).1.committed db

module _ (db : Database) (env : Env) (force : Bool) (version : DocumentVersion) where
  finish_ok :
      (created skipped : ℕ) (s : Session) (f : Failure)
      → ¬ ((finish env version created skipped [] s).0 ≡ raised f)
  unfolding finish execute commit pure ◌>>=◌
  finish_ok created skipped s f e = cc

  index_pending_clean :
      (pending : List Chunk) (skipped : ℕ) (s : Session) (f : Failure)
      → All (IsRow db) pending
      → SameIndex s.committed db
      → (index_pending env force version (pending, skipped) s).0 ≡ raised f
      → SameIndex (index_pending env force version (pending, skipped) s).1.committed db
  index_pending_clean pending skipped s f k h e =
      elim (index_pending_cases env force version (IsRow db) (IsRow-AreKeyed db) pending skipped s
        k) [
          | fails g _ r ↦
              let kept =
                (persist_batches-Durable s.committed env force version
                    (iter_batches env.limits pending)).at
                  s refl in
              rw r (rw kept h)
          | goes_on n _ _ r ↦ absurd (finish_ok n skipped _ f (rw r at e))
        ]

  index_chunks_clean :
      (cs : List Chunk) → All (IsRow db) cs → FailsClean db (index_chunks env force version cs)
  unfolding index_chunks execute commit fail throw ◌>>=◌
  index_chunks_clean [] k = record {
    at = λ s f h e.
        SameIndex-set_version version.id ProcessingStatus.failed _ s.working db h.working;
  }
  index_chunks_clean (c ∷ cs) k = record {
    at = λ s f h e.
        let chosen = select_pending-Selects env force (c ∷ cs) s in
        let pending = pending_of env force (c ∷ cs) s.working in
        let after = (select_pending env force (c ∷ cs) s).1 in
        let kept = (select_pending-Durable s.committed env force (c ∷ cs)).at s refl in
        rw chosen.result (
          index_pending_clean pending chosen.skipped after f
            (All-pending_of (IsRow db) env force (c ∷ cs) s.working k) (rw kept h.committed)
            (rw chosen.result at e));
  }

  index_version_clean : HasKeys db → FailsClean db (index_version env force version)
  unfolding index_version already_indexed start_indexing fail throw query execute pure ◌>>=◌
  index_version_clean keys = record {
    at = λ s f h e. elim (Bool-cases (is_indexed version.processing_status && not force)) [
      | inl done ↦ rw done h.committed
      | inr go ↦ elim (Bool-cases (is_indexable version.processing_status)) [
        | inr refused ↦ rw (go, refused) h.committed
        | inl fit ↦
            let opened = record s {
              working =
                  set_version version.id (with_status ProcessingStatus.indexing none) s.working;
            } in
            let opened_same =
              SameIndex-set_version version.id ProcessingStatus.indexing none s.working db
                h.working in
            let listed =
              All-list_for_version (IsRow db) version.id opened.working
                (rw opened_same.chunks keys) in
            rw (go, fit)
              ((index_chunks_clean (list_for_version version.id opened.working) listed).at opened f
                (record {
                  working =
                      SameIndex-set_version version.id ProcessingStatus.indexing none s.working db
                        h.working;
                  committed = h.committed;
                })
                (rw (go, fit) at e))
      ]
    ];
  }

index_found_clean :
    (db : Database) (env : Env) (force : Bool) (id : ℕ) (found : Option DocumentVersion)
    → HasKeys db
    → FailsClean db (index_found env force id found)
unfolding index_found missing_version fail throw
index_found_clean db env force id none keys = record { at = λ s f h e. h.committed }
index_found_clean db env force id (some v) keys = index_version_clean db env force v keys

-- An attempt that raises leaves the durable chunks and embeddings as they were.
pub index_once_clean :
    (env : Env) (force : Bool) (id : ℕ) (w : World) (f : Failure)
    → HasKeys w.db
    → (in_session (index_once env force id) w).0 ≡ raised f
    → SameIndex (in_session (index_once env force id) w).1.db w.db
unfolding in_session index_once query ◌>>=◌
index_once_clean env force id w f keys e =
    let same = SameIndex-refl w.db in
    (index_found_clean w.db env force id (get_version id w.db) keys).at _ f
      (record { working = same; committed = same }) e
