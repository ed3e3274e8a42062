-- ===== src/Indexing/Completion/Retries.antt =====
-- indexing/service.py: `_run_with_retries`, when it raises.
use rag_enterprise.Prelude.{
  ℕ, zero, suc, ◌≡◌, refl, sym, subst, ◌∙◌, Bool, Option, none, some, ◌==◌, ==_iff, Bool-cases, inl,
  inr, scalar, update_rows, scalar-test, scalar-any_row, scalar-update_same,
}
use rag_enterprise.Knowledge.Enums.{ProcessingStatus}
use rag_enterprise.Knowledge.Models.{Database, DocumentVersion}
use rag_enterprise.Indexing.Models.{IndexingResult}
use rag_enterprise.Indexing.Session.{
  World, Outcome, ok, raised, Failure, IndexingError, indexing_error, other_error, FailureCode,
  unknown_error, code_text, pure, query, execute, commit, ◌>>=◌, in_session,
}
use rag_enterprise.Indexing.Repositories.Versions.{get_version, set_version}
use rag_enterprise.Indexing.Service.{Env}
use rag_enterprise.Indexing.Service.Attempts.{
  as_failed, index_once, record_failure, mark_failed, give_up, is_fatal, after_last, after_early,
  attempt, run_with_retries,
}
use rag_enterprise.Indexing.Completion.Failing.{
  HasKeys, IsPresent, SameIndex, SameIndex-refl, SameIndex-set_version, index_once_clean,
}

-- What a raised failure leaves: the index of the time before, and the code in the row of the version.
pub record IsRecorded (id : ℕ) (e : IndexingError) (db : Database) : Type 0 where
  pub version : DocumentVersion
  pub found : get_version id db ≡ some version
  pub status : version.processing_status ≡ ProcessingStatus.failed
  pub reason : version.failure_reason ≡ some (code_text e.code)

pub record IsFailed (id : ℕ) (before : Database) (r : Outcome IndexingResult) (after : Database)
    : Type 0 where
  pub index : SameIndex after before
  pub error : IndexingError
  pub raises : r ≡ raised (indexing_error error)
  pub recorded : IsPresent id before → IsRecorded id error after

mark_failed_index :
    (id : ℕ) (code : FailureCode) (w : World)
    → SameIndex (in_session (mark_failed id code) w).1.db w.db
unfolding in_session mark_failed query pure record_failure execute commit ◌>>=◌
mark_failed_index id code w = go (get_version id w.db)
  where
    go :
        (found : Option DocumentVersion)
        → SameIndex (in_session (record_failure code found) w).1.db w.db
    go none = SameIndex-refl w.db
    go (some v) =
        SameIndex-set_version v.id ProcessingStatus.failed _ w.db w.db (SameIndex-refl w.db)

pub set_version_found :
    (id : ℕ) (f : DocumentVersion → DocumentVersion) (db : Database) (v : DocumentVersion)
    → ((u : DocumentVersion) → (f u).id ≡ u.id)
    → get_version id db ≡ some v
    → get_version id (set_version v.id f db) ≡ some (f v)
unfolding get_version set_version
set_version_found id f db v k e =
    let own : v.id ≡ id =
      (==_iff v.id id).0 (scalar-test (λ u. u.id == id) db.document_versions v e) in
    subst
      (λ i.
        scalar (λ u. u.id == id) (update_rows (λ u. u.id == i) f db.document_versions) ≡ some (f v))
      (sym own)
      (scalar-update_same (λ u. u.id == id) f db.document_versions v (λ u h. rw (k u) h) e)

mark_failed-IsRecorded :
    (id : ℕ) (e : IndexingError) (w : World)
    → IsPresent id w.db
    → IsRecorded id e (in_session (mark_failed id e.code) w).1.db
unfolding in_session mark_failed record_failure query execute commit ◌>>=◌ get_version scalar
mark_failed-IsRecorded id e w p =
    let (v, found) = scalar-any_row (λ u. u.id == id) w.db.document_versions p in
    let here : get_version id w.db ≡ some v = found in
    rw here (record {
      version = as_failed e.code v;
      found = set_version_found id (as_failed e.code) w.db v (λ u. refl) here;
      status = refl;
      reason = refl;
    })

SameIndex-trans : (a b c : Database) → SameIndex a b → SameIndex b c → SameIndex a c
SameIndex-trans a b c h k = record {
  chunks = h.chunks ∙ k.chunks;
  embeddings = h.embeddings ∙ k.embeddings;
  present = λ id p. h.present id (k.present id p);
}

give_up-IsFailed :
    (id : ℕ) (e : IndexingError) (before : Database) (w : World)
    → SameIndex w.db before
    → IsFailed id before (raised (indexing_error e)) (give_up id e.code (indexing_error e) w).1.db
unfolding give_up
give_up-IsFailed id e before w h = record {
  index = SameIndex-trans _ w.db before (mark_failed_index id e.code w) h;
  error = e;
  raises = refl;
  recorded = λ p. mark_failed-IsRecorded id e w (h.present id p);
}

-- A result that is an exception leaves the index as it was before.
abbrev RaisesClean : Database → Outcome IndexingResult → World → Type 0
RaisesClean before r w = (f : Failure) → r ≡ raised f → SameIndex w.db before

module _ (id : ℕ) (before : Database) where
  after_last-IsFailed :
      (r : Outcome IndexingResult) (w : World) (f : Failure)
      → RaisesClean before r w
      → (after_last id r w).0 ≡ raised f
      → IsFailed id before (after_last id r w).0 (after_last id r w).1.db
  unfolding after_last give_up
  after_last-IsFailed (ok a) w f h e = cc
  after_last-IsFailed (raised (indexing_error x)) w f h e =
      give_up-IsFailed id x before w (h _ refl)
  after_last-IsFailed (raised (other_error m)) w f h e =
      give_up-IsFailed id (record { code = unknown_error; message = m }) before w (h _ refl)

  after_early-IsFailed :
      (again : World → Outcome IndexingResult × World) (r : Outcome IndexingResult) (w : World)
      (f : Failure)
      → RaisesClean before r w
      → ((w' : World)
          → SameIndex w'.db before
          → (again w').0 ≡ raised f
          → IsFailed id before (again w').0 (again w').1.db)
      → (after_early id again r w).0 ≡ raised f
      → IsFailed id before (after_early id again r w).0 (after_early id again r w).1.db
  unfolding after_early give_up
  after_early-IsFailed again (ok a) w f h k e = cc
  after_early-IsFailed again (raised (indexing_error x)) w f h k e =
      elim (Bool-cases (is_fatal x.code)) [
        | inl fatal ↦ rw fatal (give_up-IsFailed id x before w (h _ refl))
        | inr other ↦ rw other (k w (h _ refl) (rw other at e))
      ]
  after_early-IsFailed again (raised (other_error m)) w f h k e = k w (h _ refl) e

once_clean :
    (env : Env) (force : Bool) (id : ℕ) (before : Database) (w : World)
    → HasKeys before
    → SameIndex w.db before
    → RaisesClean before
        (in_session (index_once env force id) w).0
        (in_session (index_once env force id) w).1
once_clean env force id before w keys h f e =
    SameIndex-trans _ w.db before (index_once_clean env force id w f (rw h.chunks keys) e) h

attempt-IsFailed :
    (more : ℕ) (env : Env) (force : Bool) (id : ℕ) (before : Database) (w : World) (f : Failure)
    → HasKeys before
    → SameIndex w.db before
    → (attempt more env force id w).0 ≡ raised f
    → IsFailed id before (attempt more env force id w).0 (attempt more env force id w).1.db
unfolding attempt
attempt-IsFailed zero env force id before w f keys h e =
    after_last-IsFailed id before _ _ f (once_clean env force id before w keys h) e
attempt-IsFailed (suc more) env force id before w f keys h e =
    after_early-IsFailed id before (attempt more env force id) _ _ f
      (once_clean env force id before w keys h)
      (λ w' h' e'. attempt-IsFailed more env force id before w' f keys h' e') e

-- An indexing that raises, after all its attempts, leaves the chunks and the embeddings as they were
-- before the first, and the code of its error in the row of the version, if there is one and the
-- identifiers of chunks are keys.
pub run_with_retries-IsFailed :
    (env : Env) (force : Bool) (id : ℕ) (w : World) (f : Failure)
    → HasKeys w.db
    → (run_with_retries env force id w).0 ≡ raised f
    → IsFailed id w.db (run_with_retries env force id w).0 (run_with_retries env force id w).1.db
unfolding run_with_retries
run_with_retries-IsFailed env force id w f keys e =
    attempt-IsFailed env.retry_delays env force id w.db w f keys (SameIndex-refl w.db) e
