-- ===== src/Indexing/Completion.antt =====
-- indexing/service.py: what `_index_once` leaves when it returns, and when it raises.
pub mod Failing
pub mod Indexed
pub mod Live
pub mod Retries
use rag_enterprise.Prelude.{
  ℕ, ◌≡◌, refl, sym, ap, ◌∙◌, Bool, true, false, not, ◌&&◌, ◌||◌, ◌⊎◌, inl, inr, Option, none, some,
  List, [], ◌∷◌, ◌==◌, arith, All, Bool-cases, is_none, is_in, map, scalar, any_row, all_rows,
  rows_where, update_rows, if◌then◌else◌,
}
use rag_enterprise.Knowledge.Models.{Database, DocumentVersion}
use rag_enterprise.Indexing.Models.{Chunk, Embedding, IndexingResult}
use rag_enterprise.Indexing.Session.{Session, Outcome, ok, raised, Failure, query, ◌>>=◌, continue}
use rag_enterprise.Indexing.Batches.{iter_batches, iter_batches-concat, concat}
use rag_enterprise.Indexing.Repositories.Embeddings.{is_active_match, find_active_match}
use rag_enterprise.Indexing.Service.{Env, active_match, persist_batches}
use rag_enterprise.Indexing.Service.Attempts.{unmatched, finish, index_pending}
use rag_enterprise.Indexing.Coverage.{IsHeld, holds}
use rag_enterprise.Indexing.Coverage.Ensuring.{Ensures, AreKeyed, All-map, persist_batches-Held}

scalar_some :
    {A : Type 0} (p q : A → Bool) (xs : List A)
    → any_row (λ x. p x && q x) xs ≡ true
    → is_none (scalar p xs) ≡ false
unfolding any_row scalar
scalar_some p q [] h = cc
scalar_some p q (x ∷ xs) h = ground (arith, scalar_some p q xs)

unmatched_none :
    (env : Env) (version : DocumentVersion) (cs : List Chunk) (db : Database)
    → All (λ c. IsHeld env version c db) cs
    → unmatched env cs db ≡ []
unfolding unmatched rows_where active_match find_active_match
unmatched_none env version [] db h = refl
unmatched_none env version (c ∷ cs) db h =
    rw
      (
        scalar_some (is_active_match c.id env.embedding_model_id c.content_hash)
            (λ e. e.document_version_id == version.id) db.embeddings h.0.found,
        unmatched_none env version cs db h.1,
      )
      refl

-- A failure of a batch is the failure of the attempt; otherwise no chunk is left, and the attempt goes
-- on from the session after the batches.
pub data Persisted (env : Env) (force : Bool) (version : DocumentVersion) (pending : List Chunk)
    (skipped : ℕ) (s : Session) : Type 0 where
  fails :
      (f : Failure)
      → (persist_batches env force version (iter_batches env.limits pending) s).0 ≡ raised f
      → index_pending env force version (pending, skipped) s
        ≡ (raised f, (persist_batches env force version (iter_batches env.limits pending) s).1)
      → Persisted env force version pending skipped s
  goes_on :
      (created : ℕ)
      → (persist_batches env force version (iter_batches env.limits pending) s).0 ≡ ok created
      → All
          (λ c.
            IsHeld env version c
              (persist_batches env force version (iter_batches env.limits pending) s).1.working)
          pending
      → index_pending env force version (pending, skipped) s
        ≡ finish env version created skipped []
            (persist_batches env force version (iter_batches env.limits pending) s).1
      → Persisted env force version pending skipped s

pub index_pending_cases :
    (env : Env) (force : Bool) (version : DocumentVersion) (K : Chunk → Type 0)
    → AreKeyed K
    → (pending : List Chunk) (skipped : ℕ) (s : Session) → All K pending
    → Persisted env force version pending skipped s
unfolding index_pending query ◌>>=◌
index_pending_cases env force version K keyed pending skipped s k =
    go (persist_batches env force version bs s).0 refl
  where
    bs : List (List Chunk)
    bs = iter_batches env.limits pending

    held :
        (n : ℕ)
        → (persist_batches env force version bs s).0 ≡ ok n
        → All (λ c. IsHeld env version c (persist_batches env force version bs s).1.working) pending
    held n e =
        let whole = iter_batches-concat env.limits pending in
        rw whole at (
          All-map _ _ (λ c h. h.at s n e) (concat bs)
            (persist_batches-Held env force version K keyed bs (rw whole k)))

    go :
        (r : Outcome ℕ)
        → (persist_batches env force version bs s).0 ≡ r
        → Persisted env force version pending skipped s
    go (raised f) e = fails f e (rw e refl)
    go (ok n) e =
        goes_on n e (held n e) (rw (e, unmatched_none env version pending _ (held n e)) refl)
