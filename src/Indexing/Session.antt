-- ===== src/Indexing/Session.antt =====
-- indexing/exceptions.py, and the sessions of the indexing service: a statement acts on the session's
-- view of the database, `commit` makes that view durable, and a session that is left by an exception
-- drops the rest. The calls of the embedding provider are counted, since its answers may vary.
use rag_enterprise.Prelude.{ℕ}
use rag_enterprise.Prelude.Text.{Str, codes}
use rag_enterprise.Knowledge.Models.{Database}

pub data FailureCode : Type 0 where
  unknown_error empty_chunk_list model_unavailable embedding_timeout dimension_mismatch
        partial_embedding_failure storage_write_error :
      FailureCode

-- The strings of the codes.
abbrev pub code_text : FailureCode → Str
code_text unknown_error = codes "unknown_error"
code_text empty_chunk_list = codes "empty_chunk_list"
code_text model_unavailable = codes "model_unavailable"
code_text embedding_timeout = codes "embedding_timeout"
code_text dimension_mismatch = codes "dimension_mismatch"
code_text partial_embedding_failure = codes "partial_embedding_failure"
code_text storage_write_error = codes "storage_write_error"

pub record IndexingError : Type 0 where
  pub code : FailureCode
  pub message : Str

-- An exception: one of the service's own, or another with its message.
pub data Failure : Type 0 where
  indexing_error : IndexingError → Failure
  other_error : Str → Failure

pub data Outcome (A : Type 0) : Type 0 where
  ok : A → Outcome A
  raised : Failure → Outcome A

pub record Session : Type 0 where
  pub working : Database
  pub committed : Database
  pub calls : ℕ

-- What outlives a session.
pub record World : Type 0 where
  pub db : Database
  pub calls : ℕ

abbrev pub Action : Type 0 → Type 0
Action A = Session → Outcome A × Session

module _ {A : Type 0} where
  unfoldable pub pure : A → Action A
  pure a s = (ok a, s)

  unfoldable pub throw : Failure → Action A
  throw f s = (raised f, s)

  unfoldable pub query : (Database → A) → Action A
  query f s = (ok (f s.working), s)

  abbrev pub handle_failure : (Failure → Action A) → Outcome A → Session → Outcome A × Session
  handle_failure h (ok a) s = (ok a, s)
  handle_failure h (raised f) s = h f s

  -- `try: m except Exception as f: h`
  unfoldable pub try_except : Action A → (Failure → Action A) → Action A
  try_except m h s = let (r, s') = m s in handle_failure h r s'

-- `raise IndexingError(code, message)`
unfoldable pub fail : {A : Type 0} → FailureCode → Str → Action A
unfolding throw
fail code message = throw (indexing_error (record { code = code; message = message }))

unfoldable pub execute : (Database → Database) → Action Unit
execute f s = (ok tt, record s { working = f s.working })

unfoldable pub commit : Action Unit
commit s = (ok tt, record s { committed = s.working })

module _ {A B : Type 0} where
  abbrev pub continue : Outcome A → (A → Action B) → Action B
  continue (ok a) f s = f a s
  continue (raised e) f s = (raised e, s)

  infixl 5 ◌>>=◌ ◌>>◌
  unfoldable pub ◌>>=◌ : Action A → (A → Action B) → Action B
  ◌>>=◌ m f s = let (r, s') = m s in continue r f s'

  abbrev pub ◌>>◌ : Action A → Action B → Action B
  m >> n = m >>= λ _. n

-- `async with self._session_factory() as session: body`
unfoldable pub in_session : {A : Type 0} → Action A → World → Outcome A × World
in_session body w =
    let (r, s) = body (record { working = w.db; committed = w.db; calls = w.calls }) in
    (r, record { db = s.committed; calls = s.calls })
