-- ===== src/Knowledge/Session.antt =====
-- db/unit_of_work/sqlalchemy.py: a unit of work. Statements act on the session's view of the database;
-- `commit` makes that view durable; leaving the block closes the session, which drops the rest.
-- The file store (infrastructure/storage.py) is outside the transaction.
use rag_enterprise.Prelude.{ℕ, Option, none, some, Bool, true, false, List, if◌then◌else◌}
use rag_enterprise.Knowledge.Models.{Database, StorageKey}
use rag_enterprise.Knowledge.Storage.{same_key}
use rag_enterprise.Knowledge.Errors.{ApplicationError, key_error, Outcome, ok, fail, raised}

-- InMemoryFileStorage: the last object put under a key is the one that is read.
abbrev pub Files : Type 0
Files = StorageKey → Option (List ℕ)

pub record World : Type 0 where
  pub db : Database
  pub files : Files

pub record Session : Type 0 where
  pub working : Database
  pub committed : Database
  pub files : Files

abbrev pub Tx : Type 0 → Type 0
Tx A = Session → Outcome A × Session

module _ {A : Type 0} where
  unfoldable pub pure : A → Tx A
  pure a s = (ok a, s)

  -- `return Result.fail(error)`
  unfoldable pub abort : ApplicationError → Tx A
  abort e s = (fail e, s)

  unfoldable pub query : (Database → A) → Tx A
  query f s = (ok (f s.working), s)

  -- `if x is None: return Result.fail(error)`
  unfoldable pub required : ApplicationError → Option A → Tx A
  required e none s = (fail e, s)
  required e (some a) s = (ok a, s)

unfoldable pub execute : (Database → Database) → Tx Unit
execute f s = (ok tt, record s { working = f s.working })

-- `if test: return Result.fail(error)`
unfoldable pub reject_if : Bool → ApplicationError → Tx Unit
reject_if true e s = (fail e, s)
reject_if false e s = (ok tt, s)

unfoldable pub commit : Tx Unit
commit s = (ok tt, record s { committed = s.working })

-- `self._objects[key] = obj`
unfoldable pub put_file : StorageKey → List ℕ → Tx Unit
put_file key content s =
    (ok tt, record s { files = λ k. if same_key k key then some content else s.files k })

-- `self._objects.pop(key, None)`
unfoldable pub delete_file : StorageKey → Files → Files
delete_file key files = λ k. if same_key k key then none else files k

-- `self._objects[key].data`
unfoldable pub get_file : StorageKey → Tx (List ℕ)
get_file key s = elim (s.files key) [ none ↦ (raised key_error, s) | some c ↦ (ok c, s) ]

module _ {A B : Type 0} where
  abbrev pub continue : Outcome A → (A → Tx B) → Tx B
  continue (ok a) f s = f a s
  continue (fail e) f s = (fail e, s)
  continue (raised x) f s = (raised x, s)

  infixl 5 ◌>>=◌ ◌>>◌
  unfoldable pub ◌>>=◌ : Tx A → (A → Tx B) → Tx B
  unfolding pure abort query required execute reject_if commit put_file get_file
  ◌>>=◌ m f s = let (r, s') = m s in continue r f s'

  abbrev pub ◌>>◌ : Tx A → Tx B → Tx B
  m >> n = m >>= λ _. n

-- `async with KnowledgeUnitOfWork(...) as uow: body`
unfoldable pub unit_of_work : {A : Type 0} → Tx A → World → Outcome A × World
unit_of_work body w =
    let (r, s) = body (record { working = w.db; committed = w.db; files = w.files }) in
    (r, record { db = s.committed; files = s.files })
