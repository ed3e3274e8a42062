-- ===== src/Knowledge/LegalHold.antt =====
-- Documents under legal hold: a document that keeps its row, and its hold, while steps run.
pub mod Steps
pub mod Handlers
pub mod Documents
pub mod Deletions
pub mod Commands
use rag_enterprise.Prelude.{
  ℕ, List, ◌≡◌, refl, Bool, true, false, not, ◌&&◌, ◌||◌, Option, none, some, arith, ◌==◌, any_row,
  all_rows, all_rows-any_row, if◌then◌else◌, Bool-cases,
}
use rag_enterprise.Knowledge.Models.{Document, Database, StorageKey}
use rag_enterprise.Knowledge.Errors.{ApplicationError, Outcome, ok, fail, raised}
use rag_enterprise.Knowledge.Session.{
  Session, Tx, pure, abort, query, required, execute, reject_if, commit, put_file, get_file,
  continue, ◌>>=◌, ◌>>◌,
}

-- A row with the identifier is on hold, and passes `r`.
abbrev pub fine : ℕ → (Document → Bool) → Document → Bool
fine id r d = not (d.id == id) || (d.legal_hold && r d)

abbrev pub anything : Document → Bool
anything d = true

-- The document exists, and each row with its identifier is on hold and passes `r`.
pub record OnHold (id : ℕ) (r : Document → Bool) (db : Database) : Type 0 where
  pub held : all_rows (fine id r) db.documents ≡ true
  pub present : any_row (λ d. d.id == id) db.documents ≡ true

pub record Holds (id : ℕ) (r : Document → Bool) (s : Session) : Type 0 where
  pub working : OnHold id r s.working
  pub committed : OnHold id anything s.committed

-- `m` keeps the hold, whether it returns or fails.
pub record Keeps {A : Type 0} (id : ℕ) (r : Document → Bool) (m : Tx A) : Type 0 where
  pub at : (s : Session) → Holds id r s → Holds id r (m s).1

all_rows-weaken :
    (id : ℕ) (r : Document → Bool) (docs : List Document)
    → all_rows (fine id r) docs ≡ true
    → all_rows (fine id anything) docs ≡ true
unfolding all_rows
all_rows-weaken id r List.[] h = refl
all_rows-weaken id r (List.◌∷◌ d ds) h = ground (arith, all_rows-weaken id r ds)

pub OnHold-weaken :
    (id : ℕ) (r : Document → Bool) (db : Database) → OnHold id r db → OnHold id anything db
OnHold-weaken id r db h = record {
  held = all_rows-weaken id r db.documents h.held;
  present = h.present;
}

module _ (id : ℕ) (r : Document → Bool) {A : Type 0} where
  pub Keeps-pure : (a : A) → Keeps id r (pure a)
  unfolding pure
  Keeps-pure a = record { at = λ s h. h }

  pub Keeps-abort : (e : ApplicationError) → Keeps id r (abort {A = A} e)
  unfolding abort
  Keeps-abort e = record { at = λ s h. h }

  pub Keeps-query : (f : Database → A) → Keeps id r (query f)
  unfolding query
  Keeps-query f = record { at = λ s h. h }

  pub Keeps-required : (e : ApplicationError) (o : Option A) → Keeps id r (required e o)
  unfolding required
  Keeps-required e none = record { at = λ s h. h }
  Keeps-required e (some a) = record { at = λ s h. h }

  pub Keeps-if :
      (b : Bool) (m n : Tx A) → Keeps id r m → Keeps id r n → Keeps id r (if b then m else n)
  Keeps-if true m n km kn = km
  Keeps-if false m n km kn = kn

module _ (id : ℕ) (r : Document → Bool) where
  pub Keeps-reject_if : (b : Bool) (e : ApplicationError) → Keeps id r (reject_if b e)
  unfolding reject_if
  Keeps-reject_if true e = record { at = λ s h. h }
  Keeps-reject_if false e = record { at = λ s h. h }

  pub Keeps-put_file : (k : StorageKey) (c : List ℕ) → Keeps id r (put_file k c)
  unfolding put_file
  Keeps-put_file k c = record {
    at = λ s h. record { working = h.working; committed = h.committed };
  }

  get_file_session : (k : StorageKey) (s : Session) → (get_file k s).1 ≡ s
  unfolding get_file
  get_file_session k s = ground arith

  pub Keeps-get_file : (k : StorageKey) → Keeps id r (get_file k)
  Keeps-get_file k = record { at = λ s h. rw (get_file_session k s) h }

  pub Keeps-commit : Keeps id r commit
  unfolding commit
  Keeps-commit = record {
    at = λ s h. record { working = h.working; committed = OnHold-weaken id r s.working h.working };
  }

  pub Keeps-execute :
      (f : Database → Database)
      → ((db : Database) → OnHold id r db → OnHold id r (f db))
      → Keeps id r (execute f)
  unfolding execute
  Keeps-execute f k = record {
    at = λ s h. record { working = k s.working h.working; committed = h.committed };
  }

module _ (id : ℕ) (r : Document → Bool) {A B : Type 0} where
  Keeps-continue :
      (o : Outcome A) (f : A → Tx B) (s : Session)
      → ((a : A) → Keeps id r (f a))
      → Holds id r s
      → Holds id r (continue o f s).1
  Keeps-continue (ok a) f s k h = (k a).at s h
  Keeps-continue (fail e) f s k h = h
  Keeps-continue (raised x) f s k h = h

  pub Keeps-bind :
      (m : Tx A) (f : A → Tx B) → Keeps id r m → ((a : A) → Keeps id r (f a)) → Keeps id r (m >>= f)
  unfolding ◌>>=◌
  Keeps-bind m f km kf = record {
    at = λ s h. let (o, s') = m s in Keeps-continue o f s' kf (km.at s h);
  }

  -- The rest may use what all rows of the session's documents have in common.
  pub Keeps-bind-query :
      (q : Database → A) (f : A → Tx B)
      → ((db : Database) → OnHold id r db → Keeps id r (f (q db)))
      → Keeps id r (query q >>= f)
  unfolding ◌>>=◌
  Keeps-bind-query q f k = record { at = λ s h. (k s.working h.working).at s h }

  pub Keeps-bind-required :
      (e : ApplicationError) (o : Option A) (f : A → Tx B)
      → ((a : A) → o ≡ some a → Keeps id r (f a))
      → Keeps id r (required e o >>= f)
  unfolding ◌>>=◌
  Keeps-bind-required e none f k = record { at = λ s h. h }
  Keeps-bind-required e (some a) f k = record { at = (k a refl).at }

module _ (id : ℕ) (r : Document → Bool) {B : Type 0} where
  pub Keeps-guarded :
      (b : Bool) (e : ApplicationError) (n : Tx B)
      → (b ≡ false → Keeps id r n)
      → Keeps id r (reject_if b e >> n)
  unfolding ◌>>=◌
  Keeps-guarded true e n k = record { at = λ s h. h }
  Keeps-guarded false e n k = record { at = (k refl).at }

pub ruleset keeps_rules = (
  Keeps-pure, Keeps-abort, Keeps-query, Keeps-required, Keeps-if, Keeps-reject_if, Keeps-put_file,
  Keeps-get_file, Keeps-commit, Keeps-execute, Keeps-bind,
)
