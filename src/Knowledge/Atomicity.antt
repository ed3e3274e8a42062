-- ===== src/Knowledge/Atomicity.antt =====
-- What a unit of work leaves behind when its handler fails.
pub mod Steps
pub mod Commands
use rag_enterprise.Prelude.{
  String, ◌≡◌, refl, ◌∙◌, Bool, true, false, not, ◌⊎◌, inl, inr, Option, none, some, ℕ, List, arith,
  if◌then◌else◌,
}
use rag_enterprise.Knowledge.Models.{Database, StorageKey}
use rag_enterprise.Knowledge.Errors.{ApplicationError, Outcome, ok, fail, raised, conflict}
use rag_enterprise.Knowledge.Session.{
  World, Session, Tx, pure, abort, query, required, execute, reject_if, commit, put_file, get_file,
  continue, unit_of_work, ◌>>=◌, ◌>>◌,
}

-- The result is a failure, or an exception.
abbrev pub Failed : {A : Type 0} → Outcome A → Type 0
Failed (ok a) = ⊥
Failed _ = Unit

abbrev pub expired_error : ApplicationError
expired_error = conflict "Upload session expired"

-- `m` leaves the committed database alone.
pub record Quiet {A : Type 0} (m : Tx A) : Type 0 where
  pub at : (s : Session) → (m s).1.committed ≡ s.committed

-- `m` has committed nothing where it fails, unless it fails because an upload has expired.
pub record Atomic {A : Type 0} (m : Tx A) : Type 0 where
  pub at :
      (s : Session)
      → Failed (m s).0
      → ((m s).1.committed ≡ s.committed) ⊎ ((m s).0 ≡ fail expired_error)

module _ {A : Type 0} where
  pub Quiet-pure : (a : A) → Quiet (pure a)
  unfolding pure
  Quiet-pure a = record { at = λ s. refl }

  pub Quiet-abort : (e : ApplicationError) → Quiet (abort {A = A} e)
  unfolding abort
  Quiet-abort e = record { at = λ s. refl }

  pub Quiet-query : (f : Database → A) → Quiet (query f)
  unfolding query
  Quiet-query f = record { at = λ s. refl }

  pub Quiet-required : (e : ApplicationError) (o : Option A) → Quiet (required e o)
  unfolding required
  Quiet-required e none = record { at = λ s. refl }
  Quiet-required e (some a) = record { at = λ s. refl }

pub Quiet-execute : (f : Database → Database) → Quiet (execute f)
unfolding execute
Quiet-execute f = record { at = λ s. refl }

pub Quiet-reject_if : (b : Bool) (e : ApplicationError) → Quiet (reject_if b e)
unfolding reject_if
Quiet-reject_if true e = record { at = λ s. refl }
Quiet-reject_if false e = record { at = λ s. refl }

pub Quiet-put_file : (k : StorageKey) (content : List ℕ) → Quiet (put_file k content)
unfolding put_file
Quiet-put_file k content = record { at = λ s. refl }

pub Quiet-get_file : (k : StorageKey) → Quiet (get_file k)
unfolding get_file
Quiet-get_file k = record { at = λ s. ground arith }

module _ {A B : Type 0} where
  pub Quiet-continue :
      (r : Outcome A) (f : A → Tx B) (s : Session)
      → ((a : A) → Quiet (f a))
      → (continue r f s).1.committed ≡ s.committed
  Quiet-continue (ok a) f s q = (q a).at s
  Quiet-continue (fail e) f s q = refl
  Quiet-continue (raised x) f s q = refl

  pub Quiet-bind : (m : Tx A) (f : A → Tx B) → Quiet m → ((a : A) → Quiet (f a)) → Quiet (m >>= f)
  unfolding ◌>>=◌
  Quiet-bind m f qm qf = record {
    at = λ s. let (r, s') = m s in Quiet-continue r f s' qf ∙ qm.at s;
  }

  -- The errors of `m` are errors of the block; what follows starts from what `m` has left.
  pub Atomic-continue :
      (r : Outcome A) (f : A → Tx B) (s t : Session)
      → s.committed ≡ t.committed
      → ((a : A) → Atomic (f a))
      → Failed (continue r f s).0
      → ((continue r f s).1.committed ≡ t.committed) ⊎ ((continue r f s).0 ≡ fail expired_error)
  Atomic-continue (ok a) f s t q h failed = elim ((h a).at s failed) [
    | inl same ↦ inl (same ∙ q)
    | inr expired ↦ inr expired
  ]
  Atomic-continue (fail e) f s t q h failed = inl q
  Atomic-continue (raised x) f s t q h failed = inl q

  pub Atomic-bind :
      (m : Tx A) (f : A → Tx B) → Quiet m → ((a : A) → Atomic (f a)) → Atomic (m >>= f)
  unfolding ◌>>=◌
  Atomic-bind m f qm af = record {
    at = λ s. let (r, s') = m s in Atomic-continue r f s' s (qm.at s) af;
  }

module _ {A : Type 0} where
  pub Atomic-pure : (a : A) → Atomic (pure a)
  unfolding pure
  Atomic-pure a = record { at = λ s failed. absurd failed }

  -- Behind a commit nothing can fail.
  pub Atomic-commit : (a : A) → Atomic (commit >> pure a)
  unfolding ◌>>=◌
  Atomic-commit a = record { at = λ s failed. absurd failed }

  pub Atomic-expired : Atomic (commit >> abort {A = A} expired_error)
  unfolding ◌>>=◌
  Atomic-expired = record { at = λ s failed. inr refl }

  pub Quiet-if : (b : Bool) (m n : Tx A) → Quiet m → Quiet n → Quiet (if b then m else n)
  Quiet-if true m n qm qn = qm
  Quiet-if false m n qm qn = qn

  pub Atomic-if : (b : Bool) (m n : Tx A) → Atomic m → Atomic n → Atomic (if b then m else n)
  Atomic-if true m n am an = am
  Atomic-if false m n am an = an

pub ruleset quiet_rules = (
  Quiet-pure, Quiet-abort, Quiet-query, Quiet-required, Quiet-execute, Quiet-reject_if,
  Quiet-put_file, Quiet-get_file, Quiet-bind, Quiet-if,
)

pub ruleset atomic_rules =
    (quiet_rules, Atomic-bind, Atomic-commit, Atomic-expired, Atomic-if, Atomic-pure)
