-- ===== src/Knowledge/VersionNumbers.antt =====
-- UploadDocumentVersionHandler and the deletions: the order of the version numbers of a document.
pub mod Statements
pub mod Steps
pub mod Commands
use rag_enterprise.Prelude.{
  ℕ, ◌+◌, ◌≤◌, ◌<◌, ◌≡◌, refl, Bool, true, false, not, ◌&&◌, ◌||◌, Option, none, some, List, [],
  ◌∷◌, ◌++◌, arith, max, ◌==◌, ltb, rows_where, delete_rows, all_rows, all_rows-append,
  all_rows-delete_rows, if◌then◌else◌,
}
use rag_enterprise.Knowledge.Models.{Database, DocumentVersion, StorageKey}
use rag_enterprise.Knowledge.Errors.{ApplicationError, Outcome, ok, fail, raised}
use rag_enterprise.Knowledge.Session.{
  Session, Tx, pure, abort, query, required, execute, reject_if, commit, put_file, get_file,
  continue, ◌>>=◌, ◌>>◌,
}
use rag_enterprise.Knowledge.Repositories.Versions.{max_number}

-- `x` belongs to another document than `v`, or has a greater number.
abbrev pub later : DocumentVersion → DocumentVersion → Bool
later v x = not (x.document_id == v.document_id) || ltb v.version_number x.version_number

-- Each version is later than those before it.
unfoldable pub rising : List DocumentVersion → Bool
rising [] = true
rising (v ∷ vs) = all_rows (later v) vs && rising vs

abbrev pub IsRising : Database → Type 0
IsRising db = rising db.document_versions ≡ true

pub rising-delete_rows :
    (q : DocumentVersion → Bool) (vs : List DocumentVersion)
    → rising vs ≡ true
    → rising (delete_rows q vs) ≡ true
unfolding rising delete_rows rows_where
rising-delete_rows q [] h = refl
rising-delete_rows q (v ∷ vs) h =
    ground (arith, all_rows-delete_rows (later v) q vs, rising-delete_rows q vs)

-- A number above those of the document.
pub rising-append :
    (vs : List DocumentVersion) (new : DocumentVersion)
    → max_number (rows_where (λ v. v.document_id == new.document_id) vs) < new.version_number
    → rising vs ≡ true
    → rising (vs ++ new ∷ []) ≡ true
unfolding rising max_number rows_where all_rows
rising-append [] new g h = refl
rising-append (v ∷ vs) new g h =
    ground (arith, all_rows-append (later v) vs new, rising-append vs new)

-- The session's database and the committed one have rising numbers.
pub record Numbered (s : Session) : Type 0 where
  pub working : IsRising s.working
  pub committed : IsRising s.committed

pub record KeepsNumbers {A : Type 0} (m : Tx A) : Type 0 where
  pub at : (s : Session) → Numbered s → Numbered (m s).1

module _ {A : Type 0} where
  pub KeepsNumbers-pure : (a : A) → KeepsNumbers (pure a)
  unfolding pure
  KeepsNumbers-pure a = record { at = λ s h. h }

  pub KeepsNumbers-abort : (e : ApplicationError) → KeepsNumbers (abort {A = A} e)
  unfolding abort
  KeepsNumbers-abort e = record { at = λ s h. h }

  pub KeepsNumbers-query : (f : Database → A) → KeepsNumbers (query f)
  unfolding query
  KeepsNumbers-query f = record { at = λ s h. h }

  pub KeepsNumbers-required : (e : ApplicationError) (o : Option A) → KeepsNumbers (required e o)
  unfolding required
  KeepsNumbers-required e none = record { at = λ s h. h }
  KeepsNumbers-required e (some a) = record { at = λ s h. h }

  pub KeepsNumbers-if :
      (b : Bool) (m n : Tx A) → KeepsNumbers m → KeepsNumbers n → KeepsNumbers (if b then m else n)
  KeepsNumbers-if true m n km kn = km
  KeepsNumbers-if false m n km kn = kn

pub KeepsNumbers-reject_if : (b : Bool) (e : ApplicationError) → KeepsNumbers (reject_if b e)
unfolding reject_if
KeepsNumbers-reject_if true e = record { at = λ s h. h }
KeepsNumbers-reject_if false e = record { at = λ s h. h }

pub KeepsNumbers-put_file : (k : StorageKey) (c : List ℕ) → KeepsNumbers (put_file k c)
unfolding put_file
KeepsNumbers-put_file k c = record {
  at = λ s h. record { working = h.working; committed = h.committed };
}

get_file_session : (k : StorageKey) (s : Session) → (get_file k s).1 ≡ s
unfolding get_file
get_file_session k s = ground arith

pub KeepsNumbers-get_file : (k : StorageKey) → KeepsNumbers (get_file k)
KeepsNumbers-get_file k = record { at = λ s h. rw (get_file_session k s) h }

pub KeepsNumbers-commit : KeepsNumbers commit
unfolding commit
KeepsNumbers-commit = record { at = λ s h. record { working = h.working; committed = h.working } }

pub KeepsNumbers-execute :
    (f : Database → Database)
    → ((db : Database) → IsRising db → IsRising (f db))
    → KeepsNumbers (execute f)
unfolding execute
KeepsNumbers-execute f k = record {
  at = λ s h. record { working = k s.working h.working; committed = h.committed };
}

module _ {A B : Type 0} where
  continue_keeps :
      (o : Outcome A) (f : A → Tx B) (s : Session)
      → ((a : A) → KeepsNumbers (f a))
      → Numbered s
      → Numbered (continue o f s).1
  continue_keeps (ok a) f s k h = (k a).at s h
  continue_keeps (fail e) f s k h = h
  continue_keeps (raised x) f s k h = h

  pub KeepsNumbers-bind :
      (m : Tx A) (f : A → Tx B)
      → KeepsNumbers m
      → ((a : A) → KeepsNumbers (f a))
      → KeepsNumbers (m >>= f)
  unfolding ◌>>=◌
  KeepsNumbers-bind m f km kf = record {
    at = λ s h. let (o, s') = m s in continue_keeps o f s' kf (km.at s h);
  }

pub ruleset numbers_rules = (
  KeepsNumbers-pure, KeepsNumbers-abort, KeepsNumbers-query, KeepsNumbers-required, KeepsNumbers-if,
  KeepsNumbers-reject_if, KeepsNumbers-put_file, KeepsNumbers-get_file, KeepsNumbers-commit,
  KeepsNumbers-execute, KeepsNumbers-bind,
)
