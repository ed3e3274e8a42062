-- ===== src/Knowledge/VersionNumbers/Steps.antt =====
-- The steps that the handlers share: the order of the version numbers.
use rag_enterprise.Prelude.{String, Option, none, some, ℕ, List, [], ◌∷◌}
use rag_enterprise.Prelude.Text.{Str}
use rag_enterprise.Knowledge.Models.{KnowledgeBase, Folder, Document, UploadSession}
use rag_enterprise.Knowledge.Errors.{ApplicationError}
use rag_enterprise.Knowledge.Session.{Tx}
use rag_enterprise.Knowledge.Repositories.Scope.{TenantScope}
use rag_enterprise.Knowledge.Commands.{RequestActor}
use rag_enterprise.Knowledge.Handlers.Env.{require_permission, require_active}
use rag_enterprise.Knowledge.Handlers.Bases
use rag_enterprise.Knowledge.Handlers.Folders
use rag_enterprise.Knowledge.Handlers.Documents
use rag_enterprise.Knowledge.Handlers.Uploads
use rag_enterprise.Knowledge.VersionNumbers.{KeepsNumbers}
use rag_enterprise.Knowledge.VersionNumbers.Statements.{step_rules}

pub KeepsNumbers-require_permission :
    (a : RequestActor) (p : String) → KeepsNumbers (require_permission a p)
unfolding require_permission
KeepsNumbers-require_permission a p = search step_rules depth 20

pub KeepsNumbers-require_active :
    (e : ApplicationError) (o : Option Folder) → KeepsNumbers (require_active e o)
unfolding require_active
KeepsNumbers-require_active e none = search step_rules depth 20
KeepsNumbers-require_active e (some f) = search step_rules depth 20

pub KeepsNumbers-rename :
    (scope : TenantScope) (kb : KnowledgeBase) (name : Option Str)
    → KeepsNumbers (Bases.rename scope kb name)
unfolding Bases.rename
KeepsNumbers-rename scope kb none = search step_rules depth 20
KeepsNumbers-rename scope kb (some n) = search step_rules depth 20

pub KeepsNumbers-require_available :
    (o : Option KnowledgeBase) → KeepsNumbers (Folders.require_available o)
unfolding Folders.require_available
KeepsNumbers-require_available none = search step_rules depth 20
KeepsNumbers-require_available (some kb) = search step_rules depth 20

pub ruleset steps = (
  step_rules, KeepsNumbers-require_permission, KeepsNumbers-require_active, KeepsNumbers-rename,
  KeepsNumbers-require_available,
)

pub KeepsNumbers-parent_of :
    (scope : TenantScope) (kb : ℕ) (id : Option ℕ) → KeepsNumbers (Folders.parent_of scope kb id)
unfolding Folders.parent_of
KeepsNumbers-parent_of scope kb none = search steps depth 20
KeepsNumbers-parent_of scope kb (some i) = search steps depth 20

pub KeepsNumbers-target_of :
    (scope : TenantScope) (kb : ℕ) (f : Folder) (id : Option ℕ)
    → KeepsNumbers (Folders.target_of scope kb f id)
unfolding Folders.target_of
KeepsNumbers-target_of scope kb f none = search steps depth 20
KeepsNumbers-target_of scope kb f (some i) = search steps depth 20

pub KeepsNumbers-relocate_row :
    (p q : Str) (child : Option Folder) → KeepsNumbers (Folders.relocate_row p q child)
unfolding Folders.relocate_row
KeepsNumbers-relocate_row p q none = search steps depth 20
KeepsNumbers-relocate_row p q (some f) = search steps depth 20

pub KeepsNumbers-relocate_round :
    (scope : TenantScope) (kb : ℕ) (f : Folder) (p : Str) (i : ℕ) (rest : Tx Unit)
    → KeepsNumbers rest
    → KeepsNumbers (Folders.relocate_round scope kb f p i rest)
unfolding Folders.relocate_round
KeepsNumbers-relocate_round scope kb f p i rest q =
    search (steps, KeepsNumbers-relocate_row) depth 8

pub KeepsNumbers-relocate :
    (scope : TenantScope) (kb : ℕ) (f : Folder) (p : Str) (ids : List ℕ)
    → KeepsNumbers (Folders.relocate scope kb f p ids)
unfolding Folders.relocate
KeepsNumbers-relocate scope kb f p [] = search steps depth 20
KeepsNumbers-relocate scope kb f p (i ∷ ids) =
    KeepsNumbers-relocate_round scope kb f p i _ (KeepsNumbers-relocate scope kb f p ids)

pub KeepsNumbers-lower_count :
    (n : ℕ) (o : Option KnowledgeBase) → KeepsNumbers (Folders.lower_count n o)
unfolding Folders.lower_count
KeepsNumbers-lower_count n none = search steps depth 20
KeepsNumbers-lower_count n (some kb) = search steps depth 20

pub KeepsNumbers-delete_documents :
    (scope : TenantScope) (kb : ℕ) (fs ds : List ℕ)
    → KeepsNumbers (Folders.delete_documents scope kb fs ds)
unfolding Folders.delete_documents
KeepsNumbers-delete_documents scope kb fs [] = search steps depth 20
KeepsNumbers-delete_documents scope kb fs (d ∷ ds) =
    search (steps, KeepsNumbers-lower_count) depth 14

pub KeepsNumbers-check_folder :
    (e : ApplicationError) (scope : TenantScope) (kb : ℕ) (id : Option ℕ)
    → KeepsNumbers (Documents.check_folder e scope kb id)
unfolding Documents.check_folder
KeepsNumbers-check_folder e scope kb none = search steps depth 20
KeepsNumbers-check_folder e scope kb (some i) = search steps depth 20

pub KeepsNumbers-require_movable :
    (o : Option Document) → KeepsNumbers (Documents.require_movable o)
unfolding Documents.require_movable
KeepsNumbers-require_movable o = search steps depth 20

pub KeepsNumbers-require_completed :
    (o : Option UploadSession) → KeepsNumbers (Uploads.require_completed o)
unfolding Uploads.require_completed
KeepsNumbers-require_completed o = search steps depth 20

pub ruleset handler_rules = (
  steps, KeepsNumbers-parent_of, KeepsNumbers-target_of, KeepsNumbers-relocate,
  KeepsNumbers-delete_documents, KeepsNumbers-lower_count, KeepsNumbers-check_folder,
  KeepsNumbers-require_movable, KeepsNumbers-require_completed,
)
