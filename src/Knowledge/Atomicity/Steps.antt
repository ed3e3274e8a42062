-- ===== src/Knowledge/Atomicity/Steps.antt =====
-- The steps that the handlers share, and what they commit.
use rag_enterprise.Prelude.{String, Option, none, some, ℕ, List, [], ◌∷◌}
use rag_enterprise.Prelude.Text.{Str}
use rag_enterprise.Knowledge.Models.{KnowledgeBase, Folder, Document, UploadSession}
use rag_enterprise.Knowledge.Errors.{ApplicationError}
use rag_enterprise.Knowledge.Session.{Tx}
use rag_enterprise.Knowledge.Repositories.Scope.{TenantScope}
use rag_enterprise.Knowledge.Commands.{RequestActor}
use rag_enterprise.Knowledge.Handlers.Env.{require_permission, require_active}
use rag_enterprise.Knowledge.Handlers.Bases
use rag_enterprise.Knowledge.Handlers.Folders
use rag_enterprise.Knowledge.Handlers.Documents
use rag_enterprise.Knowledge.Handlers.Uploads
use rag_enterprise.Knowledge.Atomicity.{
  Failed, expired_error, Quiet, Atomic, quiet_rules, atomic_rules,
}

pub Quiet-require_permission : (a : RequestActor) (p : String) → Quiet (require_permission a p)
unfolding require_permission
Quiet-require_permission a p = search quiet_rules

pub Quiet-require_active : (e : ApplicationError) (o : Option Folder) → Quiet (require_active e o)
unfolding require_active
Quiet-require_active e none = search quiet_rules
Quiet-require_active e (some f) = search quiet_rules

pub Quiet-rename :
    (scope : TenantScope) (kb : KnowledgeBase) (name : Option Str)
    → Quiet (Bases.rename scope kb name)
unfolding Bases.rename
Quiet-rename scope kb none = search quiet_rules
Quiet-rename scope kb (some n) = search quiet_rules

pub Quiet-require_available : (o : Option KnowledgeBase) → Quiet (Folders.require_available o)
unfolding Folders.require_available
Quiet-require_available none = search quiet_rules
Quiet-require_available (some kb) = search quiet_rules

pub ruleset steps = (
  quiet_rules, Quiet-require_permission, Quiet-require_active, Quiet-rename,
  Quiet-require_available,
)

pub Quiet-parent_of :
    (scope : TenantScope) (kb : ℕ) (id : Option ℕ) → Quiet (Folders.parent_of scope kb id)
unfolding Folders.parent_of
Quiet-parent_of scope kb none = search steps
Quiet-parent_of scope kb (some i) = search steps

pub Quiet-target_of :
    (scope : TenantScope) (kb : ℕ) (f : Folder) (id : Option ℕ)
    → Quiet (Folders.target_of scope kb f id)
unfolding Folders.target_of
Quiet-target_of scope kb f none = search steps
Quiet-target_of scope kb f (some i) = search steps depth 8

pub Quiet-relocate_row :
    (p q : Str) (child : Option Folder) → Quiet (Folders.relocate_row p q child)
unfolding Folders.relocate_row
Quiet-relocate_row p q none = search steps
Quiet-relocate_row p q (some f) = search steps

pub Quiet-relocate_round :
    (scope : TenantScope) (kb : ℕ) (f : Folder) (p : Str) (i : ℕ) (rest : Tx Unit)
    → Quiet rest
    → Quiet (Folders.relocate_round scope kb f p i rest)
unfolding Folders.relocate_round
Quiet-relocate_round scope kb f p i rest q = search (steps, Quiet-relocate_row) depth 8

pub Quiet-relocate :
    (scope : TenantScope) (kb : ℕ) (f : Folder) (p : Str) (ids : List ℕ)
    → Quiet (Folders.relocate scope kb f p ids)
unfolding Folders.relocate
Quiet-relocate scope kb f p [] = search steps
Quiet-relocate scope kb f p (i ∷ ids) =
    Quiet-relocate_round scope kb f p i _ (Quiet-relocate scope kb f p ids)

pub Quiet-lower_count : (n : ℕ) (o : Option KnowledgeBase) → Quiet (Folders.lower_count n o)
unfolding Folders.lower_count
Quiet-lower_count n none = search steps
Quiet-lower_count n (some kb) = search steps

pub Quiet-delete_documents :
    (scope : TenantScope) (kb : ℕ) (fs ds : List ℕ)
    → Quiet (Folders.delete_documents scope kb fs ds)
unfolding Folders.delete_documents
Quiet-delete_documents scope kb fs [] = search steps
Quiet-delete_documents scope kb fs (d ∷ ds) = search (steps, Quiet-lower_count) depth 14

pub Quiet-check_folder :
    (e : ApplicationError) (scope : TenantScope) (kb : ℕ) (id : Option ℕ)
    → Quiet (Documents.check_folder e scope kb id)
unfolding Documents.check_folder
Quiet-check_folder e scope kb none = search steps
Quiet-check_folder e scope kb (some i) = search steps

pub Quiet-require_movable : (o : Option Document) → Quiet (Documents.require_movable o)
unfolding Documents.require_movable
Quiet-require_movable o = search steps

pub Quiet-require_completed : (o : Option UploadSession) → Quiet (Uploads.require_completed o)
unfolding Uploads.require_completed
Quiet-require_completed o = search steps

pub ruleset handler_rules = (
  steps, atomic_rules, Quiet-parent_of, Quiet-target_of, Quiet-relocate, Quiet-delete_documents,
  Quiet-lower_count, Quiet-check_folder, Quiet-require_movable, Quiet-require_completed,
)
