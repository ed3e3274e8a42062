-- ===== src/Knowledge/Handlers/Env.antt =====
-- What a handler takes from outside the program, and the steps that all handlers share.
use rag_enterprise.Prelude.{
  ℕ, String, Bool, false, not, ◌||◌, Option, none, some, List, [], ◌∷◌, ◌++◌, if◌then◌else◌,
}
use rag_enterprise.Prelude.Text.{Str, strip}
use rag_enterprise.Knowledge.Models.{Folder, StorageKey}
use rag_enterprise.Knowledge.Enums.{is_active_folder}
use rag_enterprise.Knowledge.Errors.{ApplicationError, forbidden_error, Outcome, ok, fail, raised}
use rag_enterprise.Knowledge.Storage.{same_key}
use rag_enterprise.Knowledge.Session.{
  Files, World, Tx, pure, abort, reject_if, delete_file, unit_of_work,
}
use rag_enterprise.Knowledge.Repositories.Scope.{TenantScope}
use rag_enterprise.Knowledge.Commands.{RequestActor, Scoped, has_permission}

-- The readings of the clock in their order, the fresh identifier, the digest, and the database's `LIKE '<prefix>%'`.
pub record Env : Type 0 where
  pub now : ℕ
  pub later : ℕ
  pub latest : ℕ
  pub new_id : ℕ
  pub sha256 : List ℕ → Str
  pub like : Str → Str → Bool

unfoldable pub scope_of : Scoped → TenantScope
scope_of c = record { organization_id = c.actor.organization_id; workspace_id = c.workspace_id }

unfoldable pub require_permission : RequestActor → String → Tx Unit
require_permission actor permission =
    reject_if (not (has_permission actor permission)) forbidden_error

unfoldable pub folder_path : Option Folder → Str → Str
folder_path none name = b'/' ∷ strip name
folder_path (some parent) name = parent.path ++ b'/' ∷ strip name

-- `folder is None or folder.status != ACTIVE`, as a failure.
unfoldable pub require_active : ApplicationError → Option Folder → Tx Folder
require_active e none = abort e
require_active e (some f) = if is_active_folder f.status then pure f else abort e

seen_key : StorageKey → List StorageKey → Bool
seen_key k [] = false
seen_key k (j ∷ ks) = same_key k j || seen_key k ks

-- The loop of `_best_effort_delete_files`; the store modelled here raises nothing on a delete.
unfoldable pub delete_files : List StorageKey → List StorageKey → Files → Files
unfolding seen_key delete_file
delete_files seen [] files = files
delete_files seen (k ∷ ks) files =
    let skipped = delete_files seen ks files in
    let deleted = delete_files (k ∷ seen) ks (delete_file k files) in
    if seen_key k seen then skipped else deleted

-- A handler that deletes objects after its unit of work, unless that has failed.
abbrev pub after_delete : Outcome (List StorageKey) × World → Outcome (Unit {0}) × World
after_delete (ok keys, w) = (ok tt, record w { files = delete_files [] keys w.files })
after_delete (fail e, w) = (fail e, w)
after_delete (raised x, w) = (raised x, w)

unfoldable pub deleting : Tx (List StorageKey) → World → Outcome (Unit {0}) × World
deleting body w = after_delete (unit_of_work body w)
