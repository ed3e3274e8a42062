-- ===== src/Knowledge/LostUpdates.antt =====
-- UpdateDocumentMetadataHandler: two updates that expect the same version of a document.
use rag_enterprise.Prelude.{
  ℕ, ◌+◌, Bool, true, false, ◌&&◌, ◌||◌, Option, none, some, ◌≡◌, refl, arith, ◌==◌, ==_iff, ◌∙◌,
  scalar-test, scalar-update_rows, and_both, both_and,
}
use rag_enterprise.Knowledge.Models.{Database, Document}
use rag_enterprise.Knowledge.Enums.{is_archived_document, is_deleted_document}
use rag_enterprise.Knowledge.Errors.{ok, fail, conflict}
use rag_enterprise.Knowledge.Session.{
  World, reject_if, required, query, execute, commit, pure, unit_of_work, ◌>>=◌,
}
use rag_enterprise.Knowledge.Commands.{
  UpdateDocumentMetadataCommand, has_permission, update_document_metadata,
}
use rag_enterprise.Knowledge.Handlers.Env.{Env, scope_of, require_permission}
use rag_enterprise.Knowledge.Handlers.Bases.{stale}
use rag_enterprise.Knowledge.Handlers.Documents as Documents
use rag_enterprise.Knowledge.Handlers.Dispatch.{document, handle}
use rag_enterprise.Knowledge.Repositories.Scope.{TenantScope}
use rag_enterprise.Knowledge.Repositories.Documents as Repo

get_scoped-save :
    (scope : TenantScope) (kb id : ℕ) (db : Database) (old new : Document)
    → Repo.get_scoped scope kb id db ≡ some old
    → Repo.scoped scope kb new ≡ Repo.scoped scope kb old
    → new.id ≡ old.id
    → Repo.get_scoped scope kb id (Repo.save new db) ≡ some new
unfolding Repo.get_scoped Repo.save
get_scoped-save scope kb id db old new e same same_id =
    let t =
      and_both (Repo.scoped scope kb old) (old.id == id)
        (scalar-test (λ d. Repo.scoped scope kb d && d.id == id) db.documents old e) in
    let at_id = (==_iff old.id id).0 t.1 in
    scalar-update_rows (λ d. Repo.scoped scope kb d && d.id == id) (λ d. d.id == new.id) new
      db.documents old
      (λ x h.
        let both = and_both (Repo.scoped scope kb x) (x.id == id) h in
        (==_iff x.id new.id).1 (omega (arith, (==_iff x.id id).0 both.1, at_id, same_id)))
      (both_and (Repo.scoped scope kb new) (new.id == id) (same ∙ t.0)
        ((==_iff new.id id).1 (omega (arith, at_id, same_id))))
      e

-- `document.status in {ARCHIVED, DELETED}`
abbrev pub is_frozen : Document → Bool
is_frozen d = is_archived_document d.status || is_deleted_document d.status

module _ (env : Env) (c : UpdateDocumentMetadataCommand) (w : World) (d : Document)
    (allowed : has_permission c.actor "document:update" ≡ true)
    (found : Repo.get_scoped (scope_of c.scoped) c.knowledge_base_id c.document_id w.db ≡ some d)
    (mutable : is_frozen d ≡ false) where
  update_succeeds :
      stale c.expected_version d.row_version ≡ false
      → handle env (update_document_metadata c) w ≡ (
        ok (document (Documents.with_metadata c d)),
        record w { db = Repo.save (Documents.with_metadata c d) w.db },
      )
  unfolding handle unit_of_work Documents.update_document_metadata ◌>>=◌ require_permission
      reject_if required query execute commit pure
  update_succeeds current = rw allowed (rw found (rw mutable (rw current refl)))

  update_conflicts :
      stale c.expected_version d.row_version ≡ true
      → handle env (update_document_metadata c) w ≡ (fail (conflict "Version conflict"), w)
  unfolding handle unit_of_work Documents.update_document_metadata ◌>>=◌ require_permission
      reject_if required query execute commit pure
  update_conflicts late = rw allowed (rw found (rw mutable (rw late refl)))

stale_next : (e : Option ℕ) (v : ℕ) → e ≡ some v → stale e (v + 1) ≡ true
stale_next none v h = cc
stale_next (some e) v h = ground arith

stale_same : (e : Option ℕ) (v : ℕ) → e ≡ some v → stale e v ≡ false
stale_same none v h = cc
stale_same (some e) v h = ground arith

-- If a document is found, is neither archived nor deleted, and has the version that two commands with
-- the permission expect, then the first one succeeds, and the second one, run on the stores that the
-- first one leaves, fails with a version conflict and changes nothing.
pub update_document_metadata-conflicts :
    (env : Env) (c c' : UpdateDocumentMetadataCommand) (w : World) (d : Document)
    → has_permission c.actor "document:update" ≡ true
    → has_permission c'.actor "document:update" ≡ true
    → Repo.get_scoped (scope_of c.scoped) c.knowledge_base_id c.document_id w.db ≡ some d
    → is_frozen d ≡ false
    → c.expected_version ≡ some d.row_version
    → c'.expected_version ≡ some d.row_version
    → scope_of c'.scoped ≡ scope_of c.scoped
    → c'.knowledge_base_id ≡ c.knowledge_base_id
    → c'.document_id ≡ c.document_id
    → let first = handle env (update_document_metadata c) w in
      (first.0 ≡ ok (document (Documents.with_metadata c d)))
      × (handle env (update_document_metadata c') first.1
          ≡ (fail (conflict "Version conflict"), first.1))
unfolding Documents.with_metadata
update_document_metadata-conflicts env c c' w d allowed allowed' found mutable v v' s k i =
    let new = Documents.with_metadata c d in
    let saved : World = record w { db = Repo.save new w.db } in
    let found' : Repo.get_scoped (scope_of c'.scoped) c'.knowledge_base_id c'.document_id saved.db
        ≡ some new =
      rw s (
        rw k (
          rw i (
            get_scoped-save (scope_of c.scoped) c.knowledge_base_id c.document_id w.db d new found
              refl refl))) in
    rw
      (update_succeeds env c w d allowed found mutable
        (stale_same c.expected_version d.row_version v))
      (
        refl,
        update_conflicts env c' saved new allowed' found' mutable
            (stale_next c'.expected_version d.row_version v'),
      )
