-- ===== src/Knowledge/Binding.antt =====
-- UploadDocumentVersionHandler: an upload that is bound to a version already.
use rag_enterprise.Prelude.{
  ℕ, true, false, some, List, [], ◌∷◌, ◌++◌, ◌≡◌, refl, ◌∙◌, ==_iff, scalar, Bool-cases, inl, inr,
}
use rag_enterprise.Prelude.Text.{Str}
use rag_enterprise.Knowledge.Models.{Document, DocumentVersion, UploadSession, StorageKey}
use rag_enterprise.Knowledge.Enums.{is_completed_upload}
use rag_enterprise.Knowledge.Errors.{fail, conflict}
use rag_enterprise.Knowledge.Session.{
  World, reject_if, required, query, execute, commit, pure, put_file, get_file, unit_of_work, ◌>>=◌,
}
use rag_enterprise.Knowledge.Commands.{
  UploadDocumentVersionCommand, has_permission, upload_document_version,
}
use rag_enterprise.Knowledge.Handlers.Env.{Env, scope_of, require_permission}
use rag_enterprise.Knowledge.Handlers.Uploads as Handlers
use rag_enterprise.Knowledge.Handlers.Uploads.{is_bound}
use rag_enterprise.Knowledge.Handlers.Dispatch.{handle}
use rag_enterprise.Knowledge.LostUpdates.{is_frozen}
use rag_enterprise.Knowledge.Repositories.Documents as Docs
use rag_enterprise.Knowledge.Repositories.Uploads as Repo
use rag_enterprise.Knowledge.Repositories.Versions as Versions
use rag_enterprise.Knowledge.Uploading.{upload_document_version_binds}

is_bound-append :
    (upload : ℕ) (vs : List DocumentVersion) (new : DocumentVersion)
    → Versions.bound_to upload new ≡ true
    → is_bound (scalar (Versions.bound_to upload) (vs ++ new ∷ [])) ≡ true
unfolding scalar
is_bound-append upload [] new b = rw b refl
is_bound-append upload (v ∷ vs) new b = elim (Bool-cases (Versions.bound_to upload v)) [
  | inl here ↦ rw here refl
  | inr elsewhere ↦ rw elsewhere (is_bound-append upload vs new b)
]

bound_refuses :
    (env : Env) (c : UploadDocumentVersionCommand) (w : World) (d : Document) (u : UploadSession)
    → has_permission c.actor "document:update" ≡ true
    → Docs.get_scoped (scope_of c.scoped) c.knowledge_base_id c.document_id w.db ≡ some d
    → is_frozen d ≡ false
    → Repo.get_scoped (scope_of c.scoped) c.knowledge_base_id c.upload_id w.db ≡ some u
    → is_completed_upload u.status ≡ true
    → is_bound (Versions.get_by_upload_session u.id w.db) ≡ true
    → handle env (upload_document_version c) w
      ≡ (fail (conflict "Upload already bound to a version"), w)
unfolding handle unit_of_work Handlers.upload_document_version Handlers.require_completed ◌>>=◌
    require_permission reject_if required query execute commit pure put_file get_file
bound_refuses env c w d u allowed found mutable session complete bound =
    rw allowed (rw found (rw mutable (rw session (rw complete (rw bound refl)))))

-- After a command that has made an upload a version of a document, as long as the versions and the
-- upload sessions are the ones that it left, a second command for the upload, for any document that is
-- then found and neither archived nor deleted, fails and changes nothing. The first command succeeds:
-- its actor has the permission, its document is found and neither archived nor deleted, and its upload
-- is found, completed, not bound, and staged with its digest and its content. The second one's actor
-- has the permission, and it names the same upload in the same scope.
pub upload_document_version-once :
    (env env' : Env) (c c' : UploadDocumentVersionCommand) (w w' : World) (d d' : Document)
    (u : UploadSession) (key : StorageKey) (digest : Str) (content : List ℕ)
    → has_permission c.actor "document:update" ≡ true
    → Docs.get_scoped (scope_of c.scoped) c.knowledge_base_id c.document_id w.db ≡ some d
    → is_frozen d ≡ false
    → Repo.get_scoped (scope_of c.scoped) c.knowledge_base_id c.upload_id w.db ≡ some u
    → is_completed_upload u.status ≡ true
    → is_bound (Versions.get_by_upload_session u.id w.db) ≡ false
    → u.storage_key_staging ≡ some key
    → u.checksum_sha256 ≡ some digest
    → w.files key ≡ some content
    → w'.db.document_versions ≡ (handle env (upload_document_version c) w).1.db.document_versions
    → w'.db.upload_sessions ≡ (handle env (upload_document_version c) w).1.db.upload_sessions
    → has_permission c'.actor "document:update" ≡ true
    → Docs.get_scoped (scope_of c'.scoped) c'.knowledge_base_id c'.document_id w'.db ≡ some d'
    → is_frozen d' ≡ false
    → scope_of c'.scoped ≡ scope_of c.scoped
    → c'.knowledge_base_id ≡ c.knowledge_base_id
    → c'.upload_id ≡ c.upload_id
    → handle env' (upload_document_version c') w'
      ≡ (fail (conflict "Upload already bound to a version"), w')
unfolding Handlers.new_version Docs.save Versions.add Versions.get_by_upload_session Repo.get_scoped
upload_document_version-once env env' c c' w w' d d' u key digest content allowed found mutable
      session complete unbound staged digested stored versions sessions allowed' found' mutable' s k
      i =
    let first =
      upload_document_version_binds env c w d u key digest content allowed found mutable session
        complete unbound staged digested stored in
    let made = Handlers.new_version env c d u digest (Versions.next_version_number d.id w.db) in
    let left : w'.db.document_versions ≡ w.db.document_versions ++ made ∷ [] =
      versions ∙ rw first refl in
    let kept : w'.db.upload_sessions ≡ w.db.upload_sessions = sessions ∙ rw first refl in
    let session' : Repo.get_scoped (scope_of c'.scoped) c'.knowledge_base_id c'.upload_id w'.db
        ≡ some u =
      rw kept (rw s (rw k (rw i session))) in
    let bound : is_bound (Versions.get_by_upload_session u.id w'.db) ≡ true =
      rw left (is_bound-append u.id w.db.document_versions made ((==_iff u.id u.id).1 refl)) in
    bound_refuses env' c' w' d' u allowed' found' mutable' session' complete bound
