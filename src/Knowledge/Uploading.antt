-- ===== src/Knowledge/Uploading.antt =====
-- CompleteUploadHandler and UploadDocumentVersionHandler: the way of a file to a version.
use rag_enterprise.Prelude.{
  ℕ, Bool, true, false, ◌&&◌, Option, some, List, ◌≡◌, refl, arith, ◌==◌, length, ltb, scalar-test,
  scalar-update_rows, if◌then◌else◌,
}
use rag_enterprise.Prelude.Text.{Str, str_eq_refl}
use rag_enterprise.Knowledge.Models.{
  Database, Document, DocumentVersion, UploadSession, StorageKey, version_key, staging_key,
  extended_key,
}
use rag_enterprise.Knowledge.Enums.{is_pending_upload, is_completed_upload}
use rag_enterprise.Knowledge.Errors.{ok}
use rag_enterprise.Knowledge.Storage.{same_key}
use rag_enterprise.Knowledge.Session.{
  World, reject_if, required, query, execute, commit, pure, put_file, get_file, unit_of_work, ◌>>=◌,
}
use rag_enterprise.Knowledge.Commands.{
  CompleteUploadCommand, UploadDocumentVersionCommand, has_permission, complete_upload,
  upload_document_version,
}
use rag_enterprise.Knowledge.Handlers.Env.{Env, scope_of, require_permission}
use rag_enterprise.Knowledge.Handlers.Uploads as Handlers
use rag_enterprise.Knowledge.Handlers.Uploads.{checksum_differs, completed_upload, is_bound}
use rag_enterprise.Knowledge.Handlers.Dispatch.{upload, version, handle}
use rag_enterprise.Knowledge.LostUpdates.{is_frozen}
use rag_enterprise.Knowledge.Repositories.Scope.{TenantScope}
use rag_enterprise.Knowledge.Repositories.Documents as Docs
use rag_enterprise.Knowledge.Repositories.Uploads as Repo
use rag_enterprise.Knowledge.Repositories.Versions as Versions

same_key_refl : (k : StorageKey) → same_key k k ≡ true
unfolding same_key
same_key_refl (version_key o w d v n) = ground (arith, str_eq_refl n)
same_key_refl (staging_key o w u) = ground arith
same_key_refl (extended_key k t) = ground (arith, same_key_refl k, str_eq_refl t)

-- The session is pending, has not expired, and the content is what the session and the command say.
pub record CanComplete (env : Env) (c : CompleteUploadCommand) (u : UploadSession)
    (content : List ℕ) : Type 0 where
  pub not_completed : is_completed_upload u.status ≡ false
  pub pending : is_pending_upload u.status ≡ true
  pub in_time : ltb u.expires_at env.now ≡ false
  pub given : c.content ≡ some content
  pub size : (length content == u.file_size_bytes) ≡ true
  pub checksum : checksum_differs c.checksum_sha256 (env.sha256 content) ≡ false

abbrev put : StorageKey → List ℕ → (StorageKey → Option (List ℕ)) → StorageKey → Option (List ℕ)
put key content files = λ k. if same_key k key then some content else files k

put_same :
    (key : StorageKey) (content : List ℕ) (files : StorageKey → Option (List ℕ))
    → put key content files key ≡ some content
put_same key content files = rw (same_key_refl key) refl

module _ (env : Env) (c : CompleteUploadCommand) (w : World) (u : UploadSession) (content : List ℕ)
    (key : StorageKey) (allowed : has_permission c.actor "document:create" ≡ true)
    (found : Repo.get_scoped (scope_of c.scoped) c.knowledge_base_id c.upload_id w.db ≡ some u)
    (can : CanComplete env c u content) (staged : u.storage_key_staging ≡ some key) where
  complete_upload_stores : handle env (complete_upload c) w ≡ (
    ok (upload (completed_upload env.later (env.sha256 content) u)),
    record {
      db = Repo.save (completed_upload env.later (env.sha256 content) u) w.db;
      files = put key content w.files;
    },
  )
  unfolding handle unit_of_work Handlers.complete_upload Handlers.store_upload ◌>>=◌
      require_permission reject_if required query execute commit pure put_file
  complete_upload_stores = rw allowed (
      rw found (
        rw can.not_completed (
          rw can.pending
            (rw can.in_time (rw can.given (rw can.size (rw can.checksum (rw staged refl))))))))

module _ (env : Env) (c : UploadDocumentVersionCommand) (w : World) (d : Document)
    (u : UploadSession) (key : StorageKey) (digest : Str) (content : List ℕ)
    (allowed : has_permission c.actor "document:update" ≡ true)
    (found : Docs.get_scoped (scope_of c.scoped) c.knowledge_base_id c.document_id w.db ≡ some d)
    (mutable : is_frozen d ≡ false)
    (session : Repo.get_scoped (scope_of c.scoped) c.knowledge_base_id c.upload_id w.db ≡ some u)
    (complete : is_completed_upload u.status ≡ true)
    (unbound : is_bound (Versions.get_by_upload_session u.id w.db) ≡ false)
    (staged : u.storage_key_staging ≡ some key) (digested : u.checksum_sha256 ≡ some digest)
    (stored : w.files key ≡ some content) where
  abbrev made : DocumentVersion
  made = Handlers.new_version env c d u digest (Versions.next_version_number d.id w.db)

  pub upload_document_version_binds : handle env (upload_document_version c) w ≡ (
    ok (version made),
    record {
      db = Docs.save (Handlers.with_version c.actor.user_id env.new_id d) (Versions.add made w.db);
      files = put made.storage_key_original content w.files;
    },
  )
  unfolding handle unit_of_work Handlers.upload_document_version Handlers.require_completed ◌>>=◌
      require_permission reject_if required query execute commit pure put_file get_file
      Handlers.new_version
  upload_document_version_binds = rw allowed (
      rw found (
        rw mutable
          (rw session (rw complete (rw unbound (rw staged (rw digested (rw stored refl))))))))

get_scoped-save :
    (scope : TenantScope) (kb id : ℕ) (db : Database) (u : UploadSession) (now : ℕ) (digest : Str)
    → Repo.get_scoped scope kb id db ≡ some u
    → Repo.get_scoped scope kb id (Repo.save (completed_upload now digest u) db)
      ≡ some (completed_upload now digest u)
unfolding Repo.get_scoped Repo.save completed_upload
get_scoped-save scope kb id db u now digest e =
    let q : UploadSession → Bool = λ r.
      r.organization_id == scope.organization_id
      && r.workspace_id == scope.workspace_id
      && r.knowledge_base_id == kb
      && r.id == id in
    let found = scalar-test q db.upload_sessions u e in
    scalar-update_rows q (λ r. r.id == u.id) (completed_upload now digest u) db.upload_sessions u
      (λ r h. ground (arith, found)) found e

-- A pending upload that is completed in time, with content of the size and the checksum that are
-- expected, can then become a version of a document that is neither archived nor deleted: the
-- version has the next number and the digest of the content, and the file store holds
-- the content under the version's key. The actors have the permissions, the session is found with its
-- staging key and is not bound to a version, and the document is found, in the scope of the two commands.
pub complete_upload-upload_document_version :
    (env env' : Env) (c : CompleteUploadCommand) (c' : UploadDocumentVersionCommand) (w : World)
    (u : UploadSession) (d : Document) (content : List ℕ) (key : StorageKey)
    → has_permission c.actor "document:create" ≡ true
    → has_permission c'.actor "document:update" ≡ true
    → Repo.get_scoped (scope_of c.scoped) c.knowledge_base_id c.upload_id w.db ≡ some u
    → Docs.get_scoped (scope_of c'.scoped) c'.knowledge_base_id c'.document_id w.db ≡ some d
    → CanComplete env c u content
    → u.storage_key_staging ≡ some key
    → is_bound (Versions.get_by_upload_session u.id w.db) ≡ false
    → is_frozen d ≡ false
    → scope_of c'.scoped ≡ scope_of c.scoped
    → c'.knowledge_base_id ≡ c.knowledge_base_id
    → c'.upload_id ≡ c.upload_id
    → (v : DocumentVersion) × ((handle env'
          (upload_document_version c')
          (handle env (complete_upload c) w).1).0
        ≡ ok (version v))
      × ((handle env' (upload_document_version c') (handle env (complete_upload c) w).1).1.files
            v.storage_key_original
          ≡ some content)
      × (v.content_hash ≡ env.sha256 content)
      × (v.version_number ≡ Versions.next_version_number d.id w.db)
unfolding Handlers.new_version completed_upload Repo.save Docs.get_scoped
    Versions.get_by_upload_session Versions.next_version_number
complete_upload-upload_document_version env env' c c' w u d content key allowed allowed' found docs
      can staged unbound mutable s k i =
    let digest = env.sha256 content in
    let done = completed_upload env.later digest u in
    let next : World = record { db = Repo.save done w.db; files = put key content w.files } in
    let session : Repo.get_scoped (scope_of c'.scoped) c'.knowledge_base_id c'.upload_id next.db
        ≡ some done =
      rw s (
        rw k (
          rw i (
            get_scoped-save (scope_of c.scoped) c.knowledge_base_id c.upload_id w.db u env.later
              digest found))) in
    let stored : next.files key ≡ some content = put_same key content w.files in
    let made =
      Handlers.new_version env' c' d done digest (Versions.next_version_number d.id w.db) in
    let bound =
      upload_document_version_binds env' c' next d done key digest content allowed' docs mutable
        session refl unbound staged refl stored in
    rw (complete_upload_stores env c w u content key allowed found can staged) (
      rw bound (
        made,
        refl,
        put_same made.storage_key_original content (put key content w.files),
        refl,
        refl,
      ))
