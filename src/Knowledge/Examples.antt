-- ===== src/Knowledge/Examples.antt =====
-- The theorems on the knowledge handlers, at concrete inputs.
use rag_enterprise.Prelude.{
  String, false, none, some, List, [], ◌∷◌, ◌≡◌, refl, ◌⊎◌, arith, scalar, any_row, all_rows,
  update_rows,
}
use rag_enterprise.Prelude.Text.{codes, starts_with}
use rag_enterprise.Knowledge.Errors.{forbidden_error, fail}
use rag_enterprise.Knowledge.Session.{
  World, unit_of_work, ◌>>=◌, get_file, put_file, reject_if, required, query, execute, commit, pure,
}
use rag_enterprise.Knowledge.Commands.{Command, delete_document, has_permission}
use rag_enterprise.Knowledge.Handlers.Env.{deleting, require_permission, scope_of}
use rag_enterprise.Knowledge.Handlers.Documents.{delete_document as delete_document_handler}
use rag_enterprise.Knowledge.Repositories.Documents.{get_scoped}
use rag_enterprise.Knowledge.Handlers.Dispatch.{handle, dispatch, validate_command}
use rag_enterprise.Knowledge.Repositories.Folders.{list_subtree_ids, hard_delete_subtree}
use rag_enterprise.Knowledge.Authorization.{handle-denied}
use rag_enterprise.Knowledge.Atomicity.{expired_error}
use rag_enterprise.Knowledge.Atomicity.Commands.{dispatch_all_or_nothing}
use rag_enterprise.Knowledge.LegalHold.Commands.{IsHeld, dispatch-IsHeld}
use rag_enterprise.Knowledge.Subtrees.{has_folder, has_folder-list_subtree_ids}
use rag_enterprise.Knowledge.Samples.{
  like_prefix, sample_env, folder_at, sample_db, sample_world, scoped_by, free_document,
  pending_upload, sample_base, free_db, free_world, done_upload, done_world,
}
use rag_enterprise.Knowledge.Models.{DocumentVersion, staging_key}
use rag_enterprise.Knowledge.Errors.{ok, conflict}
use rag_enterprise.Knowledge.Commands.{
  UpdateDocumentMetadataCommand, CompleteUploadCommand, UploadDocumentVersionCommand,
  delete_knowledge_base, update_document_metadata, complete_upload, upload_document_version,
}
use rag_enterprise.Knowledge.Handlers.Documents.{with_metadata}
use rag_enterprise.Knowledge.Handlers.Dispatch.{nothing, document, version}
use rag_enterprise.Knowledge.Repositories.Bases
use rag_enterprise.Knowledge.Repositories.Documents as Docs
use rag_enterprise.Knowledge.Repositories.Uploads
use rag_enterprise.Knowledge.Repositories.Versions.{next_version_number, get_by_upload_session, add}
use rag_enterprise.Knowledge.Handlers.Uploads.{
  upload_document_version as bind_handler, require_completed, new_version, with_version,
}
use rag_enterprise.Knowledge.Binding.{upload_document_version-once}
use rag_enterprise.Knowledge.Removal.{without, handle-delete_knowledge_base}
use rag_enterprise.Knowledge.LostUpdates.{update_document_metadata-conflicts}
use rag_enterprise.Knowledge.VersionNumbers.{IsRising, rising}
use rag_enterprise.Knowledge.VersionNumbers.Commands.{dispatch-IsRising}
use rag_enterprise.Knowledge.Uploading.{complete_upload-upload_document_version}

abbrev delete_held : List String → Command
delete_held permissions =
    delete_document (record { scoped = scoped_by permissions; document_id = 30 })

handle-denied_example :
    handle sample_env (delete_held ("document:update" ∷ [])) sample_world
    ≡ (fail forbidden_error, sample_world)
unfolding has_permission
handle-denied_example =
    handle-denied sample_env sample_world (delete_held ("document:update" ∷ [])) refl

dispatch_all_or_nothing_example :
    ((dispatch sample_env (delete_held ("document:delete" ∷ [])) sample_world).1.db ≡ sample_db)
    ⊎ ((dispatch sample_env (delete_held ("document:delete" ∷ [])) sample_world).0
        ≡ fail expired_error)
unfolding dispatch validate_command handle deleting unit_of_work delete_document_handler ◌>>=◌
    require_permission has_permission scope_of get_scoped scalar
dispatch_all_or_nothing_example =
    dispatch_all_or_nothing sample_env (delete_held ("document:delete" ∷ [])) sample_world tt

dispatch-IsHeld_example :
    IsHeld 30 (dispatch sample_env (delete_held ("document:delete" ∷ [])) sample_world).1.db
unfolding all_rows any_row
dispatch-IsHeld_example =
    dispatch-IsHeld sample_env 30 sample_world (delete_held ("document:delete" ∷ []))
      (λ e. omega (arith, e)) (record { held = refl; present = refl })

-- Deleting `/a` removes `/ab`.
has_folder-list_subtree_ids_example :
    has_folder 21
      (hard_delete_subtree (list_subtree_ids like_prefix 10 20 sample_db) sample_db).folders
    ≡ false
unfolding scalar any_row starts_with
has_folder-list_subtree_ids_example =
    has_folder-list_subtree_ids like_prefix 10 20 21 (folder_at 20 (codes "a")) sample_db refl

handle-delete_knowledge_base_example :
    ((handle sample_env
        (delete_knowledge_base (scoped_by ("knowledge_base:manage" ∷ [])))
        free_world).0
      ≡ ok nothing)
    × ((handle sample_env
          (delete_knowledge_base (scoped_by ("knowledge_base:manage" ∷ [])))
          free_world).1.db
        ≡ without 10 free_db)
unfolding has_permission Bases.get_scoped scope_of scalar Docs.has_legal_hold_in_kb any_row
handle-delete_knowledge_base_example =
    handle-delete_knowledge_base sample_env (scoped_by ("knowledge_base:manage" ∷ [])) free_world
      sample_base refl refl refl

abbrev retitle : String → UpdateDocumentMetadataCommand
retitle title = record {
  scoped = scoped_by ("document:update" ∷ []);
  document_id = 31;
  title = some (codes title);
  declared_language = none;
  classification_label = none;
  tags = none;
  metadata = none;
  expected_version = some 1;
}

update_document_metadata-conflicts_example :
    ((handle sample_env (update_document_metadata (retitle "A")) free_world).0
      ≡ ok (document (with_metadata (retitle "A") free_document)))
    × (handle sample_env
          (update_document_metadata (retitle "B"))
          (handle sample_env (update_document_metadata (retitle "A")) free_world).1
        ≡ (
          fail (conflict "Version conflict"),
          (handle sample_env (update_document_metadata (retitle "A")) free_world).1,
        ))
unfolding has_permission Docs.get_scoped scope_of scalar
update_document_metadata-conflicts_example =
    update_document_metadata-conflicts sample_env (retitle "A") (retitle "B") free_world
      free_document refl refl refl refl refl refl refl refl refl

abbrev finish : CompleteUploadCommand
finish = record {
  scoped = scoped_by ("document:create" ∷ []);
  upload_id = 40;
  checksum_sha256 = none;
  content = some (codes "hi");
}

abbrev bind_upload : UploadDocumentVersionCommand
bind_upload = record {
  scoped = scoped_by ("document:update" ∷ []);
  document_id = 31;
  upload_id = 40;
  change_summary = none;
}

complete_upload-upload_document_version_example :
    (v : DocumentVersion) × ((handle sample_env
        (upload_document_version bind_upload)
        (handle sample_env (complete_upload finish) free_world).1).0
      ≡ ok (version v))
    × ((handle sample_env
            (upload_document_version bind_upload)
            (handle sample_env (complete_upload finish) free_world).1).1.files
          v.storage_key_original
        ≡ some (codes "hi"))
    × (v.content_hash ≡ codes "hi")
    × (v.version_number ≡ next_version_number 31 free_db)
unfolding has_permission Docs.get_scoped Uploads.get_scoped get_by_upload_session scope_of scalar
complete_upload-upload_document_version_example =
    complete_upload-upload_document_version sample_env sample_env finish bind_upload free_world
      pending_upload free_document (codes "hi") (staging_key 1 2 40) refl refl refl refl
      (record {
        not_completed = refl;
        pending = refl;
        in_time = refl;
        given = refl;
        size = refl;
        checksum = refl;
      })
      refl refl refl refl refl refl

dispatch-IsRising_example :
    IsRising (dispatch sample_env (upload_document_version bind_upload) free_world).1.db
unfolding rising
dispatch-IsRising_example =
    dispatch-IsRising sample_env free_world (upload_document_version bind_upload) refl

abbrev bound_world : World
bound_world = (handle sample_env (upload_document_version bind_upload) done_world).1

-- The folders have gone in between.
abbrev later_world : World
later_world = record bound_world { db = record bound_world.db { folders = [] } }

upload_document_version-once_example :
    handle sample_env (upload_document_version bind_upload) later_world
    ≡ (fail (conflict "Upload already bound to a version"), later_world)
unfolding handle unit_of_work bind_handler require_completed ◌>>=◌ require_permission has_permission
    scope_of Docs.get_scoped Uploads.get_scoped get_by_upload_session scalar get_file put_file
    Docs.save update_rows next_version_number add reject_if required query execute commit pure
    with_version new_version
upload_document_version-once_example =
    upload_document_version-once sample_env sample_env bind_upload bind_upload done_world
      later_world free_document (with_version 5 99 free_document) done_upload (staging_key 1 2 40)
      (codes "hi") (codes "hi") refl refl refl refl refl refl refl refl refl refl refl refl refl
      refl refl refl refl
