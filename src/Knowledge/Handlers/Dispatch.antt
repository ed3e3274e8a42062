-- ===== src/Knowledge/Handlers/Dispatch.antt =====
-- application/commands/dispatcher.py with the registrations of knowledge/registration.py: a command is
-- validated (`validate_command` of knowledge/commands.py), then its handler runs.
use rag_enterprise.Prelude.{String, Bool, true, false, not, Option, none, some, [], if◌then◌else◌}
use rag_enterprise.Prelude.Text.{Str, str_eq}
use rag_enterprise.Knowledge.Models.{Folder, Document, DocumentVersion, UploadSession}
use rag_enterprise.Knowledge.Errors.{ApplicationError, validation_error, Outcome, ok, fail, raised}
use rag_enterprise.Knowledge.Session.{World, unit_of_work}
use rag_enterprise.Knowledge.Commands.{
  Command, create_knowledge_base, update_knowledge_base, publish_knowledge_base,
  archive_knowledge_base, restore_knowledge_base, delete_knowledge_base, create_folder, move_folder,
  delete_folder, create_document, initiate_upload, complete_upload, upload_document_version,
  archive_document, restore_document, delete_document, move_document, update_document_metadata,
}
use rag_enterprise.Knowledge.Commands.Validation.{
  is_valid_language_code, is_valid_name, is_valid_title, is_allowed_file, is_valid_tags,
  metadata_size_ok,
}
use rag_enterprise.Knowledge.Handlers.Env.{Env, deleting}
use rag_enterprise.Knowledge.Handlers.Bases
use rag_enterprise.Knowledge.Handlers.Bases.{KnowledgeBaseDetail}
use rag_enterprise.Knowledge.Handlers.Folders
use rag_enterprise.Knowledge.Handlers.Documents
use rag_enterprise.Knowledge.Handlers.Uploads

-- What a handler returns.
pub data Reply : Type 0 where
  knowledge_base : KnowledgeBaseDetail → Reply
  folder : Folder → Reply
  document : Document → Reply
  upload : UploadSession → Reply
  version : DocumentVersion → Reply
  nothing : Reply

-- `value is not None and not test(value)`
bad {ℓ} : {A : Type ℓ} → (A → Bool) → Option A → Bool
bad test none = false
bad test (some a) = not (test a)

-- `value and not test(value)`
bad_text : (Str → Bool) → Option Str → Bool
bad_text test none = false
bad_text test (some s) = if str_eq s [] then false else not (test s)

-- The first test that fails, with its message.
invalid_if : Bool → String → Option ApplicationError → Option ApplicationError
invalid_if true message rest = some (validation_error message)
invalid_if false message rest = rest

unfoldable pub validate_command : Command → Option ApplicationError
unfolding bad bad_text invalid_if
validate_command (create_knowledge_base c) =
    invalid_if (not (is_valid_name c.name)) "Invalid knowledge base name"
      (invalid_if (not (is_valid_language_code c.default_language)) "Invalid default language" none)
validate_command (update_knowledge_base c) =
    invalid_if (bad is_valid_name c.name) "Invalid knowledge base name"
      (invalid_if (bad is_valid_language_code c.default_language) "Invalid default language" none)
validate_command (create_folder c) =
    invalid_if (not (is_valid_name c.name)) "Invalid folder name" none
validate_command (create_document c) =
    invalid_if (not (is_valid_title c.title)) "Invalid document title" (
      invalid_if (not (is_valid_tags c.tags)) "Invalid tags" (
        invalid_if (not (metadata_size_ok c.metadata)) "Metadata exceeds size limit" (
          invalid_if (bad_text is_valid_language_code c.declared_language)
            "Invalid declared language" none)))
validate_command (initiate_upload c) =
    invalid_if (not (is_allowed_file c.file_name c.file_size_bytes)) "Invalid upload file" none
validate_command (update_document_metadata c) =
    invalid_if (bad is_valid_title c.title) "Invalid document title" (
      invalid_if (bad is_valid_tags c.tags) "Invalid tags" (
        invalid_if (bad metadata_size_ok c.metadata) "Metadata exceeds size limit" (
          invalid_if (bad is_valid_language_code c.declared_language) "Invalid declared language"
            none)))
validate_command other = none

module _ {A : Type 0} where
  abbrev pub reply_with : (A → Reply) → Outcome A × World → Outcome Reply × World
  reply_with f (ok a, w) = (ok (f a), w)
  reply_with f (fail e, w) = (fail e, w)
  reply_with f (raised x, w) = (raised x, w)

-- The handler of each command, run on the stores.
unfoldable pub handle : Env → Command → World → Outcome Reply × World
handle env (create_knowledge_base c) w =
    reply_with knowledge_base (unit_of_work (Bases.create_knowledge_base env c) w)
handle env (update_knowledge_base c) w =
    reply_with knowledge_base (unit_of_work (Bases.update_knowledge_base c) w)
handle env (publish_knowledge_base c) w =
    reply_with knowledge_base (unit_of_work (Bases.publish_knowledge_base c) w)
handle env (archive_knowledge_base c) w =
    reply_with knowledge_base (unit_of_work (Bases.archive_knowledge_base env c) w)
handle env (restore_knowledge_base c) w =
    reply_with knowledge_base (unit_of_work (Bases.restore_knowledge_base c) w)
handle env (delete_knowledge_base c) w =
    reply_with (λ _. nothing) (deleting (Bases.delete_knowledge_base c) w)
handle env (create_folder c) w = reply_with folder (unit_of_work (Folders.create_folder env c) w)
handle env (move_folder c) w = reply_with folder (unit_of_work (Folders.move_folder env c) w)
handle env (delete_folder c) w =
    reply_with (λ _. nothing) (deleting (Folders.delete_folder env c) w)
handle env (create_document c) w =
    reply_with document (unit_of_work (Documents.create_document env c) w)
handle env (initiate_upload c) w =
    reply_with upload (unit_of_work (Uploads.initiate_upload env c) w)
handle env (complete_upload c) w =
    reply_with upload (unit_of_work (Uploads.complete_upload env c) w)
handle env (upload_document_version c) w =
    reply_with version (unit_of_work (Uploads.upload_document_version env c) w)
handle env (archive_document c) w =
    reply_with document (unit_of_work (Documents.archive_document env c) w)
handle env (restore_document c) w =
    reply_with document (unit_of_work (Documents.restore_document c) w)
handle env (delete_document c) w =
    reply_with (λ _. nothing) (deleting (Documents.delete_document c) w)
handle env (move_document c) w = reply_with document (unit_of_work (Documents.move_document c) w)
handle env (update_document_metadata c) w =
    reply_with document (unit_of_work (Documents.update_document_metadata c) w)

unfoldable pub dispatch : Env → Command → World → Outcome Reply × World
dispatch env command w = elim (validate_command command) [
  | none ↦ handle env command w
  | some e ↦ (fail e, w)
]
