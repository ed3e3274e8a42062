-- ===== src/Knowledge/Removal.antt =====
-- DeleteKnowledgeBaseHandler: when a deletion succeeds, and what it leaves of the database.
use rag_enterprise.Prelude.{
  ℕ, Bool, true, false, ◌&&◌, none, some, List, [], ◌∷◌, ◌≡◌, refl, arith, ◌==◌, ==_iff, ap, ◌∙◌,
  scalar-test, rows_where, update_rows, delete_rows, Bool-cases, inl, inr,
}
use rag_enterprise.Knowledge.Models.{Database, KnowledgeBase}
use rag_enterprise.Knowledge.Errors.{ok}
use rag_enterprise.Knowledge.Session.{
  World, reject_if, required, query, execute, commit, pure, unit_of_work, ◌>>=◌,
}
use rag_enterprise.Knowledge.Commands.{Scoped, has_permission, delete_knowledge_base}
use rag_enterprise.Knowledge.Handlers.Env.{Env, deleting, scope_of, require_permission}
use rag_enterprise.Knowledge.Handlers.Bases
use rag_enterprise.Knowledge.Handlers.Dispatch.{nothing, handle}
use rag_enterprise.Knowledge.Repositories.Bases as Kbs
use rag_enterprise.Knowledge.Repositories.Documents as Documents
use rag_enterprise.Knowledge.Repositories.Folders as Folders
use rag_enterprise.Knowledge.Repositories.Versions as Versions
use rag_enterprise.Knowledge.Repositories.Uploads as Uploads
use rag_enterprise.Knowledge.Repositories.Indexed as Indexed

-- The database without the rows of a knowledge base.
abbrev pub without : ℕ → Database → Database
without kb db = record {
  knowledge_bases = delete_rows (λ r. r.id == kb) db.knowledge_bases;
  folders = delete_rows (λ r. r.knowledge_base_id == kb) db.folders;
  documents = delete_rows (λ r. r.knowledge_base_id == kb) db.documents;
  document_versions = delete_rows (λ r. r.knowledge_base_id == kb) db.document_versions;
  upload_sessions = delete_rows (λ r. r.knowledge_base_id == kb) db.upload_sessions;
  chunks = delete_rows (λ r. r.knowledge_base_id == kb) db.chunks;
  embeddings = delete_rows (λ r. r.knowledge_base_id == kb) db.embeddings;
  conversations = delete_rows (λ r. r.knowledge_base_id == kb) db.conversations;
  messages = delete_rows (λ r. r.knowledge_base_id == kb) db.messages;
}

-- An update that keeps the test does not change what a deletion leaves.
delete_rows-update_rows :
    {A : Type 0} (p : A → Bool) (f : A → A) (xs : List A)
    → ((x : A) → p (f x) ≡ p x)
    → delete_rows p (update_rows p f xs) ≡ delete_rows p xs
unfolding delete_rows update_rows rows_where
delete_rows-update_rows p f [] k = refl
delete_rows-update_rows p f (x ∷ xs) k = elim (Bool-cases (p x)) [
  | inl gone ↦ rw gone (rw (k x) (rw gone (delete_rows-update_rows p f xs k)))
  | inr kept ↦ rw kept (rw kept (ap (λ r. x ∷ r) (delete_rows-update_rows p f xs k)))
]

get_scoped-id :
    (c : Scoped) (db : Database) (kb : KnowledgeBase)
    → Kbs.get_scoped (scope_of c) c.knowledge_base_id db ≡ some kb
    → kb.id ≡ c.knowledge_base_id
unfolding Kbs.get_scoped
get_scoped-id c db kb e =
    let t =
      scalar-test (λ r. Kbs.scoped (scope_of c) r && r.id == c.knowledge_base_id) db.knowledge_bases
        kb e in
    (==_iff kb.id c.knowledge_base_id).0 (ground (arith, t))

-- The deletes of the handler, one after the other.
cleared : KnowledgeBase → Database → Database
unfolding Kbs.remove Folders.hard_delete_all_in_kb Documents.hard_delete_all_in_kb
    Uploads.delete_all_for_knowledge_base Versions.delete_all_for_knowledge_base
    Indexed.delete_chunks_of_kb Indexed.delete_embeddings_of_kb Indexed.delete_conversations_of_kb
    Indexed.delete_messages_of_kb
cleared kb db = Kbs.remove kb (
    Folders.hard_delete_all_in_kb kb.id (
      Documents.hard_delete_all_in_kb kb.id (
        Uploads.delete_all_for_knowledge_base kb.id (
          Versions.delete_all_for_knowledge_base kb.id (
            Indexed.delete_chunks_of_kb kb.id (
              Indexed.delete_embeddings_of_kb kb.id (
                Indexed.delete_conversations_of_kb kb.id
                  (Indexed.delete_messages_of_kb kb.id db))))))))

cleared-without : (kb : KnowledgeBase) (db : Database) → cleared kb db ≡ without kb.id db
unfolding cleared
cleared-without kb db =
    ap (λ folders. record (without kb.id db) { folders = folders })
      (delete_rows-update_rows (λ f. f.knowledge_base_id == kb.id)
        (λ f. record f { parent_folder_id = none }) db.folders (λ f. refl))

-- A command to delete a knowledge base that its actor may delete, that is found in the scope, and that has
-- no document under legal hold, succeeds; the database is then the one before without the rows of
-- the knowledge base, in each table, and with all other rows as they were.
pub handle-delete_knowledge_base :
    (env : Env) (c : Scoped) (w : World) (kb : KnowledgeBase)
    → has_permission c.actor "knowledge_base:manage" ≡ true
    → Kbs.get_scoped (scope_of c) c.knowledge_base_id w.db ≡ some kb
    → Documents.has_legal_hold_in_kb kb.id w.db ≡ false
    → ((handle env (delete_knowledge_base c) w).0 ≡ ok nothing)
      × ((handle env (delete_knowledge_base c) w).1.db ≡ without c.knowledge_base_id w.db)
unfolding handle deleting unit_of_work Bases.delete_knowledge_base ◌>>=◌ require_permission cleared
    reject_if required query execute commit pure
handle-delete_knowledge_base env c w kb allowed found free = rw allowed (
    rw found (
      rw free
        (refl, cleared-without kb w.db ∙ ap (λ i. without i w.db) (get_scoped-id c w.db kb found))))
