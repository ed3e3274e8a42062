-- ===== src/Knowledge/LegalHold/Deletions.antt =====
-- Legal hold and the deletions of a knowledge base and of a folder subtree.
use rag_enterprise.Prelude.{
  ℕ, List, [], ◌∷◌, ◌≡◌, refl, sym, ◌∙◌, Bool, true, false, not, ◌&&◌, arith, ◌==◌, is_in, any_row,
  all_rows,
}
use rag_enterprise.Knowledge.Models.{StorageKey, Document, Database}
use rag_enterprise.Knowledge.Errors.{ApplicationError}
use rag_enterprise.Knowledge.Session.{Session, Tx, query, reject_if, ◌>>=◌, ◌>>◌}
use rag_enterprise.Knowledge.Repositories.Scope.{TenantScope}
use rag_enterprise.Knowledge.Repositories.Documents as Docs
use rag_enterprise.Knowledge.Commands.{Scoped, DeleteFolderCommand}
use rag_enterprise.Knowledge.Handlers.Env.{Env}
use rag_enterprise.Knowledge.Handlers.Bases
use rag_enterprise.Knowledge.Handlers.Folders
use rag_enterprise.Knowledge.LegalHold.{fine, anything, OnHold-weaken, Holds, Keeps}
use rag_enterprise.Knowledge.LegalHold.Steps.{OnHold-delete_in_kb, OnHold-delete_in_folders}
use rag_enterprise.Knowledge.LegalHold.Handlers.{handler_rules}

-- Where no row passes `q` under hold, the rows on hold fail `q`.
all_rows-spared :
    (id : ℕ) (q : Document → Bool) (docs : List Document)
    → any_row (λ d. q d && d.legal_hold) docs ≡ false
    → all_rows (fine id anything) docs ≡ true
    → all_rows (fine id (λ d. not (q d))) docs ≡ true
unfolding any_row all_rows
all_rows-spared id q [] none_held h = refl
all_rows-spared id q (d ∷ ds) none_held h = ground (arith, all_rows-spared id q ds)

Holds-weaken : (id : ℕ) (r : Document → Bool) (s : Session) → Holds id r s → Holds id anything s
Holds-weaken id r s h = record {
  working = OnHold-weaken id r s.working h.working;
  committed = h.committed;
}

module _ (id : ℕ) {B : Type 0} (e : ApplicationError) (n : Tx B) where
  guarded :
      (b : Bool) (s : Session)
      → (b ≡ false → Holds id anything (n s).1)
      → Holds id anything s
      → Holds id anything ((reject_if b e >> n) s).1
  unfolding ◌>>=◌
  guarded true s k h = h
  guarded false s k h = k refl

  -- Behind a check that finds no hold among the rows of `q`, the rest may rely on it.
  Keeps-checked :
      (q : Document → Bool) (test : Database → Bool)
      → ((db : Database) → test db ≡ any_row (λ d. q d && d.legal_hold) db.documents)
      → Keeps id (λ d. not (q d)) n
      → Keeps id anything (query test >>= λ held. reject_if held e >> n)
  unfolding ◌>>=◌
  Keeps-checked q test same keep = record {
    at = λ s h.
        guarded (test s.working) s
          (λ free.
            Holds-weaken id (λ d. not (q d)) _
              (keep.at s (record {
                working = record {
                  held =
                      all_rows-spared id q s.working.documents (sym (same s.working) ∙ free)
                        h.working.held;
                  present = h.working.present;
                };
                committed = h.committed;
              })))
          h;
  }

legal_hold_in_kb :
    (kb : ℕ) (db : Database)
    → Docs.has_legal_hold_in_kb kb db
      ≡ any_row (λ d. d.knowledge_base_id == kb && d.legal_hold) db.documents
unfolding Docs.has_legal_hold_in_kb
legal_hold_in_kb kb db = refl

no_folder :
    (docs : List Document) → any_row (λ d. Docs.in_folders [] d && d.legal_hold) docs ≡ false
unfolding any_row is_in
no_folder [] = refl
no_folder (d ∷ ds) = ground (arith, no_folder ds)

legal_hold_in_folders :
    (ids : List ℕ) (db : Database)
    → Docs.has_legal_hold_in_folders ids db
      ≡ any_row (λ d. Docs.in_folders ids d && d.legal_hold) db.documents
unfolding Docs.has_legal_hold_in_folders
legal_hold_in_folders [] db = sym (no_folder db.documents)
legal_hold_in_folders (i ∷ ids) db = refl

module _ (id : ℕ) where
  Keeps-delete_documents :
      (scope : TenantScope) (kb : ℕ) (fs ds : List ℕ)
      → Keeps id (λ d. not (Docs.in_folders fs d)) (Folders.delete_documents scope kb fs ds)
  unfolding Folders.delete_documents
  Keeps-delete_documents scope kb fs [] = search handler_rules
  Keeps-delete_documents scope kb fs (d ∷ ds) =
      search (handler_rules, OnHold-delete_in_folders) depth 30

  pub Keeps-delete_folder :
      (env : Env) (c : DeleteFolderCommand) → Keeps id anything (Folders.delete_folder env c)
  unfolding Folders.delete_folder
  Keeps-delete_folder env c =
      search
        (
          handler_rules,
          λ (e : ApplicationError) (ids : List ℕ) (n : Tx (List StorageKey)).
              Keeps-checked id e n (Docs.in_folders ids) _ (legal_hold_in_folders ids),
          Keeps-delete_documents,
        )
        depth 30

  pub Keeps-delete_knowledge_base : (c : Scoped) → Keeps id anything (Bases.delete_knowledge_base c)
  unfolding Bases.delete_knowledge_base
  Keeps-delete_knowledge_base c =
      search
        (
          handler_rules,
          λ (e : ApplicationError) (kb : ℕ) (n : Tx (List StorageKey)).
              Keeps-checked id e n (λ d. d.knowledge_base_id == kb) _ (legal_hold_in_kb kb),
          OnHold-delete_in_kb,
        )
        depth 40
