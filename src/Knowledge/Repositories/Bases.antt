-- ===== src/Knowledge/Repositories/Bases.antt =====
-- repositories/knowledge_base.py
use rag_enterprise.Prelude.{
  ℕ, ◌+◌, Bool, not, ◌&&◌, Option, none, some, [], ◌∷◌, ◌++◌, ◌==◌, is_none, scalar, any_row,
  update_rows, delete_rows,
}
use rag_enterprise.Prelude.Text.{Str, str_eq, strip}
use rag_enterprise.Knowledge.Enums.{KnowledgeBaseStatus, is_deleted_base}
use rag_enterprise.Knowledge.Models.{KnowledgeBase, Database}
use rag_enterprise.Knowledge.Repositories.Scope.{TenantScope}

-- The condition of `_scoped_select`, without deleted rows.
abbrev pub scoped : TenantScope → KnowledgeBase → Bool
scoped scope kb =
    kb.organization_id == scope.organization_id
    && kb.workspace_id == scope.workspace_id
    && is_none kb.deleted_at

unfoldable pub get_scoped : TenantScope → ℕ → Database → Option KnowledgeBase
get_scoped scope id db = scalar (λ kb. scoped scope kb && kb.id == id) db.knowledge_bases

-- `KnowledgeBase.id != exclude_id`, if one is given
abbrev pub not_excluded : Option ℕ → ℕ → Bool
not_excluded none id = Bool.true
not_excluded (some e) id = not (id == e)

unfoldable pub name_exists : TenantScope → Str → Option ℕ → Database → Bool
name_exists scope name exclude_id db =
    any_row
      (λ kb.
        scoped scope kb
        && str_eq kb.name (strip name)
        && not (is_deleted_base kb.status)
        && not_excluded exclude_id kb.id)
      db.knowledge_bases

unfoldable pub publish : ℕ → KnowledgeBase → KnowledgeBase
publish user kb = record kb {
  status = KnowledgeBaseStatus.active;
  updated_by_user_id = some user;
  row_version = kb.row_version + 1;
}

unfoldable pub add : KnowledgeBase → Database → Database
add kb db = record db { knowledge_bases = db.knowledge_bases ++ kb ∷ [] }

-- The flush of a changed object: an update by primary key.
unfoldable pub save : KnowledgeBase → Database → Database
save kb db = record db {
  knowledge_bases = update_rows (λ r. r.id == kb.id) (λ _. kb) db.knowledge_bases;
}

unfoldable pub remove : KnowledgeBase → Database → Database
remove kb db = record db { knowledge_bases = delete_rows (λ r. r.id == kb.id) db.knowledge_bases }
