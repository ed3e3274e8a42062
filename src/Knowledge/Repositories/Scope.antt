-- ===== src/Knowledge/Repositories/Scope.antt =====
-- repositories/scope.py
use rag_enterprise.Prelude.{ℕ}

pub record TenantScope : Type 0 where
  pub organization_id : ℕ
  pub workspace_id : ℕ
