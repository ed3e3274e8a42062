-- ===== src/Indexing/Coverage.antt =====
-- indexing/service.py: the active embedding that `_embed_and_persist_batch` leaves for each chunk.
pub mod Ensuring
pub mod Selection
use rag_enterprise.Prelude.{
  ℕ, suc, ◌+◌, ◌≡◌, refl, sym, ap, ◌∙◌, Bool, true, false, not, ◌&&◌, ◌||◌, Option, none, some,
  List, [], ◌∷◌, ◌++◌, arith, ◌==◌, length, Bool-cases, inl, inr, is_none, scalar, any_row,
  update_rows, any_row-append, any_row-update_rows, if◌then◌else◌,
}
use rag_enterprise.Prelude.Text.{str_eq, str_eq_refl}
use rag_enterprise.Knowledge.Models.{Database, DocumentVersion}
use rag_enterprise.Indexing.Enums.{is_indexed_vector}
use rag_enterprise.Indexing.Models.{Chunk, Embedding, Vector}
use rag_enterprise.Indexing.Session.{Session, ok, raised, query, execute, fail, throw, ◌>>=◌, ◌>>◌}
use rag_enterprise.Indexing.Generations.{is_refused-next_generation}
use rag_enterprise.Indexing.Repositories.Chunks.{set_indexed}
use rag_enterprise.Indexing.Repositories.Embeddings.{
  of_chunk, is_active_match, find_active_match, next_generation, mark_stale_for_chunk_model,
  stale_vector, is_refused, add,
}
use rag_enterprise.Indexing.Keeping.{Keeps}
use rag_enterprise.Indexing.Service.{
  Env, active_match, new_embedding, retire, insert_embedding, store_vector, wrong_length,
  persist_vector,
}

-- An active embedding of the chunk, made for this version.
abbrev pub holds : Env → DocumentVersion → Chunk → Embedding → Bool
holds env version c e =
    is_active_match c.id env.embedding_model_id c.content_hash e
    && e.document_version_id == version.id

pub record IsHeld (env : Env) (version : DocumentVersion) (c : Chunk) (db : Database) : Type 0 where
  pub found : any_row (holds env version c) db.embeddings ≡ true

pub any_row-last :
    {A : Type 0} (p : A → Bool) (xs : List A) (y : A) → p y ≡ true → any_row p (xs ++ y ∷ []) ≡ true
unfolding any_row
any_row-last p [] y h = ground arith
any_row-last p (x ∷ xs) y h = ground (arith, any_row-last p xs y h)

-- The database after a round.
unfoldable pub stored :
    Env → (force : Bool) → DocumentVersion → Chunk → Vector → Database → Database
stored env force version c v db =
    let retired = retire env force c db in
    let generation = next_generation c.id env.embedding_model_id retired in
    set_indexed c.id (add (new_embedding env version c v generation retired) retired)

-- A round with a vector of the right length is never refused.
pub store_vector_lem :
    (env : Env) (force : Bool) (version : DocumentVersion) (c : Chunk) (v : Vector) (s : Session)
    → store_vector env force version c v s
      ≡ (ok tt, record s { working = stored env force version c v s.working })
unfolding store_vector stored insert_embedding new_embedding query execute ◌>>=◌
store_vector_lem env force version c v s =
    let retired = retire env force c s.working in
    let e =
      new_embedding env version c v (next_generation c.id env.embedding_model_id retired) retired in
    rw (is_refused-next_generation e retired refl) refl

stored_same :
    (env : Env) (force : Bool) (version : DocumentVersion) (c d : Chunk) (v : Vector)
    (db : Database)
    → d.id ≡ c.id
    → d.content_hash ≡ c.content_hash
    → IsHeld env version c (stored env force version d v db)
unfolding stored set_indexed add new_embedding is_active_match
stored_same env force version c d v db same hash = record {
  found =
      any_row-last (holds env version c) (retire env force d db).embeddings _
        (rw (same, hash, str_eq_refl c.content_hash) (ground arith));
}

retire_other :
    (env : Env) (force : Bool) (version : DocumentVersion) (c d : Chunk) (db : Database)
    → (d.id == c.id) ≡ false
    → IsHeld env version c db
    → IsHeld env version c (retire env force d db)
unfolding retire mark_stale_for_chunk_model is_active_match
retire_other env force version c d db other h =
    elim (Bool-cases (force || is_none (active_match env d db))) [
      | inl stale ↦ rw stale (record {
        found =
            any_row-update_rows (holds env version c) _ stale_vector db.embeddings
              (λ e p q. ground arith) h.found;
      })
      | inr kept ↦ rw kept h
    ]

stored_other :
    (env : Env) (force : Bool) (version : DocumentVersion) (c d : Chunk) (v : Vector)
    (db : Database)
    → (d.id == c.id) ≡ false
    → IsHeld env version c db
    → IsHeld env version c (stored env force version d v db)
unfolding stored set_indexed add
stored_other env force version c d v db other h = record {
  found =
      any_row-append (holds env version c) (retire env force d db).embeddings _
        (retire_other env force version c d db other h).found;
}
