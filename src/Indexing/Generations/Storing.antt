-- ===== src/Indexing/Generations/Storing.antt =====
-- indexing/service.py: the generation of the row that a round of `_embed_and_persist_batch` adds.
use rag_enterprise.Prelude.{
  ℕ, ◌+◌, ◌≤◌, ◌≡◌, refl, Bool, true, not, ◌||◌, List, [], ◌∷◌, ◌++◌, arith, ltb, all_rows,
  rows_where, update_rows, Bool-cases, inl, inr, is_none,
}
use rag_enterprise.Knowledge.Models.{Database, DocumentVersion}
use rag_enterprise.Indexing.Models.{Chunk, Embedding, Vector}
use rag_enterprise.Indexing.Session.{Session, Outcome, ok}
use rag_enterprise.Indexing.Repositories.Chunks.{set_indexed}
use rag_enterprise.Indexing.Repositories.Embeddings.{
  of_chunk, max_generation, next_generation, mark_stale_for_chunk_model, stale_vector, add,
}
use rag_enterprise.Indexing.Generations.{
  HasGenerations, distinct-update_rows, add-HasGenerations, is_refused-next_generation,
}
use rag_enterprise.Indexing.Service.{Env, active_match, new_embedding, retire, store_vector}
use rag_enterprise.Indexing.Coverage.{stored, store_vector_lem}

-- The rows of the chunk and the model have lower generations.
abbrev pub is_below : (chunk model generation : ℕ) → Embedding → Bool
is_below chunk model generation e = not (of_chunk chunk model e) || ltb e.generation generation

below_max :
    (chunk model n : ℕ) (es : List Embedding)
    → max_generation (rows_where (of_chunk chunk model) es) ≤ n
    → all_rows (is_below chunk model (n + 1)) es ≡ true
unfolding max_generation rows_where all_rows
below_max chunk model n [] h = refl
below_max chunk model n (e ∷ es) h = ground (arith, below_max chunk model n es)

below_stale :
    (chunk model generation : ℕ) (q : Embedding → Bool) (es : List Embedding)
    → all_rows (is_below chunk model generation) (update_rows q stale_vector es) ≡ true
    → all_rows (is_below chunk model generation) es ≡ true
unfolding all_rows update_rows
below_stale chunk model generation q [] h = refl
below_stale chunk model generation q (e ∷ es) h =
    ground (arith, below_stale chunk model generation q es)

module _ (env : Env) (force : Bool) (c : Chunk) (db : Database) where
  -- Retiring rows changes no generation.
  below_retire :
      (generation : ℕ)
      → all_rows
          (is_below c.id env.embedding_model_id generation)
          (retire env force c db).embeddings
        ≡ true
      → all_rows (is_below c.id env.embedding_model_id generation) db.embeddings ≡ true
  unfolding retire mark_stale_for_chunk_model
  below_retire generation h = elim (Bool-cases (force || is_none (active_match env c db))) [
    | inl stale ↦ below_stale c.id env.embedding_model_id generation _ db.embeddings (rw stale at h)
    | inr kept ↦ rw kept at h
  ]

  retire-HasGenerations : HasGenerations db → HasGenerations (retire env force c db)
  unfolding retire mark_stale_for_chunk_model
  retire-HasGenerations h = elim (Bool-cases (force || is_none (active_match env c db))) [
    | inl stale ↦ rw stale (distinct-update_rows _ db.embeddings h)
    | inr kept ↦ rw kept h
  ]

-- The round has added a row of the chunk with the vector, and its generation is above the others of the
-- chunk and the model.
pub record IsStored (env : Env) (force : Bool) (c : Chunk) (vector : Vector) (before : Database)
    (result : Outcome (Unit {0})) (after : Database) : Type 0 where
  pub returned : result ≡ ok tt
  pub row : Embedding
  pub added : after.embeddings ≡ (retire env force c before).embeddings ++ row ∷ []
  pub chunk : row.chunk_id ≡ c.id
  pub model : row.embedding_model_id ≡ env.embedding_model_id
  pub content : row.vector ≡ vector
  pub above :
      all_rows (is_below c.id env.embedding_model_id row.generation) before.embeddings ≡ true

-- Where no two embeddings of a chunk and a model have the same generation, a round with a vector is not
-- refused by the constraint on generations: it adds a row of the chunk and the model with the vector,
-- whose generation is above all others of the chunk and the model, and leaves no two with the same
-- generation.
pub store_vector-IsStored :
    (env : Env) (force : Bool) (version : DocumentVersion) (c : Chunk) (v : Vector) (s : Session)
    → HasGenerations s.working
    → IsStored env force c v s.working
        (store_vector env force version c v s).0
        (store_vector env force version c v s).1.working
      × HasGenerations (store_vector env force version c v s).1.working
unfolding stored next_generation new_embedding set_indexed add
store_vector-IsStored env force version c v s h =
    let retired = retire env force c s.working in
    let n = next_generation c.id env.embedding_model_id retired in
    let e = new_embedding env version c v n retired in
    rw (store_vector_lem env force version c v s) (
      record {
        returned = refl;
        row = e;
        added = refl;
        chunk = refl;
        model = refl;
        content = refl;
        above =
            below_retire env force c s.working n
              (below_max c.id env.embedding_model_id _ retired.embeddings (omega arith));
      },
      add-HasGenerations e retired (is_refused-next_generation e retired refl)
          (retire-HasGenerations env force c s.working h),
    )
