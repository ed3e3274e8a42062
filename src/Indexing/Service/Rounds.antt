-- ===== src/Indexing/Service/Rounds.antt =====
-- indexing/service.py: what one round keeps, the loops of an attempt keep.
use rag_enterprise.Prelude.{
  ℕ, Bool, true, false, List, [], ◌∷◌, ◌++◌, All, is_none, length, ◌==◌, if◌then◌else◌,
}
use rag_enterprise.Knowledge.Models.{DocumentVersion}
use rag_enterprise.Indexing.Models.{Chunk, Vector, Embedding}
use rag_enterprise.Indexing.Session.{Session, execute, pure, query}
use rag_enterprise.Indexing.Batches.{concat}
use rag_enterprise.Indexing.Repositories.Chunks.{set_indexed}
use rag_enterprise.Indexing.Embedding.{embed_batch_with_split}
use rag_enterprise.Indexing.Repositories.Embeddings.{next_generation}
use rag_enterprise.Indexing.Keeping.{
  Keeps, Keeps-bind, Keeps-if, Keeps-query, Keeps-fail, keeping_rules, Keeps-embed_batch_with_split,
}
use rag_enterprise.Indexing.Service.{
  Env, active_match, retire, new_embedding, insert_embedding, store_vector, wrong_length,
  persist_vector, persist_vectors, embed_and_persist_batch, persist_batches,
}
use rag_enterprise.Indexing.Service.Attempts.{mark_skipped, select_pending}

module _ (Q : Chunk → Type 0) where
  pub All-left : (xs ys : List Chunk) → All Q (xs ++ ys) → All Q xs
  All-left [] ys h = tt
  All-left (x ∷ xs) ys h = (h.0, All-left xs ys h.1)

  pub All-right : (xs ys : List Chunk) → All Q (xs ++ ys) → All Q ys
  All-right [] ys h = h
  All-right (x ∷ xs) ys h = All-right xs ys h.1

-- A round, from its statements.
pub Keeps-persist_vector :
    (P : Session → Type 0) (env : Env) (force : Bool) (version : DocumentVersion) (c : Chunk)
    (v : Vector)
    → Keeps P (execute (retire env force c))
    → ((e : Embedding) → Keeps P (insert_embedding env e))
    → Keeps P (execute (set_indexed c.id))
    → Keeps P (persist_vector env force version c v)
unfolding persist_vector store_vector wrong_length
Keeps-persist_vector P env force version c v first insert last =
    Keeps-if P (length v == env.provider.dimensions) _ _
      (Keeps-bind P (execute (retire env force c)) _ first λ _.
        Keeps-bind P (query (next_generation c.id env.embedding_model_id)) _ (Keeps-query P _) λ g.
          Keeps-bind P (query (new_embedding env version c v g)) _ (Keeps-query P _)
            λ e. Keeps-bind P (insert_embedding env e) _ (insert e) λ _. last)
      (Keeps-fail P _ _)

-- The rounds for the chunks that meet `Q`.
module _ (P : Session → Type 0) (Q : Chunk → Type 0) (env : Env) (force : Bool)
    (version : DocumentVersion)
    (uncounted : (s : Session) (n : ℕ) → P s → P (record s { calls = n }))
    (one_vector : (c : Chunk) (v : Vector)
      → Q c
      → Keeps P (persist_vector env force version c v)) where
  pub Keeps-persist_vectors :
      (cs : List Chunk) (vs : List Vector)
      → All Q cs
      → Keeps P (persist_vectors env force version cs vs)
  unfolding persist_vectors
  Keeps-persist_vectors [] [] q = search keeping_rules depth 4
  Keeps-persist_vectors (c ∷ cs) [] q = search keeping_rules depth 4
  Keeps-persist_vectors [] (v ∷ vs) q = search keeping_rules depth 4
  Keeps-persist_vectors (c ∷ cs) (v ∷ vs) q =
      let first = one_vector c v q.0 in
      let rest = Keeps-persist_vectors cs vs q.1 in search (keeping_rules, first, rest) depth 8

  pub Keeps-embed_and_persist_batch :
      (cs : List Chunk) → All Q cs → Keeps P (embed_and_persist_batch env force version cs)
  unfolding embed_and_persist_batch
  Keeps-embed_and_persist_batch cs q =
      let embed = Keeps-embed_batch_with_split P uncounted env.provider cs in
      Keeps-bind P (embed_batch_with_split env.provider cs) _ embed
        λ vs. Keeps-persist_vectors cs vs q

  pub Keeps-persist_batches :
      (bs : List (List Chunk)) → All Q (concat bs) → Keeps P (persist_batches env force version bs)
  unfolding persist_batches
  Keeps-persist_batches [] q = search keeping_rules depth 4
  Keeps-persist_batches (b ∷ bs) q =
      let first = Keeps-embed_and_persist_batch b (All-left Q b (concat bs) q) in
      let rest = Keeps-persist_batches bs (All-right Q b (concat bs) q) in
      search (keeping_rules, first, rest) depth 8

module _ (P : Session → Type 0) (env : Env)
    (one_chunk : (id : ℕ) → Keeps P (execute (set_indexed id))) where
  Keeps-mark_skipped : (c : Chunk) → Keeps P (mark_skipped c)
  unfolding mark_skipped
  Keeps-mark_skipped c = search (keeping_rules, one_chunk) depth 6

  pub Keeps-select_pending :
      (force : Bool) (cs : List Chunk) → Keeps P (select_pending env force cs)
  unfolding select_pending
  Keeps-select_pending force [] = search keeping_rules depth 4
  Keeps-select_pending true (c ∷ cs) = search (keeping_rules, Keeps-select_pending true cs) depth 8
  Keeps-select_pending false (c ∷ cs) =
      Keeps-bind P (query (active_match env c)) _ (search keeping_rules depth 4) λ existing.
        Keeps-bind P (if is_none existing then pure tt else mark_skipped c) _
          (search (keeping_rules, Keeps-mark_skipped) depth 6)
          λ _. search (keeping_rules, Keeps-select_pending false cs) depth 8
