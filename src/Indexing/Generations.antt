-- ===== src/Indexing/Generations.antt =====
-- indexing/repositories/embedding.py: `next_generation` and the unique constraint on generations.
pub mod Storing
use rag_enterprise.Prelude.{
  ℕ, ◌+◌, ◌≤◌, ◌<◌, ◌≡◌, refl, Bool, true, false, not, ◌&&◌, List, [], ◌∷◌, ◌++◌, arith, max, ◌==◌,
  any_row, all_rows, rows_where, update_rows, all_rows-append, all_rows-update_rows, both_and,
  and_both,
}
use rag_enterprise.Knowledge.Models.{Database}
use rag_enterprise.Indexing.Models.{Embedding}
use rag_enterprise.Indexing.Repositories.Embeddings.{
  of_chunk, same_generation, is_refused, max_generation, next_generation, stale_vector, add,
}

-- No two rows have the same chunk, model and generation.
unfoldable pub distinct : List Embedding → Bool
distinct [] = true
distinct (e ∷ es) = all_rows (λ x. not (same_generation e x)) es && distinct es

abbrev pub HasGenerations : Database → Type 0
HasGenerations db = distinct db.embeddings ≡ true

pub distinct-update_rows :
    (q : Embedding → Bool) (es : List Embedding)
    → distinct es ≡ true
    → distinct (update_rows q stale_vector es) ≡ true
unfolding distinct update_rows
distinct-update_rows q [] h = refl
distinct-update_rows q (e ∷ es) h = ground (
  arith,
  all_rows-update_rows (λ x. not (same_generation e x)) q stale_vector es (λ x k _. k),
  distinct-update_rows q es,
)

distinct-append :
    (es : List Embedding) (new : Embedding)
    → any_row (same_generation new) es ≡ false
    → distinct es ≡ true
    → distinct (es ++ new ∷ []) ≡ true
unfolding distinct any_row all_rows
distinct-append [] new g h = refl
distinct-append (e ∷ es) new g h =
    ground (arith, all_rows-append (λ x. not (same_generation e x)) es new, distinct-append es new)

-- A generation above those of the chunk and the model is new.
above_max :
    (es : List Embedding) (new : Embedding)
    → max_generation (rows_where (of_chunk new.chunk_id new.embedding_model_id) es) < new.generation
    → any_row (same_generation new) es ≡ false
unfolding max_generation rows_where any_row
above_max [] new h = refl
above_max (e ∷ es) new h = ground (arith, above_max es new)

-- The next generation is never refused.
pub is_refused-next_generation :
    (new : Embedding) (db : Database)
    → next_generation new.chunk_id new.embedding_model_id db ≡ new.generation
    → is_refused new db ≡ false
unfolding is_refused next_generation
is_refused-next_generation new db h = above_max db.embeddings new (omega (arith, h))

pub add-HasGenerations :
    (new : Embedding) (db : Database)
    → is_refused new db ≡ false
    → HasGenerations db
    → HasGenerations (add new db)
unfolding is_refused add
add-HasGenerations new db = distinct-append db.embeddings new
