-- ===== src/Indexing/Examples.antt =====
-- The theorems on the indexing service, at concrete inputs.
use rag_enterprise.Prelude.{
  ℕ, ◌≡◌, refl, false, true, List, [], ◌∷◌, arith, map, All, scalar, any_row, all_rows, rows_where,
  update_rows,
}
use rag_enterprise.Prelude.Text.{Str, str_eq, codes}
use rag_enterprise.Indexing.Models.{Vector}
use rag_enterprise.Indexing.Session.{
  Session, ok, indexing_error, model_unavailable, in_session, ◌>>=◌, query, execute, commit, pure,
  throw, fail, try_except,
}
use rag_enterprise.Indexing.Batches.{iter_batches}
use rag_enterprise.Indexing.Embedding.{vectors, texts_of, embed_batch_with_split}
use rag_enterprise.Indexing.Embedding.Splitting.{EmbedsEach, embed_batch_with_split-map}
use rag_enterprise.Indexing.Repositories.Chunks.{list_for_version}
use rag_enterprise.Indexing.Repositories.Versions.{get_version, set_version}
use rag_enterprise.Indexing.Repositories.Chunks.{order_by_sequence, insert_by_sequence, set_indexed}
use rag_enterprise.Indexing.Repositories.Embeddings.{
  find_active_match, is_refused, next_generation, max_generation, add, is_active_match,
  mark_stale_for_chunk_model,
}
use rag_enterprise.Indexing.Batches.{batches_from, is_full}
use rag_enterprise.Indexing.Embedding.{
  embed_batch, embed_single_with_retries, attempt_single, embed_texts, receive, raise_last,
}
use rag_enterprise.Indexing.Service.{
  persist_vectors, persist_vector, store_vector, insert_embedding, retire, new_embedding,
  active_match, persist_batches, embed_and_persist_batch,
}
use rag_enterprise.Indexing.Service.Attempts.{
  attempt, index_found, index_version, start_indexing, index_chunks, select_pending, index_pending,
  after_last, after_early, give_up, unmatched, finish, result_of,
}
use rag_enterprise.Indexing.Generations.{HasGenerations, distinct}
use rag_enterprise.Indexing.Generations.Storing.{IsStored, store_vector-IsStored}
use rag_enterprise.Indexing.Service.Attempts.{index_once, run_with_retries}
use rag_enterprise.Indexing.Coverage.{IsHeld}
use rag_enterprise.Indexing.Completion.Failing.{HasKeys}
use rag_enterprise.Indexing.Completion.Retries.{IsFailed, run_with_retries-IsFailed}
use rag_enterprise.Indexing.Completion.Indexed.{HasLinks, index_once-IsHeld}
use rag_enterprise.Indexing.Superseding.Settled.{AreSettled, index_once-AreSettled}
use rag_enterprise.Indexing.Completion.Live.{IsServing, IsComplete, run_with_retries-IsComplete}
use rag_enterprise.Indexing.Batches.{concat, IsWithin, iter_batches-concat, iter_batches-AllWithin}
use rag_enterprise.Indexing.Samples.{
  chunked_version, first_chunk, second_chunk, chunked_db, chunked_world, chunked_session,
  length_vector, small_provider, one_by_one, indexing_env, failing_env,
}

one_by_one_right :
    (n : ℕ) (texts : List Str) (vs : List Vector)
    → one_by_one n texts ≡ vectors vs
    → vs ≡ map length_vector texts
one_by_one_right n [] vs e = cc
one_by_one_right n (t ∷ []) vs e = cc
one_by_one_right n (t ∷ u ∷ ts) vs e = cc

small_provider-EmbedsEach : EmbedsEach small_provider length_vector
small_provider-EmbedsEach = record {
  right = one_by_one_right;
  single = λ n t. (0, omega arith, refl);
  empty = λ n. refl;
}

indexing_env-IsServing : IsServing indexing_env length_vector
indexing_env-IsServing = record { each = small_provider-EmbedsEach; fit = λ t. refl }

chunked_keys : HasKeys chunked_db
unfolding scalar
chunked_keys = (refl, (refl, tt))

chunked_links : HasLinks chunked_db
unfolding all_rows
chunked_links = (refl, (refl, tt))

iter_batches-concat_example :
    concat (iter_batches indexing_env.limits (first_chunk ∷ second_chunk ∷ first_chunk ∷ []))
    ≡ first_chunk ∷ second_chunk ∷ first_chunk ∷ []
iter_batches-concat_example =
    iter_batches-concat indexing_env.limits (first_chunk ∷ second_chunk ∷ first_chunk ∷ [])

iter_batches-AllWithin_example :
    All
      (IsWithin indexing_env.limits)
      (iter_batches indexing_env.limits (first_chunk ∷ second_chunk ∷ first_chunk ∷ []))
iter_batches-AllWithin_example =
    iter_batches-AllWithin indexing_env.limits (first_chunk ∷ second_chunk ∷ first_chunk ∷ [])

embed_batch_with_split-map_example :
    (embed_batch_with_split small_provider (first_chunk ∷ second_chunk ∷ []) chunked_session).0
    ≡ ok (map length_vector (texts_of (first_chunk ∷ second_chunk ∷ [])))
embed_batch_with_split-map_example =
    embed_batch_with_split-map small_provider length_vector small_provider-EmbedsEach
      (first_chunk ∷ second_chunk ∷ []) chunked_session

-- The chunk has an embedding of the first generation.
abbrev stored_session : Session
stored_session =
    (store_vector indexing_env false chunked_version first_chunk (1 ∷ []) chunked_session).1

store_vector-IsStored_example :
    IsStored indexing_env true first_chunk
      (2 ∷ [])
      stored_session.working
      (store_vector indexing_env true chunked_version first_chunk (2 ∷ []) stored_session).0
      (store_vector indexing_env true chunked_version first_chunk (2 ∷ []) stored_session).1.working
    × HasGenerations
        (store_vector indexing_env true chunked_version first_chunk
          (2 ∷ [])
          stored_session).1.working
unfolding distinct
store_vector-IsStored_example =
    store_vector-IsStored indexing_env true chunked_version first_chunk (2 ∷ []) stored_session
      (store_vector-IsStored indexing_env false chunked_version first_chunk (1 ∷ []) chunked_session
        refl).1

run_with_retries-IsFailed_example :
    IsFailed 50 chunked_db
      (run_with_retries failing_env false 50 chunked_world).0
      (run_with_retries failing_env false 50 chunked_world).1.db
unfolding run_with_retries attempt in_session index_once index_found index_version start_indexing
    index_chunks select_pending index_pending persist_batches embed_and_persist_batch
    embed_batch_with_split embed_batch embed_single_with_retries attempt_single embed_texts receive
    raise_last try_except after_last after_early give_up query execute pure fail throw get_version
    set_version scalar update_rows rows_where list_for_version order_by_sequence insert_by_sequence
    iter_batches batches_from is_full find_active_match active_match ◌>>=◌
run_with_retries-IsFailed_example =
    run_with_retries-IsFailed failing_env false 50 chunked_world
      (indexing_error (record { code = model_unavailable; message = codes "down" })) chunked_keys
      refl

run_with_retries-IsComplete_example :
    IsComplete indexing_env 50 2 (run_with_retries indexing_env false 50 chunked_world).0
unfolding list_for_version scalar get_version rows_where
run_with_retries-IsComplete_example =
    run_with_retries-IsComplete indexing_env length_vector indexing_env-IsServing false 50
      chunked_world chunked_version first_chunk (second_chunk ∷ []) chunked_keys refl refl refl refl

index_once-IsHeld_example :
    All
      (λ c.
        IsHeld indexing_env chunked_version c
          (in_session (index_once indexing_env false 50) chunked_world).1.db)
      (first_chunk ∷ second_chunk ∷ [])
unfolding in_session index_once index_found index_version start_indexing index_chunks select_pending
    index_pending persist_batches embed_and_persist_batch embed_batch_with_split embed_batch
    embed_single_with_retries attempt_single embed_texts receive raise_last try_except query execute
    commit pure fail throw get_version set_version scalar any_row update_rows rows_where
    list_for_version order_by_sequence insert_by_sequence iter_batches batches_from is_full
    find_active_match active_match persist_vectors persist_vector store_vector insert_embedding
    retire is_refused next_generation max_generation new_embedding add set_indexed unmatched
    is_active_match mark_stale_for_chunk_model str_eq finish result_of ◌>>=◌
index_once-IsHeld_example =
    index_once-IsHeld indexing_env false 50 chunked_world chunked_version
      (result_of indexing_env 50 2 0) chunked_keys chunked_links refl refl refl

index_once-AreSettled_example :
    AreSettled chunked_version (in_session (index_once indexing_env false 50) chunked_world).1.db
unfolding in_session index_once index_found index_version start_indexing index_chunks select_pending
    index_pending persist_batches embed_and_persist_batch embed_batch_with_split embed_batch
    embed_single_with_retries attempt_single embed_texts receive raise_last try_except query execute
    commit pure fail throw get_version set_version scalar any_row update_rows rows_where
    list_for_version order_by_sequence insert_by_sequence iter_batches batches_from is_full
    find_active_match active_match persist_vectors persist_vector store_vector insert_embedding
    retire is_refused next_generation max_generation new_embedding add set_indexed unmatched
    is_active_match mark_stale_for_chunk_model str_eq finish result_of ◌>>=◌
index_once-AreSettled_example =
    index_once-AreSettled indexing_env false 50 chunked_world chunked_version
      (result_of indexing_env 50 2 0) chunked_keys refl refl refl
