-- ===== src/Indexing/Embedding.antt =====
-- indexing/service.py: `_embed_texts`, `_embed_single_with_retries` and `_embed_batch_with_split`.
-- The embedding provider is a parameter. Its answer may depend on how many calls it has had, so that
-- it may fail and succeed on the same texts.
pub mod Splitting
use rag_enterprise.Prelude.{ℕ, zero, suc, ◌+◌, ◌/◌, List, [], ◌∷◌, ◌++◌, map, length, take, drop}
use rag_enterprise.Prelude.Text.{Str, codes}
use rag_enterprise.Indexing.Models.{Chunk, Vector}
use rag_enterprise.Indexing.Session.{
  Session, Action, Failure, indexing_error, other_error, embedding_timeout, model_unavailable,
  partial_embedding_failure, pure, throw, fail, try_except, ◌>>=◌,
}

-- What `asyncio.wait_for(provider.embed_texts(texts), timeout)` comes to.
pub data Reply : Type 0 where
  vectors : List Vector → Reply
  timed_out : Reply
  unavailable : Str → Reply
  broken : Str → Reply

pub record Provider : Type 0 where
  pub model_key : Str
  pub dimensions : ℕ
  pub reply : (calls : ℕ) → List Str → Reply

-- The reply, with the exceptions that `_embed_texts` makes of it.
unfoldable pub receive : Reply → Action (List Vector)
receive (vectors vs) = pure vs
receive timed_out = fail embedding_timeout (codes "Embedding batch timed out")
receive (unavailable message) = fail model_unavailable message
receive (broken message) = fail model_unavailable message

unfoldable pub embed_texts : Provider → List Str → Action (List Vector)
unfolding receive
embed_texts provider texts s =
    receive (provider.reply s.calls texts) (record s { calls = s.calls + 1 })

abbrev pub texts_of : List Chunk → List Str
texts_of = map (λ c. c.text)

-- `raise last_error`, or its message in an error of the service.
unfoldable pub raise_last : Failure → Action (List Vector)
raise_last (indexing_error e) = throw (indexing_error e)
raise_last (other_error message) = fail partial_embedding_failure message

-- The loop, for the number of attempts after this one.
unfoldable pub attempt_single : (more : ℕ) → Provider → Chunk → Action (List Vector)
unfolding embed_texts raise_last
attempt_single zero provider chunk = try_except (embed_texts provider (chunk.text ∷ [])) raise_last
attempt_single (suc more) provider chunk =
    try_except (embed_texts provider (chunk.text ∷ [])) (λ _. attempt_single more provider chunk)

unfoldable pub embed_single_with_retries : Provider → Chunk → Action (List Vector)
unfolding attempt_single
embed_single_with_retries = attempt_single 2

-- On fuel: each recursive call has a shorter batch.
unfoldable pub embed_batch : (fuel : ℕ) → Provider → List Chunk → Action (List Vector)
unfolding embed_texts embed_single_with_retries
embed_batch zero provider batch = throw (other_error [])
embed_batch (suc fuel) provider [] = try_except (embed_texts provider []) throw
embed_batch (suc fuel) provider (c ∷ []) =
    try_except (embed_texts provider (c.text ∷ [])) (λ _. embed_single_with_retries provider c)
embed_batch (suc fuel) provider (c ∷ d ∷ batch) =
    let mid = length (c ∷ d ∷ batch) / 2 in
    try_except (embed_texts provider (texts_of (c ∷ d ∷ batch))) λ _. do
      left ← embed_batch fuel provider (take mid (c ∷ d ∷ batch))
      right ← embed_batch fuel provider (drop mid (c ∷ d ∷ batch))
      pure (left ++ right)

unfoldable pub embed_batch_with_split : Provider → List Chunk → Action (List Vector)
unfolding embed_batch
embed_batch_with_split provider batch = embed_batch (suc (length batch)) provider batch
