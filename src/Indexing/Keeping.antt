-- ===== src/Indexing/Keeping.antt =====
-- What the actions of the indexing service keep: a predicate on the session that holds before an action
-- holds after it, whether it returns or raises.
use rag_enterprise.Prelude.{ℕ, zero, suc, ◌+◌, Bool, true, false, List, [], ◌∷◌, length}
use rag_enterprise.Prelude.Text.{Str}
use rag_enterprise.Knowledge.Models.{Database}
use rag_enterprise.Indexing.Models.{Chunk}
use rag_enterprise.Indexing.Session.{
  Session, Outcome, ok, raised, Action, Failure, indexing_error, other_error, FailureCode, pure,
  throw, fail, query, execute, try_except, handle_failure, continue, ◌>>=◌,
}
use rag_enterprise.Prelude.{if◌then◌else◌}
use rag_enterprise.Indexing.Embedding.{
  Provider, Reply, vectors, timed_out, unavailable, broken, receive, embed_texts, raise_last,
  attempt_single, embed_single_with_retries, embed_batch, embed_batch_with_split,
}

pub record Keeps {A : Type 0} (P : Session → Type 0) (m : Action A) : Type 0 where
  pub at : (s : Session) → P s → P (m s).1

module _ {A : Type 0} (P : Session → Type 0) where
  pub Keeps-pure : (a : A) → Keeps P (pure a)
  unfolding pure
  Keeps-pure a = record { at = λ s h. h }

  pub Keeps-throw : (f : Failure) → Keeps P (throw {A = A} f)
  unfolding throw
  Keeps-throw f = record { at = λ s h. h }

  pub Keeps-fail : (code : FailureCode) (m : Str) → Keeps P (fail {A = A} code m)
  unfolding fail throw
  Keeps-fail code m = record { at = λ s h. h }

  pub Keeps-query : (f : Database → A) → Keeps P (query f)
  unfolding query
  Keeps-query f = record { at = λ s h. h }

  pub Keeps-if : (b : Bool) (m n : Action A) → Keeps P m → Keeps P n → Keeps P (if b then m else n)
  Keeps-if true m n km kn = km
  Keeps-if false m n km kn = kn

  handle_keeps :
      (r : Outcome A) (h : Failure → Action A) (s : Session)
      → ((f : Failure) → Keeps P (h f))
      → P s
      → P (handle_failure h r s).1
  handle_keeps (ok a) h s k p = p
  handle_keeps (raised f) h s k p = (k f).at s p

  pub Keeps-try_except :
      (m : Action A) (h : Failure → Action A)
      → Keeps P m
      → ((f : Failure) → Keeps P (h f))
      → Keeps P (try_except m h)
  unfolding try_except
  Keeps-try_except m h km kh = record {
    at = λ s p. let (r, s') = m s in handle_keeps r h s' kh (km.at s p);
  }

pub Keeps-execute :
    (P : Session → Type 0) (f : Database → Database)
    → ((s : Session) → P s → P (record s { working = f s.working }))
    → Keeps P (execute f)
unfolding execute
Keeps-execute P f k = record { at = k }

module _ {A B : Type 0} (P : Session → Type 0) where
  continue_keeps :
      (r : Outcome A) (f : A → Action B) (s : Session)
      → ((a : A) → Keeps P (f a))
      → P s
      → P (continue r f s).1
  continue_keeps (ok a) f s k p = (k a).at s p
  continue_keeps (raised e) f s k p = p

  pub Keeps-bind :
      (m : Action A) (f : A → Action B) → Keeps P m → ((a : A) → Keeps P (f a)) → Keeps P (m >>= f)
  unfolding ◌>>=◌
  Keeps-bind m f km kf = record {
    at = λ s p. let (r, s') = m s in continue_keeps r f s' kf (km.at s p);
  }

pub ruleset keeping_rules = (
  Keeps-pure, Keeps-throw, Keeps-fail, Keeps-query, Keeps-if, Keeps-try_except, Keeps-execute,
  Keeps-bind,
)

-- A predicate that the calls of the provider do not touch.
module _ (P : Session → Type 0)
    (uncounted : (s : Session) (n : ℕ) → P s → P (record s { calls = n }))
    (provider : Provider) where
  Keeps-receive : (r : Reply) → Keeps P (receive r)
  unfolding receive
  Keeps-receive (vectors vs) = search keeping_rules depth 4
  Keeps-receive timed_out = search keeping_rules depth 4
  Keeps-receive (unavailable m) = search keeping_rules depth 4
  Keeps-receive (broken m) = search keeping_rules depth 4

  Keeps-embed_texts : (texts : List Str) → Keeps P (embed_texts provider texts)
  unfolding embed_texts
  Keeps-embed_texts texts = record {
    at = λ s p. (Keeps-receive (provider.reply s.calls texts)).at _ (uncounted s (s.calls + 1) p);
  }

  Keeps-raise_last : (f : Failure) → Keeps P (raise_last f)
  unfolding raise_last
  Keeps-raise_last (indexing_error e) = search keeping_rules depth 4
  Keeps-raise_last (other_error m) = search keeping_rules depth 4

  Keeps-attempt_single : (more : ℕ) (c : Chunk) → Keeps P (attempt_single more provider c)
  unfolding attempt_single
  Keeps-attempt_single zero c = search (keeping_rules, Keeps-embed_texts, Keeps-raise_last) depth 6
  Keeps-attempt_single (suc more) c =
      Keeps-try_except P _ _ (Keeps-embed_texts _) (λ _. Keeps-attempt_single more c)

  Keeps-embed_batch : (fuel : ℕ) (batch : List Chunk) → Keeps P (embed_batch fuel provider batch)
  unfolding embed_batch embed_single_with_retries
  Keeps-embed_batch zero batch = search keeping_rules depth 4
  Keeps-embed_batch (suc fuel) [] = search (keeping_rules, Keeps-embed_texts) depth 6
  Keeps-embed_batch (suc fuel) (c ∷ []) =
      Keeps-try_except P _ _ (Keeps-embed_texts _) (λ _. Keeps-attempt_single 2 c)
  Keeps-embed_batch (suc fuel) (c ∷ d ∷ batch) =
      search (keeping_rules, Keeps-embed_texts, Keeps-embed_batch fuel) depth 10

  pub Keeps-embed_batch_with_split :
      (batch : List Chunk) → Keeps P (embed_batch_with_split provider batch)
  unfolding embed_batch_with_split
  Keeps-embed_batch_with_split batch = Keeps-embed_batch (suc (length batch)) batch
