-- ===== src/Indexing/Coverage/Ensuring.antt =====
-- indexing/service.py: `_embed_and_persist_batch` and the loop over the batches: the chunks that have
-- an active embedding after them.
use rag_enterprise.Prelude.{
  ◌≡◌, refl, Bool, true, List, [], ◌∷◌, ◌==◌, length, All, All-append, Bool-cases, inl, inr,
}
use rag_enterprise.Knowledge.Models.{DocumentVersion}
use rag_enterprise.Indexing.Models.{Chunk, Vector}
use rag_enterprise.Indexing.Session.{
  Session, Outcome, ok, raised, Action, Failure, continue, fail, throw, ◌>>=◌,
}
use rag_enterprise.Indexing.Batches.{concat}
use rag_enterprise.Indexing.Embedding.{embed_batch_with_split}
use rag_enterprise.Indexing.Keeping.{Keeps, Keeps-bind, Keeps-pure}
use rag_enterprise.Indexing.Service.{
  Env, wrong_length, persist_vector, persist_vectors, embed_and_persist_batch, persist_batches,
}
use rag_enterprise.Indexing.Service.Rounds.{
  All-left, All-right, Keeps-persist_vectors, Keeps-persist_batches,
}
use rag_enterprise.Indexing.Coverage.{IsHeld, store_vector_lem, stored_same, stored_other}

pub record Ensures {A : Type 0} (P : Session → Type 0) (m : Action A) : Type 0 where
  pub at : (s : Session) (a : A) → (m s).0 ≡ ok a → P (m s).1

module _ {A B : Type 0} (P : Session → Type 0) where
  continue_ensures :
      (r : Outcome A) (f : A → Action B) (s : Session) (b : B)
      → ((a : A) → Ensures P (f a))
      → (continue r f s).0 ≡ ok b
      → P (continue r f s).1
  continue_ensures (ok a) f s b k e = (k a).at s b e
  continue_ensures (raised x) f s b k e = cc

  pub Ensures-then :
      (m : Action A) (f : A → Action B) → ((a : A) → Ensures P (f a)) → Ensures P (m >>= f)
  unfolding ◌>>=◌
  Ensures-then m f k = record { at = λ s b e. let (r, s') = m s in continue_ensures r f s' b k e }

  continue_kept :
      (r : Outcome A) (f : A → Action B) (s : Session) (b : B)
      → ((a : A) → r ≡ ok a → P s)
      → ((a : A) → Keeps P (f a))
      → (continue r f s).0 ≡ ok b
      → P (continue r f s).1
  continue_kept (ok a) f s b p k e = (k a).at s (p a refl)
  continue_kept (raised x) f s b p k e = cc

  pub Ensures-first :
      (m : Action A) (f : A → Action B)
      → Ensures P m
      → ((a : A) → Keeps P (f a))
      → Ensures P (m >>= f)
  unfolding ◌>>=◌
  Ensures-first m f em k = record {
    at = λ s b e. continue_kept (m s).0 f (m s).1 b (λ a q. em.at s a q) k e;
  }

pub All-map :
    (R S : Chunk → Type 0) → ((c : Chunk) → R c → S c) → (cs : List Chunk) → All R cs → All S cs
All-map R S f [] h = tt
All-map R S f (c ∷ cs) h = (f c h.0, All-map R S f cs h.1)

pub All-both :
    (Q R S : Chunk → Type 0)
    → ((c : Chunk) → Q c → R c → S c)
    → (cs : List Chunk) → All Q cs
    → All R cs
    → All S cs
All-both Q R S f [] q r = tt
All-both Q R S f (c ∷ cs) q r = (f c q.0 r.0, All-both Q R S f cs q.1 r.1)

pub All-any : (R : Chunk → Type 0) → ((c : Chunk) → R c) → (cs : List Chunk) → All R cs
All-any R f [] = tt
All-any R f (c ∷ cs) = (f c, All-any R f cs)

Ensures-throw : {A : Type 0} (P : Session → Type 0) (f : Failure) → Ensures {A = A} P (throw f)
unfolding throw
Ensures-throw P f = record { at = λ s a e. cc }

-- Two rows of the table are one if they have one identifier.
pub record AreKeyed (K : Chunk → Type 0) : Type 0 where
  pub same :
      (c d : Chunk)
      → K c
      → K d
      → (d.id == c.id) ≡ true
      → (d.id ≡ c.id) × (d.content_hash ≡ c.content_hash)

module _ (env : Env) (force : Bool) (version : DocumentVersion) (K : Chunk → Type 0)
    (keyed : AreKeyed K) where
  abbrev Held : Chunk → Session → Type 0
  Held c s = IsHeld env version c s.working

  -- A round keeps the embedding of every chunk of the table, and makes that of its own.
  one_vector :
      (c d : Chunk) (v : Vector) → K c → K d → Keeps (Held c) (persist_vector env force version d v)
  unfolding persist_vector wrong_length fail throw
  one_vector c d v kc kd = record {
    at = λ s h. elim (Bool-cases (length v == env.provider.dimensions)) [
      | inr wrong ↦ rw wrong h
      | inl right ↦
          rw (right, store_vector_lem env force version d v s)
            (elim (Bool-cases (d.id == c.id)) [
              | inl e ↦
                  let (same, hash) = keyed.same c d kc kd e in
                  stored_same env force version c d v s.working same hash
              | inr other ↦ stored_other env force version c d v s.working other h
            ])
    ];
  }

  own_vector : (c : Chunk) (v : Vector) → Ensures (Held c) (persist_vector env force version c v)
  unfolding persist_vector wrong_length fail throw
  own_vector c v = record {
    at = λ s a q. elim (Bool-cases (length v == env.provider.dimensions)) [
      | inr wrong ↦ cc
      | inl right ↦
          rw (right, store_vector_lem env force version c v s)
            (stored_same env force version c c v s.working refl refl)
    ];
  }

  pub persist_vectors-Held :
      (cs : List Chunk) (vs : List Vector)
      → All K cs
      → All (λ c. Ensures (Held c) (persist_vectors env force version cs vs)) cs
  unfolding persist_vectors
  persist_vectors-Held [] vs k = tt
  persist_vectors-Held (c ∷ cs) [] k =
      All-any (λ x. Ensures (Held x) (persist_vectors env force version (c ∷ cs) []))
        (λ x. Ensures-throw (Held x) _) (c ∷ cs)
  persist_vectors-Held (c ∷ cs) (v ∷ vs) k = (
    Ensures-first (Held c) (persist_vector env force version c v) _ (own_vector c v) (λ _.
        Keeps-bind (Held c) (persist_vectors env force version cs vs) _
          (Keeps-persist_vectors (Held c) K env force version (λ s n h. h)
            (λ d w. one_vector c d w k.0) cs vs k.1)
          (λ n. Keeps-pure (Held c) _)),
    All-map _ _
        (λ x h. Ensures-then (Held x) (persist_vector env force version c v) _ λ _.
          Ensures-first (Held x) (persist_vectors env force version cs vs) _ h
            (λ n. Keeps-pure (Held x) _))
        cs (persist_vectors-Held cs vs k.1),
  )

  batch-Held :
      (cs : List Chunk)
      → All K cs
      → All (λ c. Ensures (Held c) (embed_and_persist_batch env force version cs)) cs
  unfolding embed_and_persist_batch
  batch-Held cs k = go cs cs (λ vs. persist_vectors-Held cs vs k)
    where
      go :
          (bs ds : List Chunk)
          → ((vs : List Vector)
              → All (λ c. Ensures (Held c) (persist_vectors env force version bs vs)) ds)
          → All
              (λ c.
                Ensures
                  (Held c)
                  (embed_batch_with_split env.provider bs >>= persist_vectors env force version bs))
              ds
      go bs [] h = tt
      go bs (d ∷ ds) h = (
        Ensures-then (Held d) (embed_batch_with_split env.provider bs) _ (λ vs. (h vs).0),
        go bs ds (λ vs. (h vs).1),
      )

  -- The batches keep the embedding of every chunk of the table.
  pub persist_batches-Keeps :
      (c : Chunk) (bs : List (List Chunk))
      → K c
      → All K (concat bs)
      → Keeps (Held c) (persist_batches env force version bs)
  persist_batches-Keeps c bs kc kbs =
      Keeps-persist_batches (Held c) K env force version (λ s n h. h)
        (λ d w kd. one_vector c d w kc kd) bs kbs

  -- Every chunk of the batches is held after they are persisted.
  pub persist_batches-Held :
      (bs : List (List Chunk))
      → All K (concat bs)
      → All (λ c. Ensures (Held c) (persist_batches env force version bs)) (concat bs)
  unfolding persist_batches
  persist_batches-Held [] k = tt
  persist_batches-Held (b ∷ bs) k =
      let kb = All-left K b (concat bs) k in
      let kbs = All-right K b (concat bs) k in
      let whole = persist_batches env force version (b ∷ bs) in
      All-append (λ c. Ensures (Held c) whole) b (concat bs)
        (All-both _ _ _
          (λ c kc h. Ensures-first (Held c) (embed_and_persist_batch env force version b) _ h λ _.
            Keeps-bind (Held c) (persist_batches env force version bs) _
              (persist_batches-Keeps c bs kc kbs) (λ n. Keeps-pure (Held c) _))
          b kb (batch-Held b kb))
        (All-map _ _
          (λ c h. Ensures-then (Held c) (embed_and_persist_batch env force version b) _ λ _.
            Ensures-first (Held c) (persist_batches env force version bs) _ h
              (λ n. Keeps-pure (Held c) _))
          (concat bs) (persist_batches-Held bs kbs))
