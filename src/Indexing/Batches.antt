-- ===== src/Indexing/Batches.antt =====
-- indexing/service.py: `_iter_batches`.
use rag_enterprise.Prelude.{
  ℕ, ◌+◌, ◌≤◌, ◌≡◌, refl, Bool, true, false, ◌&&◌, ◌||◌, ◌⊎◌, inl, inr, List, [], ◌∷◌, ◌++◌, arith,
  length, leb, ltb, max, All, Bool-cases, length-append, if◌then◌else◌,
}
use mathlib.Core.List.{append_assoc}
use rag_enterprise.Indexing.Models.{Chunk}

pub record BatchLimits : Type 0 where
  pub batch_size : ℕ
  pub max_batch_chars : ℕ

-- The characters of a batch.
abbrev pub chars : List Chunk → ℕ
chars [] = 0
chars (c ∷ cs) = length c.text + chars cs

abbrev is_filled : List Chunk → Bool
is_filled [] = false
is_filled (c ∷ cs) = true

-- `current and (len(current) >= self._batch_size or next_chars > self._max_batch_chars)`
unfoldable pub is_full : BatchLimits → List Chunk → (next_chars : ℕ) → Bool
is_full limits current next_chars =
    is_filled current
    && (leb limits.batch_size (length current) || ltb limits.max_batch_chars next_chars)

-- The loop, with its two variables.
unfoldable pub batches_from : List Chunk → BatchLimits → List Chunk → ℕ → List (List Chunk)
unfolding is_full
batches_from [] limits [] current_chars = []
batches_from [] limits (c ∷ cs) current_chars = (c ∷ cs) ∷ []
batches_from (x ∷ xs) limits current current_chars =
    let flushed = batches_from xs limits (x ∷ []) (length x.text) in
    let grown = batches_from xs limits (current ++ x ∷ []) (current_chars + length x.text) in
    if is_full limits current (current_chars + length x.text) then current ∷ flushed else grown

unfoldable pub iter_batches : BatchLimits → List Chunk → List (List Chunk)
unfolding batches_from
iter_batches limits chunks = batches_from chunks limits [] 0

abbrev pub concat : List (List Chunk) → List Chunk
concat [] = []
concat (b ∷ bs) = b ++ concat bs

batches_from-concat :
    (xs : List Chunk) (limits : BatchLimits) (current : List Chunk) (n : ℕ)
    → concat (batches_from xs limits current n) ≡ current ++ xs
unfolding batches_from
batches_from-concat [] limits [] n = refl
batches_from-concat [] limits (c ∷ cs) n = refl
batches_from-concat (x ∷ xs) limits current n =
    elim (Bool-cases (is_full limits current (n + length x.text))) [
      | inl full ↦ rw (full, batches_from-concat xs limits (x ∷ []) (length x.text)) refl
      | inr room ↦
          rw (room, batches_from-concat xs limits (current ++ x ∷ []) (n + length x.text))
            (append_assoc current (x ∷ []) xs)
    ]

-- The batches, one after the other, are the chunks.
pub iter_batches-concat :
    (limits : BatchLimits) (chunks : List Chunk) → concat (iter_batches limits chunks) ≡ chunks
unfolding iter_batches
iter_batches-concat limits chunks = batches_from-concat chunks limits [] 0

-- A batch has a chunk; it has no more than `batch_size` (one, if that is 0); and its texts have no
-- more than `max_batch_chars`, unless it is one chunk.
pub record IsWithin (limits : BatchLimits) (batch : List Chunk) : Type 0 where
  pub filled : 1 ≤ length batch
  pub sized : length batch ≤ max 1 limits.batch_size
  pub short : (chars batch ≤ limits.max_batch_chars) ⊎ (length batch ≡ 1)

chars-append : (xs ys : List Chunk) → chars (xs ++ ys) ≡ chars xs + chars ys
chars-append [] ys = omega arith
chars-append (x ∷ xs) ys = omega (arith, chars-append xs ys)

one-IsWithin : (limits : BatchLimits) (x : Chunk) → IsWithin limits (x ∷ [])
one-IsWithin limits x = record { filled = omega arith; sized = omega arith; short = inr refl }

-- A batch that is not full takes one more.
grown-IsWithin :
    (limits : BatchLimits) (c : Chunk) (cs : List Chunk) (x : Chunk)
    → is_full limits (c ∷ cs) (chars (c ∷ cs) + length x.text) ≡ false
    → IsWithin limits ((c ∷ cs) ++ x ∷ [])
unfolding is_full
grown-IsWithin limits c cs x room = record {
  filled = omega (arith, length-append cs (x ∷ []));
  sized = ground (arith, length-append cs (x ∷ []));
  short = inl (ground (arith, chars-append cs (x ∷ [])));
}

batches_from-AllWithin :
    (xs : List Chunk) (limits : BatchLimits) (c : Chunk) (cs : List Chunk) (n : ℕ)
    → n ≡ chars (c ∷ cs)
    → IsWithin limits (c ∷ cs)
    → All (IsWithin limits) (batches_from xs limits (c ∷ cs) n)
unfolding batches_from
batches_from-AllWithin [] limits c cs n e w = (w, tt)
batches_from-AllWithin (x ∷ xs) limits c cs n e w =
    elim (Bool-cases (is_full limits (c ∷ cs) (n + length x.text))) [
      | inl full ↦ rw full (
        w,
        batches_from-AllWithin xs limits x [] (length x.text) (omega arith) (one-IsWithin limits x),
      )
      | inr room ↦ rw room (
          batches_from-AllWithin xs limits c (cs ++ x ∷ []) (n + length x.text)
            (omega (arith, chars-append cs (x ∷ [])))
            (grown-IsWithin limits c cs x (rw (← e) room)))
    ]

-- Every batch has a chunk; it has no more than `batch_size`, or one; and its texts have no more than
-- `max_batch_chars`, unless it is one chunk.
pub iter_batches-AllWithin :
    (limits : BatchLimits) (chunks : List Chunk)
    → All (IsWithin limits) (iter_batches limits chunks)
unfolding iter_batches batches_from is_full
iter_batches-AllWithin limits [] = tt
iter_batches-AllWithin limits (x ∷ xs) =
    batches_from-AllWithin xs limits x [] (0 + length x.text) (omega arith) (one-IsWithin limits x)
