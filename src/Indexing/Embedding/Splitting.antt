-- ===== src/Indexing/Embedding/Splitting.antt =====
-- indexing/service.py: `_embed_batch_with_split`, for a provider that embeds a text by itself.
use rag_enterprise.Prelude.{
  ℕ, zero, suc, ◌+◌, ◌-◌, ◌/◌, ◌≤◌, ◌<◌, ◌≡◌, refl, ap, List, [], ◌∷◌, ◌++◌, arith, map, length,
  take, drop,
}
use rag_enterprise.Prelude.Text.{Str}
use rag_enterprise.Indexing.Models.{Chunk, Vector}
use rag_enterprise.Indexing.Session.{
  Session, Action, Failure, ok, pure, fail, throw, try_except, ◌>>=◌,
}
use rag_enterprise.Indexing.Embedding.{
  Provider, Reply, vectors, timed_out, unavailable, broken, receive, embed_texts, texts_of,
  raise_last, attempt_single, embed_single_with_retries, embed_batch, embed_batch_with_split,
}

-- A text has one vector, whichever call embeds it and whatever else is in the call; of three calls in
-- a row with one text, one is answered; a call with more texts may fail at any time.
pub record EmbedsEach (provider : Provider) (vector : Str → Vector) : Type 0 where
  pub right :
      (n : ℕ) (texts : List Str) (vs : List Vector)
      → provider.reply n texts ≡ vectors vs
      → vs ≡ map vector texts
  pub single :
      (n : ℕ) (t : Str)
      → (k : ℕ) × (k ≤ 2) × (provider.reply (n + k) (t ∷ []) ≡ vectors (vector t ∷ []))
  pub empty : (n : ℕ) → provider.reply n [] ≡ vectors []

try_receive :
    (r : Reply) (h : Failure → Action (List Vector)) (s : Session) (goal : List Vector)
    → ((vs : List Vector) → r ≡ vectors vs → vs ≡ goal)
    → ((f : Failure) → (h f s).0 ≡ ok goal)
    → (try_except (receive r) h s).0 ≡ ok goal
unfolding try_except receive pure fail throw
try_receive (vectors vs) h s goal k m = ap ok (k vs refl)
try_receive timed_out h s goal k m = m _
try_receive (unavailable message) h s goal k m = m _
try_receive (broken message) h s goal k m = m _

length-take_lt : {A : Type 0} (n : ℕ) (xs : List A) (b : ℕ) → n < b → length (take n xs) < b
length-take_lt zero xs b h = h
length-take_lt (suc n) [] b h = omega arith
length-take_lt (suc n) (x ∷ xs) zero h = absurd (omega arith)
length-take_lt (suc n) (x ∷ xs) (suc b) h = omega (arith, length-take_lt n xs b)

length-drop : {A : Type 0} (n : ℕ) (xs : List A) → length (drop n xs) ≡ length xs - n
length-drop zero xs = omega arith
length-drop (suc n) [] = omega arith
length-drop (suc n) (x ∷ xs) = omega (arith, length-drop n xs)

map-take-drop :
    (vector : Str → Vector) (n : ℕ) (batch : List Chunk)
    → map vector (texts_of (take n batch)) ++ map vector (texts_of (drop n batch))
      ≡ map vector (texts_of batch)
map-take-drop vector zero batch = refl
map-take-drop vector (suc n) [] = refl
map-take-drop vector (suc n) (c ∷ cs) = ap (◌∷◌ (vector c.text)) (map-take-drop vector n cs)

module _ (provider : Provider) (vector : Str → Vector) (each : EmbedsEach provider vector) where
  -- A call whose failure is handled well.
  try_embed_texts :
      (texts : List Str) (h : Failure → Action (List Vector)) (s : Session)
      → ((f : Failure) → (h f (record s { calls = s.calls + 1 })).0 ≡ ok (map vector texts))
      → (try_except (embed_texts provider texts) h s).0 ≡ ok (map vector texts)
  unfolding embed_texts try_except
  try_embed_texts texts h s m =
      try_receive (provider.reply s.calls texts) h (record s { calls = s.calls + 1 })
        (map vector texts) (each.right s.calls texts) m

  -- A call that is answered.
  try_embed_now :
      (texts : List Str) (h : Failure → Action (List Vector)) (s : Session)
      → provider.reply s.calls texts ≡ vectors (map vector texts)
      → (try_except (embed_texts provider texts) h s).0 ≡ ok (map vector texts)
  unfolding embed_texts try_except receive pure
  try_embed_now texts h s e = rw e refl

  attempt_single_answered :
      (more k : ℕ) (c : Chunk) (s : Session)
      → k ≤ more
      → provider.reply (s.calls + k) (c.text ∷ []) ≡ vectors (vector c.text ∷ [])
      → (attempt_single more provider c s).0 ≡ ok (vector c.text ∷ [])
  unfolding attempt_single
  attempt_single_answered zero k c s b e =
      let now : s.calls + k ≡ s.calls = omega arith in
      try_embed_now (c.text ∷ []) raise_last s (rw (← now) e)
  attempt_single_answered (suc more) zero c s b e =
      let now : s.calls + 0 ≡ s.calls = omega arith in
      try_embed_now (c.text ∷ []) (λ _. attempt_single more provider c) s (rw (← now) e)
  attempt_single_answered (suc more) (suc k) c s b e =
      let next : s.calls + suc k ≡ (s.calls + 1) + k = omega arith in
      try_embed_texts (c.text ∷ []) (λ _. attempt_single more provider c) s
        λ _.
          attempt_single_answered more k c (record s { calls = s.calls + 1 }) (omega arith)
            (rw (← next) e)

  embed_single_answered :
      (c : Chunk) (s : Session)
      → (embed_single_with_retries provider c s).0 ≡ ok (vector c.text ∷ [])
  unfolding embed_single_with_retries
  embed_single_answered c s =
      let (k, b, e) = each.single s.calls c.text in attempt_single_answered 2 k c s b e

  -- Both halves, in their order.
  halves_answered :
      (fuel mid : ℕ) (batch : List Chunk) (s : Session)
      → ((s' : Session)
          → (embed_batch fuel provider (take mid batch) s').0
            ≡ ok (map vector (texts_of (take mid batch))))
      → ((s' : Session)
          → (embed_batch fuel provider (drop mid batch) s').0
            ≡ ok (map vector (texts_of (drop mid batch))))
      → ((embed_batch fuel provider (take mid batch) >>= λ left.
            embed_batch fuel provider (drop mid batch) >>= λ right. pure (left ++ right))
          s).0
        ≡ ok (map vector (texts_of batch))
  unfolding ◌>>=◌ pure
  halves_answered fuel mid batch s l r =
      rw (l s, r (embed_batch fuel provider (take mid batch) s).1)
        (ap ok (map-take-drop vector mid batch))

  -- The fuel is more than the chunks.
  embed_batch_answered :
      (fuel : ℕ) (batch : List Chunk) (s : Session)
      → length batch < fuel
      → (embed_batch fuel provider batch s).0 ≡ ok (map vector (texts_of batch))
  unfolding embed_batch
  embed_batch_answered zero batch s b = absurd (omega arith)
  embed_batch_answered (suc fuel) [] s b = try_embed_now [] throw s (each.empty s.calls)
  embed_batch_answered (suc fuel) (c ∷ []) s b =
      try_embed_texts (c.text ∷ []) _ s λ _. embed_single_answered c _
  embed_batch_answered (suc fuel) (c ∷ d ∷ batch) s b =
      let whole = c ∷ d ∷ batch in
      let mid = length whole / 2 in
      try_embed_texts (texts_of whole) _ s λ _.
        halves_answered fuel mid whole (record s { calls = s.calls + 1 })
          (λ s'.
            embed_batch_answered fuel (take mid whole) s'
              (length-take_lt mid whole fuel (omega arith)))
          (λ s'.
            embed_batch_answered fuel (drop mid whole) s' (omega (arith, length-drop mid whole)))

-- A batch has the vector of each of its texts, in their order, however its calls with more texts fail, if
-- of three calls in a row with one text one is answered.
pub embed_batch_with_split-map :
    (provider : Provider) (vector : Str → Vector)
    → EmbedsEach provider vector
    → (batch : List Chunk) (s : Session)
    → (embed_batch_with_split provider batch s).0 ≡ ok (map vector (texts_of batch))
unfolding embed_batch_with_split
embed_batch_with_split-map provider vector each batch s =
    embed_batch_answered provider vector each (suc (length batch)) batch s (omega arith)
