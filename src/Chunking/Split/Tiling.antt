-- ===== src/Chunking/Split/Tiling.antt =====
-- `_split_span`: how the pieces of a span lie in it, and their length.
use rag_enterprise.Prelude.{
  ℕ, zero, suc, ◌+◌, ◌-◌, ◌≤◌, ◌<◌, ◌≡◌, refl, Bool, true, false, Option, none, some, List, [], ◌∷◌,
  arith, min, ◌==◌, ==_iff, lt→ltb, Bool-cases, inl, inr, leb, leb→le, if◌then◌else◌,
}
use native.Mathlib.Nat.{add-zero}
use rag_enterprise.Prelude.Text.{Str}
use rag_enterprise.Chunking.Breaks.{choose_break, choose_break-le, rfind-lt}
use rag_enterprise.Chunking.Split.{
  Span, beyond, soft_break, pick_break, break_of, next_cursor, Job, job_of, extent, split_loop,
  split_span,
}

-- The pieces run from `start` to `stop`: each ends behind its start, within `size` of it and
-- not behind `stop`, the next
-- one starts behind its start and not behind its end, and the last one ends at `stop`.
abbrev pub Tiles : (start stop size : ℕ) → List Span → Type 0
Tiles start stop size [] = ⊥
Tiles start stop size ((s, e, o) ∷ []) = (s ≡ start) × (e ≡ stop) × (s < e) × (e ≤ s + size)
Tiles start stop size ((s, e, o) ∷ (s', e', o') ∷ rest) =
    (s ≡ start)
    × (s < e)
    × (e ≤ s + size)
    × (e ≤ stop)
    × (s < s')
    × (s' ≤ e)
    × Tiles s' stop size ((s', e', o') ∷ rest)

soft_break_bounds :
    (region : Str) (floor cursor hard k : ℕ)
    → soft_break region floor cursor hard ≡ some k
    → (cursor < k) × (k < hard)
unfolding soft_break
soft_break_bounds region floor cursor hard k e = ground (
  arith,
  rfind-lt b' ' region floor hard k,
  rfind-lt 10 region (cursor + 1) hard k,
  rfind-lt b' ' region (cursor + 1) hard k,
)

pick_break_bounds :
    (chosen soft : Option ℕ) (cursor hard : ℕ)
    → cursor < hard
    → ((b : ℕ) → chosen ≡ some b → b ≤ hard)
    → ((k : ℕ) → soft ≡ some k → (cursor < k) × (k < hard))
    → (cursor < pick_break (beyond cursor chosen) soft hard)
      × (pick_break (beyond cursor chosen) soft hard ≤ hard)
pick_break_bounds none none cursor hard h p q = ground arith
pick_break_bounds none (some k) cursor hard h p q = ground (arith, q k refl)
pick_break_bounds (some b) none cursor hard h p q = ground (arith, p b refl)
pick_break_bounds (some b) (some k) cursor hard h p q = ground (arith, p b refl, q k refl)

break_of_bounds :
    (region : Str) (breaks : List ℕ) (floor cursor hard : ℕ)
    → cursor < hard
    → (cursor < break_of region breaks floor cursor hard)
      × (break_of region breaks floor cursor hard ≤ hard)
unfolding break_of
break_of_bounds region breaks floor cursor hard h =
    pick_break_bounds (choose_break breaks floor hard) (soft_break region floor cursor hard) cursor
      hard h (choose_break-le breaks floor hard) (soft_break_bounds region floor cursor hard)

next_cursor_bounds :
    (overlap_chars cursor break_at : ℕ)
    → cursor < break_at
    → (cursor < next_cursor overlap_chars cursor break_at)
      × (next_cursor overlap_chars cursor break_at ≤ break_at)
unfolding next_cursor
next_cursor_bounds o cursor b h = ground arith

-- The first piece of a run, and the rest.
Tiles-cons :
    (start stop size e o : ℕ) (next : ℕ) (rest : List Span)
    → start < e
    → e ≤ start + size
    → e ≤ stop
    → start < next
    → next ≤ e
    → Tiles next stop size rest
    → Tiles start stop size ((start, e, o) ∷ rest)
Tiles-cons start stop size e o next [] a b q c d t = absurd t
Tiles-cons start stop size e o next ((s', e', o') ∷ []) a b q c d t =
    (refl, a, b, q, omega arith, omega arith, (refl, t.1, omega arith, omega arith))
Tiles-cons start stop size e o next ((s', e', o') ∷ p ∷ ps) a b q c d t =
    (refl, a, b, q, omega arith, omega arith, (refl, t.1, t.2, t.3, t.4, t.5, t.6))

min_lt : (a b : ℕ) → (min a b == b) ≡ false → (min a b < b) × (min a b ≡ a)
min_lt a b h = ground arith

-- With fuel for what is left, the loop tiles what is left.
split_loop-Tiles :
    (fuel : ℕ) (j : Job) (first : Bool) (cursor : ℕ)
    → 0 < j.size
    → cursor < extent j
    → extent j ≤ cursor + fuel
    → Tiles (j.start + cursor) j.stop j.size (split_loop fuel j first cursor)
unfolding split_loop
split_loop-Tiles zero j first cursor z h f = absurd (omega arith)
split_loop-Tiles (suc fuel) j first cursor z h f =
    let hard = min (cursor + j.size) (extent j) in
    let b = break_of j.region j.breaks (cursor + j.ahead) cursor hard in
    let b_bounds = break_of_bounds j.region j.breaks (cursor + j.ahead) cursor hard (omega arith) in
    let next = next_cursor j.overlap_chars cursor b in
    let next_bounds = next_cursor_bounds j.overlap_chars cursor b b_bounds.0 in
    rw (lt→ltb cursor (extent j) h) (elim (Bool-cases (hard == extent j)) [
      | inl at_end ↦
          let e = (==_iff hard (extent j)).0 at_end in
          rw at_end (refl, refl, omega arith, omega arith)
      | inr before ↦
          let within = min_lt (cursor + j.size) (extent j) before in
          rw before (
            Tiles-cons (j.start + cursor) j.stop j.size (j.start + b)
              (if first then 0 else min j.overlap_chars (b - cursor)) (j.start + next) _
              (omega arith) (omega arith) (omega arith) (omega arith) (omega arith)
              (split_loop-Tiles fuel j false next z (omega arith) (omega arith)))
    ])

module _ (candidate_breaks : Bool → Str → List ℕ) (seven_tenths : ℕ → ℕ) where
  -- Whatever the candidate breaks are, the pieces of a span that is not empty begin at its start, end
  -- at its end, leave no gap, move forward, and none has more than `max_chunk_chars` characters, if
  -- that is not 0. So the loop has ended by its test, within the fuel.
  pub split_span-Tiles :
      (text : Str) (start stop size overlap_chars : ℕ) (prefer_list_breaks : Bool)
      → 0 < size
      → start < stop
      → Tiles start stop size (
          split_span candidate_breaks seven_tenths text start stop size overlap_chars
            prefer_list_breaks)
  unfolding split_span
  split_span-Tiles text start stop size overlap_chars prefer z h =
      elim (Bool-cases (leb (stop - start) size)) [
        | inl short ↦ rw short (refl, refl, h, omega (arith, leb→le (stop - start) size short))
        | inr long ↦ rw long (
            rw (add-zero start) at (
              split_loop-Tiles (stop - start)
                (job_of candidate_breaks seven_tenths text start stop size overlap_chars prefer)
                true 0 z (omega arith) (omega arith)))
      ]
