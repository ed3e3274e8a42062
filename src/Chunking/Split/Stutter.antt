-- ===== src/Chunking/Split/Stutter.antt =====
-- `_split_span`: a break that lies within the overlap.
use rag_enterprise.Prelude.{
  ℕ, zero, suc, ◌+◌, ◌-◌, ◌≤◌, ◌<◌, ◌≡◌, Bool, true, false, some, List, [], ◌∷◌, arith, min, ◌==◌,
  ==_iff, refl, rows_where, leb, length, lt→ltb,
}
use rag_enterprise.Prelude.Text.{Str}
use rag_enterprise.Chunking.Breaks.{slice, max_where, choose_break}
use rag_enterprise.Chunking.Split.{
  Span, break_of, next_cursor, Job, job_of, extent, split_loop, split_span,
}

choose_break-only :
    (b floor hard : ℕ) → 0 < b → b ≤ hard → choose_break (b ∷ []) floor hard ≡ some b
unfolding choose_break max_where
choose_break-only b floor hard z h = ground arith

break_of-only :
    (region : Str) (b floor cursor hard : ℕ)
    → cursor < b
    → b ≤ hard
    → break_of region (b ∷ []) floor cursor hard ≡ b
unfolding break_of
break_of-only region b floor cursor hard c h = ground (arith, choose_break-only b floor hard)

next_cursor-within :
    (overlap_chars cursor b : ℕ)
    → b ≤ overlap_chars + cursor + 1
    → next_cursor overlap_chars cursor b ≡ cursor + 1
unfolding next_cursor
next_cursor-within o cursor b h = ground arith

-- The pieces that end at a position.
abbrev pub ending_at : ℕ → List Span → List Span
ending_at p = rows_where (λ s. s.1 == p)

split_loop-stutter :
    (d fuel : ℕ) (j : Job) (first : Bool) (cursor b : ℕ)
    → j.breaks ≡ b ∷ []
    → cursor + d ≡ b
    → d ≤ j.overlap_chars + 1
    → b ≤ j.size
    → b + j.size < extent j
    → d ≤ fuel
    → d ≤ length (ending_at (j.start + b) (split_loop fuel j first cursor))
unfolding split_loop rows_where
split_loop-stutter zero fuel j first cursor b e c o s x f = omega arith
split_loop-stutter (suc d) zero j first cursor b e c o s x f = absurd (omega arith)
split_loop-stutter (suc d) (suc fuel) j first cursor b e c o s x f =
    let hard = min (cursor + j.size) (extent j) in
    let break_at : break_of j.region j.breaks (cursor + j.ahead) cursor hard ≡ b =
      rw e (break_of-only j.region b (cursor + j.ahead) cursor hard (omega arith) (ground arith)) in
    let next : next_cursor j.overlap_chars cursor
          (break_of j.region j.breaks (cursor + j.ahead) cursor hard)
        ≡ cursor + 1 =
      rw break_at (next_cursor-within j.overlap_chars cursor b (omega arith)) in
    let before : (hard == extent j) ≡ false = ground arith in
    let rest =
      split_loop-stutter d fuel j false (cursor + 1) b e (omega arith) (omega arith) s x
        (omega arith) in
    let here : (j.start + b == j.start + b) ≡ true = (==_iff (j.start + b) (j.start + b)).1 refl in
    rw (lt→ltb cursor (extent j) (omega arith))
      (rw before (rw next (rw break_at (rw here (omega (arith, rest))))))

module _ (candidate_breaks : Bool → Str → List ℕ) (seven_tenths : ℕ → ℕ) where
  -- If the only candidate break of a span lies at most `overlap_chars + 1` characters behind its
  -- start, within the limit, and the span is longer than that by more than the limit, then at least as
  -- many pieces of the span end at the break as there are characters before it.
  pub split_span-stutters :
      (text : Str) (start stop size overlap_chars b : ℕ) (prefer_list_breaks : Bool)
      → candidate_breaks prefer_list_breaks (slice start stop text) ≡ b ∷ []
      → b ≤ overlap_chars + 1
      → b ≤ size
      → b + size < stop - start
      → b
        ≤ length (
            ending_at (start + b) (
              split_span candidate_breaks seven_tenths text start stop size overlap_chars
                prefer_list_breaks))
  unfolding split_span
  split_span-stutters text start stop size overlap_chars b prefer e o s x =
      let long : leb (stop - start) size ≡ false = ground arith in
      rw long (
        split_loop-stutter b (stop - start)
          (job_of candidate_breaks seven_tenths text start stop size overlap_chars prefer) true 0 b
          e (omega arith) o s x (omega arith))
