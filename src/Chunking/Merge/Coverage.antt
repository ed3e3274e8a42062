-- ===== src/Chunking/Merge/Coverage.antt =====
-- `_merge_units`: the positions of the units that the spans cover.
use rag_enterprise.Prelude.{
  ℕ, ◌-◌, ◌≤◌, ◌<◌, ◌≡◌, Bool, true, List, [], ◌∷◌, arith, ltb, leb, any_row, Bool-cases, ◌⊎◌, inl,
  inr, leb→le,
}
use rag_enterprise.Prelude.Text.{Str}
use rag_enterprise.Chunking.Split.{Span, split_span}
use rag_enterprise.Chunking.Split.Tiling.{Tiles, split_span-Tiles}
use rag_enterprise.Chunking.Merge.{
  TextUnit, is_structured, Limits, Buffer, flush, closes, begin, merge_unit, merge_from,
  merge_units,
}
use rag_enterprise.Chunking.Merge.Spans.{
  IsCovered, Ascending, in_units, in_units-cases, any_row-append_left, any_row-append_right,
  Tiles-IsCovered, Ended, Ended-append, merge_tail-IsCovered,
}

-- The invariant of the loop: the spans are ordered, and end before the buffer.
record IsOrdered (b : Buffer) : Type 0 where
  reached : ℕ
  ended : Ended reached b.spans
  before : reached ≤ b.start
  forward : b.start ≤ b.stop

-- The position lies in a span, or in the buffer.
abbrev IsDone : ℕ → Buffer → Type 0
IsDone p b = IsCovered p b.spans ⊎ ((b.start ≤ p) × (p < b.stop))

module _ (candidate_breaks : Bool → Str → List ℕ) (seven_tenths : ℕ → ℕ) (text : Str) (l : Limits)
    (positive : 0 < l.max_chunk_chars) where
  abbrev flushed : Buffer → Buffer
  flushed b = flush candidate_breaks seven_tenths text l b

  abbrev cut : Buffer → List Span
  cut b =
      split_span candidate_breaks seven_tenths text b.start b.stop l.max_chunk_chars l.overlap_chars
        b.structured

  cut-Tiles : (b : Buffer) → b.start < b.stop → Tiles b.start b.stop l.max_chunk_chars (cut b)
  cut-Tiles b h =
      split_span-Tiles candidate_breaks seven_tenths text b.start b.stop l.max_chunk_chars
        l.overlap_chars b.structured positive h

  flush-IsOrdered : (b : Buffer) → IsOrdered b → IsOrdered (flushed b)
  unfolding flush
  flush-IsOrdered b h = elim (Bool-cases (leb b.stop b.start)) [
    | inl empty ↦ rw empty h
    | inr full ↦ rw full (record {
      reached = b.stop;
      ended =
          Ended-append h.reached b.start b.stop l.max_chunk_chars b.spans (cut b) h.ended h.before
            (cut-Tiles b (ground arith));
      before = omega arith;
      forward = omega arith;
    })
  ]

  flush-IsCovered : (b : Buffer) (p : ℕ) → IsDone p b → IsCovered p (flushed b).spans
  unfolding flush
  flush-IsCovered b p (inl c) = elim (Bool-cases (leb b.stop b.start)) [
    | inl empty ↦ rw empty c
    | inr full ↦ rw full (any_row-append_left p b.spans (cut b) c)
  ]
  flush-IsCovered b p (inr (lo, hi)) = elim (Bool-cases (leb b.stop b.start)) [
    | inl empty ↦ absurd (omega (arith, leb→le b.stop b.start empty))
    | inr full ↦ rw full (
        any_row-append_right p b.spans (cut b) (
          Tiles-IsCovered b.start b.stop l.max_chunk_chars (cut b) p (cut-Tiles b (omega arith)) lo
            hi))
  ]

  flush-stop : (b : Buffer) → (flushed b).stop ≡ b.stop
  unfolding flush
  flush-stop b = ground arith

  flush_start : (b : Buffer) → IsOrdered b → (flushed b).start ≡ b.stop
  unfolding flush
  flush_start b h = ground (arith, h.forward)

  abbrev begun : List Span → TextUnit → Buffer
  begun spans u = begin candidate_breaks seven_tenths text l spans u

  abbrev merged : Buffer → TextUnit → Buffer
  merged b u = merge_unit candidate_breaks seven_tenths text l b u

  abbrev fresh : List Span → TextUnit → Buffer
  fresh spans u = record {
    spans = spans;
    start = u.start;
    stop = u.stop;
    structured = is_structured u.kind;
  }

  begin-IsOrdered :
      (spans : List Span) (u : TextUnit) → IsOrdered (fresh spans u) → IsOrdered (begun spans u)
  unfolding begin
  begin-IsOrdered spans u h = elim (Bool-cases (ltb l.max_chunk_chars (u.stop - u.start))) [
    | inl long ↦ rw long (flush-IsOrdered (fresh spans u) h)
    | inr short ↦ rw short h
  ]

  begin-IsDone :
      (spans : List Span) (u : TextUnit) (p : ℕ)
      → IsDone p (fresh spans u)
      → IsDone p (begun spans u)
  unfolding begin
  begin-IsDone spans u p h = elim (Bool-cases (ltb l.max_chunk_chars (u.stop - u.start))) [
    | inl long ↦ rw long (inl (flush-IsCovered (fresh spans u) p h))
    | inr short ↦ rw short h
  ]

  begin-stop : (spans : List Span) (u : TextUnit) → (begun spans u).stop ≡ u.stop
  unfolding begin
  begin-stop spans u = ground (arith, flush-stop (fresh spans u))

  module _ (b : Buffer) (u : TextUnit) (h : IsOrdered b) (after : b.stop ≤ u.start)
      (forward : u.start ≤ u.stop) where
    merge_unit-IsOrdered : IsOrdered (merged b u)
    unfolding merge_unit
    merge_unit-IsOrdered = elim (Bool-cases (closes candidate_breaks seven_tenths text l b u)) [
      | inl yes_closes ↦
          let f = flush-IsOrdered b h in
          rw yes_closes (
            begin-IsOrdered (flushed b).spans u (record {
              reached = f.reached;
              ended = f.ended;
              before = omega (arith, f.before, flush_start b h);
              forward = forward;
            }))
      | inr joins ↦ rw joins (record {
        reached = h.reached;
        ended = h.ended;
        before = h.before;
        forward = omega (arith, h.forward);
      })
    ]

    merge_unit-IsDone :
        (p : ℕ) → IsDone p b ⊎ ((u.start ≤ p) × (p < u.stop)) → IsDone p (merged b u)
    unfolding merge_unit
    merge_unit-IsDone p d = elim (Bool-cases (closes candidate_breaks seven_tenths text l b u)) [
      | inl yes_closes ↦ rw yes_closes (
          begin-IsDone (flushed b).spans u p
            (elim d [ inl old ↦ inl (flush-IsCovered b p old) | inr new ↦ inr new ]))
      | inr joins ↦ rw joins (joined d)
    ]
      where
        joined :
            IsDone p b ⊎ ((u.start ≤ p) × (p < u.stop))
            → IsCovered p b.spans ⊎ ((b.start ≤ p) × (p < u.stop))
        joined (inl (inl c)) = inl c
        joined (inl (inr (lo, hi))) = inr (lo, omega arith)
        joined (inr (lo, hi)) = inr (omega (arith, h.forward), hi)

    merge_unit-stop : (merged b u).stop ≡ u.stop
    unfolding merge_unit
    merge_unit-stop = ground (arith, begin-stop (flushed b).spans u)

  merge_from-covers :
      (us : List TextUnit) (b : Buffer) (p : ℕ)
      → IsOrdered b
      → Ascending b.stop us
      → IsDone p b ⊎ (in_units p us ≡ true)
      → (m : ℕ) × Ended m (merge_from candidate_breaks seven_tenths text l b us).spans
        × IsCovered p (merge_from candidate_breaks seven_tenths text l b us).spans
  unfolding merge_from any_row
  merge_from-covers [] b p h a (inl d) =
      let f = flush-IsOrdered b h in (f.reached, f.ended, flush-IsCovered b p d)
  merge_from-covers [] b p h a (inr none_left) = cc
  merge_from-covers (u ∷ us) b p h a d =
      merge_from-covers us (merged b u) p (merge_unit-IsOrdered b u h a.0 a.1)
        (rw (merge_unit-stop b u h a.0 a.1) a.2) (next d)
    where
      next :
          IsDone p b ⊎ (in_units p (u ∷ us) ≡ true) → IsDone p (merged b u) ⊎ (in_units p us ≡ true)
      next (inl old) = inl (merge_unit-IsDone b u h a.0 a.1 p (inl old))
      next (inr e) = elim (in_units-cases p u us e) [
        | inl here ↦ inl (merge_unit-IsDone b u h a.0 a.1 p (inr here))
        | inr elsewhere ↦ inr elsewhere
      ]

  -- Each position of a unit lies in a span, for a limit that is not 0 and units that follow one
  -- another, whatever the candidate breaks are.
  pub merge_units-IsCovered :
      (us : List TextUnit) (lo p : ℕ)
      → Ascending lo us
      → in_units p us ≡ true
      → IsCovered p (merge_units candidate_breaks seven_tenths text l us)
  unfolding any_row merge_units
  merge_units-IsCovered [] lo p a i = cc
  merge_units-IsCovered (u ∷ us) lo p a i =
      let (m, ended, covered) =
        merge_from-covers us (fresh [] u) p
          (record { reached = 0; ended = tt; before = omega arith; forward = a.1 }) a.2 first in
      merge_tail-IsCovered l m
        (merge_from candidate_breaks seven_tenths text l (fresh [] u) us).spans p ended covered
    where
      first : IsDone p (fresh [] u) ⊎ (in_units p us ≡ true)
      first = elim (in_units-cases p u us i) [
        | inl here ↦ inl (inr here)
        | inr elsewhere ↦ inr elsewhere
      ]
