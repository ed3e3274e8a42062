-- ===== src/Chunking/Merge/Ends.antt =====
-- `_merge_units`: where the spans end.
use rag_enterprise.Prelude.{
  ℕ, ◌-◌, ◌≤◌, ◌<◌, Bool, List, [], ◌∷◌, arith, ltb, leb, Bool-cases, inl, inr, All, All-append,
  ◌&&◌,
}
use rag_enterprise.Prelude.Text.{Str}
use rag_enterprise.Chunking.Split.{Span}
use rag_enterprise.Chunking.Split.Tiling.{Tiles, split_span-Tiles}
use rag_enterprise.Chunking.Merge.{
  TextUnit, Limits, Buffer, merge_tail, flush, closes, begin, merge_unit, merge_from, merge_units,
}

-- The span, or the unit, ends at `n` or before.
abbrev pub EndsBy : ℕ → Span → Type 0
EndsBy n (s, e, o) = e ≤ n

abbrev pub UnitEndsBy : ℕ → TextUnit → Type 0
UnitEndsBy n u = u.stop ≤ n

Tiles-EndsBy :
    (n start stop size : ℕ) (xs : List Span)
    → stop ≤ n
    → Tiles start stop size xs
    → All (EndsBy n) xs
Tiles-EndsBy n start stop size [] h t = absurd t
Tiles-EndsBy n start stop size ((s, e, o) ∷ []) h t = (omega arith, tt)
Tiles-EndsBy n start stop size ((s, e, o) ∷ (s', e', o') ∷ r) h t =
    (omega (arith, t.3), Tiles-EndsBy n s' stop size ((s', e', o') ∷ r) h t.6)

merge_tail-EndsBy :
    (l : Limits) (n : ℕ) (xs : List Span) → All (EndsBy n) xs → All (EndsBy n) (merge_tail l xs)
unfolding merge_tail
merge_tail-EndsBy l n [] h = h
merge_tail-EndsBy l n (x ∷ []) h = h
merge_tail-EndsBy l n ((ps, pe, po) ∷ (ls, le, lo) ∷ []) h =
    elim (Bool-cases (ltb (le - ls) l.min_chunk_chars && leb (le - ps) l.max_chunk_chars)) [
      | inl fits ↦ rw fits h.1
      | inr apart ↦ rw apart h
    ]
merge_tail-EndsBy l n (x ∷ q ∷ r ∷ rest) h = (h.0, merge_tail-EndsBy l n (q ∷ r ∷ rest) h.1)

module _ (candidate_breaks : Bool → Str → List ℕ) (seven_tenths : ℕ → ℕ) (text : Str) (l : Limits)
    (positive : 0 < l.max_chunk_chars) (n : ℕ) where
  -- What the buffer holds, and what it has written.
  record Ends (b : Buffer) : Type 0 where
    stop : b.stop ≤ n
    spans : All (EndsBy n) b.spans

  flush-Ends : (b : Buffer) → Ends b → Ends (flush candidate_breaks seven_tenths text l b)
  unfolding flush
  flush-Ends b h = elim (Bool-cases (leb b.stop b.start)) [
    | inl empty ↦ rw empty h
    | inr full ↦ rw full (record {
      stop = h.stop;
      spans = All-append (EndsBy n) b.spans _ h.spans (
          Tiles-EndsBy n b.start b.stop l.max_chunk_chars _ h.stop (
            split_span-Tiles candidate_breaks seven_tenths text b.start b.stop l.max_chunk_chars
              l.overlap_chars b.structured positive (ground arith)));
    })
  ]

  begin-Ends :
      (spans : List Span) (u : TextUnit)
      → All (EndsBy n) spans
      → UnitEndsBy n u
      → Ends (begin candidate_breaks seven_tenths text l spans u)
  unfolding begin
  begin-Ends spans u h e = elim (Bool-cases (ltb l.max_chunk_chars (u.stop - u.start))) [
    | inl long ↦ rw long (flush-Ends _ (record { stop = e; spans = h }))
    | inr short ↦ rw short (record { stop = e; spans = h })
  ]

  merge_unit-Ends :
      (b : Buffer) (u : TextUnit)
      → Ends b
      → UnitEndsBy n u
      → Ends (merge_unit candidate_breaks seven_tenths text l b u)
  unfolding merge_unit
  merge_unit-Ends b u h e = elim (Bool-cases (closes candidate_breaks seven_tenths text l b u)) [
    | inl shuts ↦ rw shuts (begin-Ends _ u (flush-Ends b h).spans e)
    | inr joins ↦ rw joins (record { stop = e; spans = h.spans })
  ]

  merge_from-Ends :
      (us : List TextUnit) (b : Buffer)
      → Ends b
      → All (UnitEndsBy n) us
      → Ends (merge_from candidate_breaks seven_tenths text l b us)
  unfolding merge_from
  merge_from-Ends [] b h e = flush-Ends b h
  merge_from-Ends (u ∷ us) b h e = merge_from-Ends us _ (merge_unit-Ends b u h e.0) e.1

  -- No span ends behind the last unit.
  pub merge_units-EndsBy :
      (us : List TextUnit)
      → All (UnitEndsBy n) us
      → All (EndsBy n) (merge_units candidate_breaks seven_tenths text l us)
  unfolding merge_units
  merge_units-EndsBy [] e = tt
  merge_units-EndsBy (u ∷ us) e =
      merge_tail-EndsBy l n _ (merge_from-Ends us _ (record { stop = e.0; spans = tt }) e.1).spans
