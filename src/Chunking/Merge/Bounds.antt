-- ===== src/Chunking/Merge/Bounds.antt =====
-- `_merge_units`: the length of the spans, merged or cut.
use rag_enterprise.Prelude.{
  ℕ, ◌+◌, ◌-◌, ◌≤◌, ◌<◌, Bool, List, [], ◌∷◌, arith, ltb, leb, Bool-cases, inl, inr, All,
  All-append, ◌&&◌,
}
use rag_enterprise.Prelude.Text.{Str}
use rag_enterprise.Chunking.Split.{Span}
use rag_enterprise.Chunking.Split.Tiling.{Tiles, split_span-Tiles}
use rag_enterprise.Chunking.Merge.{
  TextUnit, Limits, Buffer, merge_tail, flush, closes, begin, merge_unit, merge_from, merge_units,
}

-- The span has at most `size` characters.
abbrev pub IsWithin : ℕ → Span → Type 0
IsWithin size (s, e, o) = e ≤ s + size

Tiles-IsWithin :
    (start stop size : ℕ) (xs : List Span) → Tiles start stop size xs → All (IsWithin size) xs
Tiles-IsWithin start stop size [] t = absurd t
Tiles-IsWithin start stop size ((s, e, o) ∷ []) t = (t.3, tt)
Tiles-IsWithin start stop size ((s, e, o) ∷ (s', e', o') ∷ r) t =
    (t.2, Tiles-IsWithin s' stop size ((s', e', o') ∷ r) t.6)

merge_tail-IsWithin :
    (l : Limits) (xs : List Span)
    → All (IsWithin l.max_chunk_chars) xs
    → All (IsWithin l.max_chunk_chars) (merge_tail l xs)
unfolding merge_tail
merge_tail-IsWithin l [] h = h
merge_tail-IsWithin l (x ∷ []) h = h
merge_tail-IsWithin l ((ps, pe, po) ∷ (ls, le, lo) ∷ []) h =
    elim (Bool-cases (ltb (le - ls) l.min_chunk_chars && leb (le - ps) l.max_chunk_chars)) [
      | inl fits ↦ rw fits (ground arith, tt)
      | inr apart ↦ rw apart h
    ]
merge_tail-IsWithin l (x ∷ q ∷ r ∷ rest) h = (h.0, merge_tail-IsWithin l (q ∷ r ∷ rest) h.1)

module _ (candidate_breaks : Bool → Str → List ℕ) (seven_tenths : ℕ → ℕ) (text : Str) (l : Limits)
    (positive : 0 < l.max_chunk_chars) where
  abbrev AllWithin : List Span → Type 0
  AllWithin xs = All (IsWithin l.max_chunk_chars) xs

  flush-AllWithin :
      (b : Buffer)
      → AllWithin b.spans
      → AllWithin (flush candidate_breaks seven_tenths text l b).spans
  unfolding flush
  flush-AllWithin b h = elim (Bool-cases (leb b.stop b.start)) [
    | inl empty ↦ rw empty h
    | inr full ↦ rw full (
        All-append (IsWithin l.max_chunk_chars) b.spans _ h (
          Tiles-IsWithin b.start b.stop l.max_chunk_chars _ (
            split_span-Tiles candidate_breaks seven_tenths text b.start b.stop l.max_chunk_chars
              l.overlap_chars b.structured positive (ground arith))))
  ]

  begin-AllWithin :
      (spans : List Span) (u : TextUnit)
      → AllWithin spans
      → AllWithin (begin candidate_breaks seven_tenths text l spans u).spans
  unfolding begin
  begin-AllWithin spans u h = elim (Bool-cases (ltb l.max_chunk_chars (u.stop - u.start))) [
    | inl long ↦ rw long (flush-AllWithin _ h)
    | inr short ↦ rw short h
  ]

  merge_unit-AllWithin :
      (b : Buffer) (u : TextUnit)
      → AllWithin b.spans
      → AllWithin (merge_unit candidate_breaks seven_tenths text l b u).spans
  unfolding merge_unit
  merge_unit-AllWithin b u h = elim (Bool-cases (closes candidate_breaks seven_tenths text l b u)) [
    | inl yes_closes ↦ rw yes_closes (begin-AllWithin _ u (flush-AllWithin b h))
    | inr joins ↦ rw joins h
  ]

  merge_from-AllWithin :
      (us : List TextUnit) (b : Buffer)
      → AllWithin b.spans
      → AllWithin (merge_from candidate_breaks seven_tenths text l b us).spans
  unfolding merge_from
  merge_from-AllWithin [] b h = flush-AllWithin b h
  merge_from-AllWithin (u ∷ us) b h = merge_from-AllWithin us _ (merge_unit-AllWithin b u h)

  -- No span that merging makes has more than `max_chunk_chars` characters, for a limit that is not 0,
  -- whatever the units and the candidate breaks are.
  pub merge_units-AllWithin :
      (us : List TextUnit)
      → All (IsWithin l.max_chunk_chars) (merge_units candidate_breaks seven_tenths text l us)
  unfolding merge_units
  merge_units-AllWithin [] = tt
  merge_units-AllWithin (u ∷ us) = merge_tail-IsWithin l _ (merge_from-AllWithin us _ tt)
