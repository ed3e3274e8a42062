-- ===== src/Chunking/Pieces/Bounds.antt =====
-- `split_persian_document`: the length of the pieces.
use rag_enterprise.Prelude.{
  ℕ, ◌+◌, ◌≤◌, ◌<◌, ◌≡◌, Bool, true, false, ◌||◌, List, [], ◌∷◌, arith, leb, any_row, All,
  Bool-cases, inl, inr,
}
use rag_enterprise.Prelude.Text.{Str, str_eq, strip}
use rag_enterprise.Chunking.Split.{Span}
use rag_enterprise.Chunking.Merge.{TextUnit, Limits, merge_units}
use rag_enterprise.Chunking.Merge.Spans.{Ascending, in_units}
use rag_enterprise.Chunking.Merge.Coverage.{merge_units-IsCovered}
use rag_enterprise.Chunking.Merge.Bounds.{IsWithin, merge_units-AllWithin}
use rag_enterprise.Chunking.Coalesce.{coalesce_units}
use rag_enterprise.Chunking.Coalesce.Keeping.{coalesce_units-keeps}
use rag_enterprise.Chunking.Pieces.{
  blank_at, trim_span, Strategy, ChunkPiece, strategy_of, pieces_of, or_whole, split_paragraphs,
}
use rag_enterprise.Chunking.Pieces.Trimming.{trim_span-within}
use rag_enterprise.Chunking.Pieces.Covering.{in_pieces, pieces_of-covers}

-- The piece has at most `size` characters.
abbrev pub IsShort : ℕ → ChunkPiece → Type 0
IsShort size q = q.stop ≤ q.start + size

pieces_of-AllShort :
    (size : ℕ) (text : Str) (us : List TextUnit) (strategy : Strategy) (spans : List Span)
    → All (IsWithin size) spans
    → All (IsShort size) (pieces_of text us strategy spans)
unfolding pieces_of
pieces_of-AllShort size text us strategy [] h = tt
pieces_of-AllShort size text us strategy ((s, e, o) ∷ spans) h =
    let rest = pieces_of-AllShort size text us strategy spans h.1 in
    let within = trim_span-within text s e in
    elim (Bool-cases (leb (trim_span text s e).1 (trim_span text s e).0)) [
      | inl empty ↦ rw empty rest
      | inr full ↦ rw full (omega (arith, within.0, within.1, h.0), rest)
    ]

-- Where a position lies in a piece, the text is not taken as a whole.
or_whole-AllShort :
    (size : ℕ) (text : Str) (pieces : List ChunkPiece) (p : ℕ)
    → in_pieces p pieces ≡ true
    → All (IsShort size) pieces
    → All (IsShort size) (or_whole text pieces)
unfolding or_whole any_row
or_whole-AllShort size text [] p i h = cc
or_whole-AllShort size text (q ∷ qs) p i h = h

module _ (candidate_breaks : Bool → Str → List ℕ) (seven_tenths : ℕ → ℕ) (l : Limits) where
  -- No piece has more than `max_chunk_chars` characters, if that is not 0, the paragraphs follow one
  -- another, and a position of a paragraph is not blank.
  pub split_paragraphs-AllShort :
      (text : Str) (paragraphs : List TextUnit) (lo p : ℕ)
      → 0 < l.max_chunk_chars
      → Ascending lo paragraphs
      → in_units p paragraphs ≡ true
      → blank_at text p ≡ false
      → All
          (IsShort l.max_chunk_chars)
          (split_paragraphs candidate_breaks seven_tenths l text paragraphs)
  unfolding split_paragraphs
  split_paragraphs-AllShort text paragraphs lo p z a i b =
      let us = coalesce_units paragraphs in
      let spans = merge_units candidate_breaks seven_tenths text l us in
      let (ascending, keeps) = coalesce_units-keeps paragraphs lo a in
      let covered =
        merge_units-IsCovered candidate_breaks seven_tenths text l z us lo p ascending
          (keeps p i) in
      elim (Bool-cases (str_eq text [] || str_eq (strip text) [])) [
        | inl white ↦ rw white tt
        | inr solid ↦ rw solid (
            or_whole-AllShort l.max_chunk_chars text (pieces_of text us (strategy_of us) spans) p
              (pieces_of-covers text us (strategy_of us) spans p b covered)
              (pieces_of-AllShort l.max_chunk_chars text us (strategy_of us) spans
                (merge_units-AllWithin candidate_breaks seven_tenths text l z us)))
      ]
