-- ===== src/Chunking/Pieces/Exact.antt =====
-- `split_persian_document`: the texts of the pieces.
use rag_enterprise.Prelude.{
  ℕ, ◌≡◌, refl, Bool, ◌||◌, List, [], ◌∷◌, leb, ltb, All, length, Bool-cases, inl, inr,
}
use rag_enterprise.Prelude.Text.{Str, str_eq, strip}
use rag_enterprise.Chunking.Breaks.{slice}
use rag_enterprise.Chunking.Split.{Span}
use rag_enterprise.Chunking.Merge.{TextUnit, Limits}
use rag_enterprise.Chunking.Pieces.{
  trim_span, Strategy, ChunkPiece, pieces_of, or_whole, split_paragraphs,
}

-- The piece has the text between its offsets.
abbrev pub IsExact : Str → ChunkPiece → Type 0
IsExact text q = q.text ≡ slice q.start q.stop text

pieces_of-AllExact :
    (text : Str) (us : List TextUnit) (strategy : Strategy) (spans : List Span)
    → All (IsExact text) (pieces_of text us strategy spans)
unfolding pieces_of
pieces_of-AllExact text us strategy [] = tt
pieces_of-AllExact text us strategy ((s, e, o) ∷ spans) =
    let rest = pieces_of-AllExact text us strategy spans in
    elim (Bool-cases (leb (trim_span text s e).1 (trim_span text s e).0)) [
      | inl empty ↦ rw empty rest
      | inr full ↦ rw full (refl, rest)
    ]

or_whole-AllExact :
    (text : Str) (pieces : List ChunkPiece)
    → All (IsExact text) pieces
    → All (IsExact text) (or_whole text pieces)
unfolding or_whole
or_whole-AllExact text (q ∷ qs) h = h
or_whole-AllExact text [] h =
    elim (Bool-cases (ltb (trim_span text 0 (length text)).0 (trim_span text 0 (length text)).1)) [
      | inl some_left ↦ rw some_left (refl, tt)
      | inr nothing_left ↦ rw nothing_left tt
    ]

pub split_paragraphs-AllExact :
    (candidate_breaks : Bool → Str → List ℕ) (seven_tenths : ℕ → ℕ) (l : Limits) (text : Str)
    (paragraphs : List TextUnit)
    → All (IsExact text) (split_paragraphs candidate_breaks seven_tenths l text paragraphs)
unfolding split_paragraphs
split_paragraphs-AllExact candidate_breaks seven_tenths l text paragraphs =
    elim (Bool-cases (str_eq text [] || str_eq (strip text) [])) [
      | inl white ↦ rw white tt
      | inr solid ↦ rw solid (or_whole-AllExact text _ (pieces_of-AllExact text _ _ _))
    ]
