-- ===== src/Chunking/Pieces/Covering.antt =====
-- `split_persian_document`: the characters that the pieces hold.
use rag_enterprise.Prelude.{
  ℕ, ◌-◌, ◌<◌, ◌≡◌, refl, Bool, true, false, ◌&&◌, ◌||◌, Option, none, ◌≤◌, List, [], ◌∷◌, arith,
  leb, ltb, any_row, All, length, Bool-cases, inl, inr,
}
use rag_enterprise.Prelude.Text.{Str, str_eq, strip}
use rag_enterprise.Chunking.Breaks.{slice}
use rag_enterprise.Chunking.Split.{Span}
use rag_enterprise.Chunking.Merge.{TextUnit, Limits, merge_units}
use rag_enterprise.Chunking.Merge.Spans.{IsCovered, Ascending, in_units}
use rag_enterprise.Chunking.Merge.Coverage.{merge_units-IsCovered}
use rag_enterprise.Chunking.Coalesce.{coalesce_units}
use rag_enterprise.Chunking.Merge.Ends.{UnitEndsBy, EndsBy, merge_units-EndsBy}
use rag_enterprise.Chunking.Coalesce.Ends.{coalesce_units-EndsBy}
use rag_enterprise.Chunking.Coalesce.Keeping.{coalesce_units-keeps}
use rag_enterprise.Chunking.Pieces.{
  blank_at, trim_span, Strategy, by_paragraph, piece_of, ChunkPiece, strategy_of, pieces_of,
  or_whole, split_paragraphs,
}
use rag_enterprise.Chunking.Pieces.Trimming.{trim_span-keeps, trim_span-ends, trim_span-within}

-- A piece holds the position.
abbrev pub in_pieces : ℕ → List ChunkPiece → Bool
in_pieces p pieces = any_row (λ q. leb q.start p && ltb p q.stop) pieces

pub pieces_of-covers :
    (text : Str) (us : List TextUnit) (strategy : Strategy) (spans : List Span) (p : ℕ)
    → blank_at text p ≡ false
    → IsCovered p spans
    → in_pieces p (pieces_of text us strategy spans) ≡ true
unfolding pieces_of any_row
pieces_of-covers text us strategy [] p b c = cc
pieces_of-covers text us strategy ((s, e, o) ∷ spans) p b c =
    let rest = pieces_of-covers text us strategy spans p b in
    elim (Bool-cases (leb s p && ltb p e)) [
      | inl here ↦
          let kept = trim_span-keeps text s e p b (ground arith) (ground arith) in
          ground (arith, kept)
      | inr later ↦ ground (arith, rest)
    ]

or_whole-covers :
    (text : Str) (pieces : List ChunkPiece) (p : ℕ)
    → in_pieces p pieces ≡ true
    → in_pieces p (or_whole text pieces) ≡ true
unfolding or_whole any_row
or_whole-covers text [] p h = cc
or_whole-covers text (q ∷ qs) p h = h

-- The piece is a slice of the text that is not empty and has no blank at its ends.
pub record IsTight (text : Str) (q : ChunkPiece) : Type 0 where
  pub nonempty : q.start < q.stop
  pub inside : q.stop ≤ length text
  pub exact : q.text ≡ slice q.start q.stop text
  pub solid_start : blank_at text q.start ≡ false
  pub solid_stop : blank_at text (q.stop - 1) ≡ false

-- What is left of a span in the text, if anything is.
tight :
    (text : Str) (title : Option Str) (strategy : Strategy) (o s e : ℕ)
    → e ≤ length text
    → (trim_span text s e).0 < (trim_span text s e).1
    → IsTight text (piece_of text title strategy o (trim_span text s e).0 (trim_span text s e).1)
tight text title strategy o s e inside full =
    let ends = trim_span-ends text s e full in
    record {
      nonempty = full;
      inside = omega (arith, inside, (trim_span-within text s e).1);
      exact = refl;
      solid_start = ends.0;
      solid_stop = ends.1;
    }

pieces_of-AllTight :
    (text : Str) (us : List TextUnit) (strategy : Strategy) (spans : List Span)
    → All (EndsBy (length text)) spans
    → All (IsTight text) (pieces_of text us strategy spans)
unfolding pieces_of
pieces_of-AllTight text us strategy [] h = tt
pieces_of-AllTight text us strategy ((s, e, o) ∷ spans) h =
    let rest = pieces_of-AllTight text us strategy spans h.1 in
    elim (Bool-cases (leb (trim_span text s e).1 (trim_span text s e).0)) [
      | inl empty ↦ rw empty rest
      | inr full ↦ rw full (tight text _ strategy o s e h.0 (ground arith), rest)
    ]

or_whole-AllTight :
    (text : Str) (pieces : List ChunkPiece)
    → All (IsTight text) pieces
    → All (IsTight text) (or_whole text pieces)
unfolding or_whole
or_whole-AllTight text (q ∷ qs) h = h
or_whole-AllTight text [] h =
    elim (Bool-cases (ltb (trim_span text 0 (length text)).0 (trim_span text 0 (length text)).1)) [
      | inl some_left ↦
          rw some_left
            (tight text none by_paragraph 0 0 (length text) (omega arith) (ground arith), tt)
      | inr nothing_left ↦ rw nothing_left tt
    ]

module _ (candidate_breaks : Bool → Str → List ℕ) (seven_tenths : ℕ → ℕ) (l : Limits) where
  -- Each position of a paragraph that is not blank lies in a piece, for a limit that is not 0, a text
  -- that is not white space, and paragraphs that follow one another, whatever the candidate breaks
  -- are.
  pub split_paragraphs-covers :
      (text : Str) (paragraphs : List TextUnit) (lo p : ℕ)
      → 0 < l.max_chunk_chars
      → str_eq text [] ≡ false
      → str_eq (strip text) [] ≡ false
      → Ascending lo paragraphs
      → in_units p paragraphs ≡ true
      → blank_at text p ≡ false
      → in_pieces p (split_paragraphs candidate_breaks seven_tenths l text paragraphs) ≡ true
  unfolding split_paragraphs
  split_paragraphs-covers text paragraphs lo p z filled solid a i b =
      let us = coalesce_units paragraphs in
      let spans = merge_units candidate_breaks seven_tenths text l us in
      let (ascending, keeps) = coalesce_units-keeps paragraphs lo a in
      rw filled (
        rw solid (
          or_whole-covers text (pieces_of text us (strategy_of us) spans) p (
            pieces_of-covers text us (strategy_of us) spans p b (
              merge_units-IsCovered candidate_breaks seven_tenths text l z us lo p ascending
                (keeps p i)))))

  -- Each piece is the slice of the text between its offsets, which lie in the text; it is not empty, and
  -- neither its first nor its last character is blank. The limit is not 0, and no paragraph ends behind
  -- the text.
  pub split_paragraphs-AllTight :
      (text : Str) (paragraphs : List TextUnit)
      → 0 < l.max_chunk_chars
      → All (UnitEndsBy (length text)) paragraphs
      → All (IsTight text) (split_paragraphs candidate_breaks seven_tenths l text paragraphs)
  unfolding split_paragraphs
  split_paragraphs-AllTight text paragraphs z inside =
      let us = coalesce_units paragraphs in
      let ends = coalesce_units-EndsBy (length text) paragraphs inside in
      elim (Bool-cases (str_eq text [] || str_eq (strip text) [])) [
        | inl white ↦ rw white tt
        | inr solid ↦ rw solid (
            or_whole-AllTight text _ (
              pieces_of-AllTight text us (strategy_of us) _
                (merge_units-EndsBy candidate_breaks seven_tenths text l z (length text) us ends)))
      ]
