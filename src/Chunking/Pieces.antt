-- ===== src/Chunking/Pieces.antt =====
-- splitter.py: `_trim_span`, `_heading_covering`, and what `split_persian_document` does with the
-- paragraphs of a text.
pub mod Trimming
pub mod Exact
pub mod Covering
pub mod Bounds
use rag_enterprise.Prelude.{
  ℕ, zero, suc, ◌+◌, ◌-◌, Bool, true, false, ◌&&◌, ◌||◌, Option, none, some, List, [], ◌∷◌, length,
  get_elem?, leb, ltb, ◌==◌, if◌then◌else◌, any_row,
}
use rag_enterprise.Prelude.Text.{Str, str_eq, strip}
use rag_enterprise.Chunking.Breaks.{slice}
use rag_enterprise.Chunking.Split.{Span}
use rag_enterprise.Chunking.Merge.{Kind, heading, TextUnit, Limits, merge_units}
use rag_enterprise.Chunking.Coalesce.{coalesce_units}

-- `text[i] in " \t\r\n"`. It is false outside the text, where the code would raise an IndexError; no
-- such index is looked at if the paragraphs lie in the text.
unfoldable pub blank_at : Str → ℕ → Bool
blank_at text i = elim (get_elem? text i) [
  | none ↦ false
  | some c ↦ c == 32 || c == 9 || c == 13 || c == 10
]

-- The first loop, on fuel.
unfoldable pub trim_front : ℕ → Str → (start stop : ℕ) → ℕ
trim_front zero text start stop = start
trim_front (suc fuel) text start stop =
    let rest = trim_front fuel text (start + 1) stop in
    if ltb start stop && blank_at text start then rest else start

-- The second loop.
unfoldable pub trim_back : Str → (start stop : ℕ) → ℕ
trim_back text start zero = zero
trim_back text start (suc stop) =
    let rest = trim_back text start stop in
    if ltb start (suc stop) && blank_at text stop then rest else suc stop

unfoldable pub trim_span : Str → (start stop : ℕ) → ℕ × ℕ
trim_span text start stop =
    let first = trim_front (stop - start) text start stop in (first, trim_back text first stop)

abbrev pub is_heading : Kind → Bool
is_heading heading = true
is_heading _ = false

-- `unit.heading`, as a condition
abbrev pub has_text : Option Str → Bool
has_text none = false
has_text (some []) = false
has_text (some (c ∷ s)) = true

unfoldable pub heading_from : Option Str → List TextUnit → (start stop : ℕ) → Option Str
heading_from active [] start stop = active
heading_from active (u ∷ us) start stop =
    let before = heading_from (if is_heading u.kind then u.title else active) us start stop in
    let within = heading_from active us start stop in
    if leb u.stop start
    then before
    else if leb stop u.start
    then active
    else if is_heading u.kind && has_text u.title
    then u.title
    else within

unfoldable pub heading_covering : List TextUnit → (start stop : ℕ) → Option Str
heading_covering us start stop = heading_from none us start stop

pub data Strategy : Type 0 where
  by_heading by_paragraph : Strategy

pub record ChunkPiece : Type 0 where
  pub start : ℕ
  pub stop : ℕ
  pub text : Str
  pub heading : Option Str
  pub strategy : Strategy
  pub overlap_chars : ℕ

-- The piece from `start` to `stop`.
abbrev pub piece_of : Str → Option Str → Strategy → ℕ → (start stop : ℕ) → ChunkPiece
piece_of text title strategy overlap start stop = record {
  start = start;
  stop = stop;
  text = slice start stop text;
  heading = title;
  strategy = strategy;
  overlap_chars = overlap;
}

-- The loop over the spans: a span of white space makes no piece.
unfoldable pub pieces_of : Str → List TextUnit → Strategy → List Span → List ChunkPiece
pieces_of text us strategy [] = []
pieces_of text us strategy ((s, e, overlap) ∷ spans) =
    let (start, stop) = trim_span text s e in
    let rest = pieces_of text us strategy spans in
    if leb stop start
    then rest
    else piece_of text (heading_covering us start stop) strategy overlap start stop ∷ rest

-- `if not pieces`: the whole text is a piece, unless it is white space.
unfoldable pub or_whole : Str → List ChunkPiece → List ChunkPiece
or_whole text (p ∷ ps) = p ∷ ps
or_whole text [] =
    let (start, stop) = trim_span text 0 (length text) in
    if ltb start stop then piece_of text none by_paragraph 0 start stop ∷ [] else []

-- The strategy that is noted for each piece.
abbrev pub strategy_of : List TextUnit → Strategy
strategy_of us = if any_row (λ u. is_heading u.kind) us then by_heading else by_paragraph

module _ (candidate_breaks : Bool → Str → List ℕ) (seven_tenths : ℕ → ℕ) (l : Limits) where
  -- `split_persian_document` from the paragraphs on.
  unfoldable pub split_paragraphs : Str → List TextUnit → List ChunkPiece
  split_paragraphs text paragraphs =
      let us = coalesce_units paragraphs in
      let spans = merge_units candidate_breaks seven_tenths text l us in
      if str_eq text [] || str_eq (strip text) []
      then []
      else or_whole text (pieces_of text us (strategy_of us) spans)
