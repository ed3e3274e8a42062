-- ===== src/Chunking/Merge.antt =====
-- splitter.py: `_Unit`, and `_merge_units`, which joins the units of a document to spans.
pub mod Bounds
pub mod Spans
pub mod Coverage
pub mod Ends
use rag_enterprise.Prelude.{
  ℕ, ◌-◌, ◌/◌, Bool, true, false, ◌&&◌, ◌||◌, Option, List, [], ◌∷◌, ◌++◌, ltb, leb, if◌then◌else◌,
}
use rag_enterprise.Prelude.Text.{Str}
use rag_enterprise.Chunking.Split.{Span, split_span}

pub data Kind : Type 0 where
  heading list faq table clause prose : Kind

pub record TextUnit : Type 0 where
  pub start : ℕ
  pub stop : ℕ
  pub kind : Kind
  pub title : Option Str

-- `kind in {"list", "table", "faq", "clause"}`
abbrev pub is_structured : Kind → Bool
is_structured list = true
is_structured table = true
is_structured faq = true
is_structured clause = true
is_structured _ = false

-- `kind in {"heading", "list", "table", "faq", "clause"}`
abbrev pub is_boundary : Kind → Bool
is_boundary heading = true
is_boundary k = is_structured k

-- The keyword arguments of the splitter.
pub record Limits : Type 0 where
  pub max_chunk_chars : ℕ
  pub min_chunk_chars : ℕ
  pub overlap_chars : ℕ
  pub target_chunk_chars : ℕ

pub record Buffer : Type 0 where
  pub spans : List Span
  pub start : ℕ
  pub stop : ℕ
  pub structured : Bool

-- The last span joins the one before it, if it is too short and both fit together.
unfoldable pub merge_tail : Limits → List Span → List Span
merge_tail l [] = []
merge_tail l (p ∷ []) = p ∷ []
merge_tail l ((ps, pe, po) ∷ (ls, le, lo) ∷ []) =
    if ltb (le - ls) l.min_chunk_chars && leb (le - ps) l.max_chunk_chars
    then (ps, le, po) ∷ []
    else (ps, pe, po) ∷ (ls, le, lo) ∷ []
merge_tail l (p ∷ q ∷ r ∷ rest) = p ∷ merge_tail l (q ∷ r ∷ rest)

module _ (candidate_breaks : Bool → Str → List ℕ) (seven_tenths : ℕ → ℕ) (text : Str)
    (l : Limits) where
  unfoldable pub flush : Buffer → Buffer
  flush b = if leb b.stop b.start then b else record {
    spans =
        b.spans
        ++ split_span candidate_breaks seven_tenths text b.start b.stop l.max_chunk_chars
            l.overlap_chars b.structured;
    start = b.stop;
    stop = b.stop;
    structured = false;
  }

  -- `at_capacity or soft_boundary`
  unfoldable pub closes : Buffer → TextUnit → Bool
  closes b u =
      ltb l.max_chunk_chars (u.stop - b.start)
      || (leb l.target_chunk_chars (b.stop - b.start)
          && is_boundary u.kind
          && leb l.min_chunk_chars (u.stop - u.start))

  -- A buffer that holds one unit; a unit that is too long is flushed at once.
  unfoldable pub begin : List Span → TextUnit → Buffer
  begin spans u =
      let b : Buffer = record {
        spans = spans;
        start = u.start;
        stop = u.stop;
        structured = is_structured u.kind;
      } in
      if ltb l.max_chunk_chars (u.stop - u.start) then flush b else b

  -- One round of the loop.
  unfoldable pub merge_unit : Buffer → TextUnit → Buffer
  merge_unit b u =
      if closes b u
      then begin (flush b).spans u
      else record b { stop = u.stop; structured = b.structured || is_structured u.kind }

  unfoldable pub merge_from : Buffer → List TextUnit → Buffer
  merge_from b [] = flush b
  merge_from b (u ∷ us) = merge_from (merge_unit b u) us

  unfoldable pub merge_units : List TextUnit → List Span
  merge_units [] = []
  merge_units (u ∷ us) =
      merge_tail l
        (merge_from
          (record { spans = []; start = u.start; stop = u.stop; structured = is_structured u.kind })
          us).spans
