-- ===== src/Chunking/Examples.antt =====
-- The theorems on the splitter, at concrete inputs.
use rag_enterprise.Prelude.{
  ℕ, ◌*◌, ◌/◌, ◌≤◌, Bool, false, none, List, [], ◌∷◌, refl, arith, length, All, ◌≡◌, true, any_row,
}
use rag_enterprise.Prelude.Text.{Str, codes, str_eq, strip}
use rag_enterprise.Chunking.Split.{split_span}
use rag_enterprise.Chunking.Split.Tiling.{Tiles, split_span-Tiles}
use rag_enterprise.Chunking.Split.Stutter.{ending_at, split_span-stutters}
use rag_enterprise.Chunking.Merge.{heading, prose, TextUnit, Limits, merge_units}
use rag_enterprise.Chunking.Merge.Coverage.{merge_units-IsCovered}
use rag_enterprise.Chunking.Merge.Spans.{IsCovered, Ascending, in_units}
use rag_enterprise.Chunking.Coalesce.{coalesce_units}
use rag_enterprise.Chunking.Coalesce.Keeping.{coalesce_units-keeps}
use rag_enterprise.Chunking.Pieces.{ChunkPiece, blank_at, split_paragraphs}
use rag_enterprise.Chunking.Pieces.Bounds.{IsShort, split_paragraphs-AllShort}
use rag_enterprise.Chunking.Pieces.Covering.{
  in_pieces, IsTight, split_paragraphs-covers, split_paragraphs-AllTight,
}
use rag_enterprise.Chunking.Merge.Bounds.{IsWithin, merge_units-AllWithin}

abbrev break_at_three : Bool → Str → List ℕ
break_at_three prefer_list_breaks region = 3 ∷ []

abbrev factor : ℕ → ℕ
factor size = size * 7 / 10

abbrev sample_text : Str
sample_text = codes "ab. the quick brown fox"

abbrev sample_limits : Limits
sample_limits = record {
  max_chunk_chars = 8;
  min_chunk_chars = 2;
  overlap_chars = 3;
  target_chunk_chars = 5;
}

abbrev sample_units : List TextUnit
sample_units =
    record { start = 0; stop = 3; kind = heading; title = none }
    ∷ record { start = 4; stop = 23; kind = prose; title = none }
    ∷ []

split_span-Tiles_example :
    Tiles 0 23 8 (split_span break_at_three factor sample_text 0 23 8 3 false)
split_span-Tiles_example =
    split_span-Tiles break_at_three factor sample_text 0 23 8 3 false (omega arith) (omega arith)

-- Two pieces of 8 characters hold the text.
split_span-stutters_example :
    3
    ≤ length (ending_at 3 (split_span break_at_three factor (codes "ab. the quick") 0 13 8 3 false))
split_span-stutters_example =
    split_span-stutters break_at_three factor (codes "ab. the quick") 0 13 8 3 3 false refl
      (omega arith) (omega arith) (omega arith)

merge_units-IsCovered_example :
    IsCovered 17 (merge_units break_at_three factor sample_text sample_limits sample_units)
unfolding any_row
merge_units-IsCovered_example =
    merge_units-IsCovered break_at_three factor sample_text sample_limits (omega arith) sample_units
      0 17 (omega arith, omega arith, (omega arith, omega arith, tt)) refl

merge_units-AllWithin_example :
    All (IsWithin 8) (merge_units break_at_three factor sample_text sample_limits sample_units)
merge_units-AllWithin_example =
    merge_units-AllWithin break_at_three factor sample_text sample_limits (omega arith) sample_units

abbrev sample_pieces : List ChunkPiece
sample_pieces = split_paragraphs break_at_three factor sample_limits sample_text sample_units

coalesce_units-keeps_example :
    Ascending 0 (coalesce_units sample_units)
    × ((p : ℕ) → in_units p sample_units ≡ true → in_units p (coalesce_units sample_units) ≡ true)
coalesce_units-keeps_example =
    coalesce_units-keeps sample_units 0 (omega arith, omega arith, (omega arith, omega arith, tt))

-- Position 17 of the text holds a letter.
split_paragraphs-covers_example : in_pieces 17 sample_pieces ≡ true
unfolding any_row blank_at strip str_eq
split_paragraphs-covers_example =
    split_paragraphs-covers break_at_three factor sample_limits sample_text sample_units 0 17
      (omega arith) refl refl (omega arith, omega arith, (omega arith, omega arith, tt)) refl refl

split_paragraphs-AllTight_example : All (IsTight sample_text) sample_pieces
split_paragraphs-AllTight_example =
    split_paragraphs-AllTight break_at_three factor sample_limits sample_text sample_units
      (omega arith) (omega arith, (omega arith, tt))

split_paragraphs-AllShort_example : All (IsShort 8) sample_pieces
unfolding any_row blank_at
split_paragraphs-AllShort_example =
    split_paragraphs-AllShort break_at_three factor sample_limits sample_text sample_units 0 17
      (omega arith) (omega arith, omega arith, (omega arith, omega arith, tt)) refl refl
