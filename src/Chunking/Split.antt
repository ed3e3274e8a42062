-- ===== src/Chunking/Split.antt =====
-- splitter.py: `_split_span`, the loop that cuts a span which is too long.
pub mod Tiling
pub mod Stutter
use rag_enterprise.Prelude.{
  ℕ, zero, suc, ◌+◌, ◌-◌, ◌/◌, min, max, Bool, true, false, Option, none, some, List, [], ◌∷◌, ltb,
  leb, ◌==◌, if◌then◌else◌, ◌≡◌, refl,
}
use rag_enterprise.Prelude.Text.{Str}
use rag_enterprise.Chunking.Breaks.{slice, rfind, choose_break}

-- Start, end, and the number of characters said to overlap with the chunk before.
abbrev pub Span : Type 0
Span = ℕ × ℕ × ℕ

-- `soft if soft > cursor`, where `rfind` gives -1 for `none`.
abbrev pub beyond : ℕ → Option ℕ → Option ℕ
beyond cursor none = none
beyond cursor (some k) = if leb k cursor then none else some k

abbrev pub first_some : Option ℕ → Option ℕ → Option ℕ
first_some none b = b
first_some (some a) b = some a

-- The three searches for white space, each made where the one before finds nothing beyond the cursor.
unfoldable pub soft_break : Str → (floor cursor hard : ℕ) → Option ℕ
soft_break region floor cursor hard = first_some (beyond cursor (rfind b' ' region floor hard)) (
    first_some (beyond cursor (rfind 10 region (cursor + 1) hard))
      (beyond cursor (rfind b' ' region (cursor + 1) hard)))

-- The chosen break, the place behind white space, or the hard limit.
abbrev pub pick_break : (chosen soft : Option ℕ) → (hard : ℕ) → ℕ
pick_break (some b) soft hard = b
pick_break none (some k) hard = k + 1
pick_break none none hard = hard

-- The end of the piece that begins at `cursor`.
unfoldable pub break_of : Str → List ℕ → (floor cursor hard : ℕ) → ℕ
break_of region breaks floor cursor hard =
    pick_break (beyond cursor (choose_break breaks floor hard))
      (soft_break region floor cursor hard) hard

-- Each round moves the cursor by at least one.
unfoldable pub next_cursor : (overlap_chars cursor break_at : ℕ) → ℕ
next_cursor overlap_chars cursor break_at =
    let next = max (break_at - overlap_chars) (cursor + 1) in
    if leb next cursor then break_at else next

-- What a round does not change: `size` is `max_chunk_chars`, `ahead` is `int(size * factor)`.
pub record Job : Type 0 where
  pub region : Str
  pub breaks : List ℕ
  pub start : ℕ
  pub stop : ℕ
  pub size : ℕ
  pub ahead : ℕ
  pub overlap_chars : ℕ

abbrev pub extent : Job → ℕ
extent j = j.stop - j.start

-- The `while` loop, on fuel; `first` says that no piece has been made.
unfoldable pub split_loop : ℕ → Job → (first : Bool) → (cursor : ℕ) → List Span
split_loop zero j first cursor = []
split_loop (suc fuel) j first cursor =
    let hard = min (cursor + j.size) (extent j) in
    let break_at = break_of j.region j.breaks (cursor + j.ahead) cursor hard in
    let last : Span = (j.start + cursor, j.stop, if first then 0 else min j.overlap_chars cursor) in
    let piece : Span = (
      j.start + cursor,
      j.start + break_at,
      if first then 0 else min j.overlap_chars (break_at - cursor),
    ) in
    let rest = split_loop fuel j false (next_cursor j.overlap_chars cursor break_at) in
    if ltb cursor (extent j) then (if hard == extent j then last ∷ [] else piece ∷ rest) else []

module _ (candidate_breaks : Bool → Str → List ℕ) (seven_tenths : ℕ → ℕ) where
  -- `int(max_chunk_chars * (0.5 if prefer_list_breaks else 0.7))`
  abbrev ahead_of : Bool → ℕ → ℕ
  ahead_of prefer_list_breaks size = if prefer_list_breaks then size / 2 else seven_tenths size

  abbrev pub job_of : Str → (start stop size overlap_chars : ℕ) → Bool → Job
  job_of text start stop size overlap_chars prefer_list_breaks =
      let region = slice start stop text in
      record {
        region = region;
        breaks = candidate_breaks prefer_list_breaks region;
        start = start;
        stop = stop;
        size = size;
        ahead = ahead_of prefer_list_breaks size;
        overlap_chars = overlap_chars;
      }

  unfoldable pub split_span :
      Str → (start stop size overlap_chars : ℕ) → (prefer_list_breaks : Bool) → List Span
  unfolding split_loop
  split_span text start stop size overlap_chars prefer_list_breaks =
      if leb (stop - start) size
      then (start, stop, 0) ∷ []
      else split_loop (stop - start) (job_of text start stop size overlap_chars prefer_list_breaks)
          true 0
