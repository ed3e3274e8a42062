-- ===== src/Chunking/Coalesce.antt =====
-- splitter.py: `_coalesce_semantic_units`, which joins neighbouring units that belong together.
pub mod Keeping
pub mod Ends
use rag_enterprise.Prelude.{
  ℕ, zero, suc, ◌-◌, Bool, true, false, ◌&&◌, Option, none, some, List, [], ◌∷◌, length, leb,
  if◌then◌else◌,
}
use rag_enterprise.Chunking.Merge.{Kind, heading, list, faq, table, clause, prose, TextUnit}

abbrev pub is_list : Kind → Bool
is_list list = true
is_list _ = false

abbrev pub is_table : Kind → Bool
is_table table = true
is_table _ = false

abbrev pub is_faq : Kind → Bool
is_faq faq = true
is_faq _ = false

-- `kind in {"prose", "clause", "list", "table"}`
abbrev pub is_answer : Kind → Bool
is_answer heading = false
is_answer faq = false
is_answer _ = true

-- The inner loops: the end of the last unit in a row that passes the test, and what follows it.
unfoldable pub run_of : (Kind → Bool) → ℕ → List TextUnit → ℕ × List TextUnit
run_of test stop [] = (stop, [])
run_of test stop (u ∷ us) =
    let rest = run_of test u.stop us in if test u.kind then rest else (stop, u ∷ us)

-- `DEFAULT_MAX_CHUNK_CHARS + DEFAULT_TARGET_CHUNK_CHARS`
abbrev pub max_pair_chars : ℕ
max_pair_chars = 2200

-- A question with the unit behind it, if that can be its answer and the pair is not too long.
unfoldable pub faq_pair : TextUnit → List TextUnit → TextUnit × List TextUnit
faq_pair current [] = (current, [])
faq_pair current (next ∷ us) =
    if is_answer next.kind && leb (next.stop - current.start) max_pair_chars
    then (record { start = current.start; stop = next.stop; kind = faq; title = current.title }, us)
    else (current, next ∷ us)

-- One round of the outer loop: the unit to append, and the units that are left.
unfoldable pub coalesce_step : TextUnit → List TextUnit → TextUnit × List TextUnit
coalesce_step current us =
    if is_list current.kind
    then (let (stop, rest) = run_of is_list current.stop us in
        (record { start = current.start; stop = stop; kind = list; title = current.title }, rest))
    else if is_faq current.kind
    then faq_pair current us
    else if is_table current.kind
    then (let (stop, rest) = run_of is_table current.stop us in
        (record { start = current.start; stop = stop; kind = table; title = none }, rest))
    else (current, us)

-- The outer loop, on fuel: each round takes at least one unit.
unfoldable pub coalesce_loop : ℕ → List TextUnit → List TextUnit
coalesce_loop zero us = []
coalesce_loop (suc fuel) [] = []
coalesce_loop (suc fuel) (current ∷ us) =
    let (u, rest) = coalesce_step current us in u ∷ coalesce_loop fuel rest

unfoldable pub coalesce_units : List TextUnit → List TextUnit
unfolding coalesce_loop
coalesce_units us = coalesce_loop (length us) us
