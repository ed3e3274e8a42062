-- ===== src/Chunking/Merge/Spans.antt =====
-- Spans of a text: the positions that they cover, and their order.
use rag_enterprise.Prelude.{
  ℕ, ◌≤◌, ◌<◌, ◌≡◌, Bool, true, ◌&&◌, List, [], ◌∷◌, ◌++◌, arith, ltb, leb, any_row, Bool-cases,
  ◌⊎◌, inl, inr,
}
use rag_enterprise.Chunking.Split.{Span}
use rag_enterprise.Chunking.Split.Tiling.{Tiles}
use rag_enterprise.Chunking.Merge.{TextUnit, Limits, merge_tail}

-- The units follow one another from `lo` on.
abbrev pub Ascending : ℕ → List TextUnit → Type 0
Ascending lo [] = Unit
Ascending lo (u ∷ us) = (lo ≤ u.start) × (u.start ≤ u.stop) × Ascending u.stop us

-- The position lies in a unit.
abbrev pub in_units : ℕ → List TextUnit → Bool
in_units p us = any_row (λ u. leb u.start p && ltb p u.stop) us

pub in_units-cases :
    (p : ℕ) (u : TextUnit) (us : List TextUnit)
    → in_units p (u ∷ us) ≡ true
    → ((u.start ≤ p) × (p < u.stop)) ⊎ (in_units p us ≡ true)
unfolding any_row
in_units-cases p u us h = elim (Bool-cases (leb u.start p && ltb p u.stop)) [
  | inl here ↦ inl (ground arith, ground arith)
  | inr elsewhere ↦ inr (ground arith)
]

pub in_units-cons :
    (p : ℕ) (u : TextUnit) (us : List TextUnit)
    → ((u.start ≤ p) × (p < u.stop)) ⊎ (in_units p us ≡ true)
    → in_units p (u ∷ us) ≡ true
unfolding any_row
in_units-cons p u us (inl (lo, hi)) = ground arith
in_units-cons p u us (inr h) = ground arith

abbrev pub contains : ℕ → Span → Bool
contains p (s, e, o) = leb s p && ltb p e

-- The position lies in a span.
abbrev pub IsCovered : ℕ → List Span → Type 0
IsCovered p spans = any_row (contains p) spans ≡ true

pub any_row-append_left : (p : ℕ) (xs ys : List Span) → IsCovered p xs → IsCovered p (xs ++ ys)
unfolding any_row
any_row-append_left p [] ys h = cc
any_row-append_left p (x ∷ xs) ys h = ground (arith, any_row-append_left p xs ys)

pub any_row-append_right : (p : ℕ) (xs ys : List Span) → IsCovered p ys → IsCovered p (xs ++ ys)
unfolding any_row
any_row-append_right p [] ys h = h
any_row-append_right p (x ∷ xs) ys h = ground (arith, any_row-append_right p xs ys)

pub Tiles-IsCovered :
    (start stop size : ℕ) (xs : List Span) (p : ℕ)
    → Tiles start stop size xs
    → start ≤ p
    → p < stop
    → IsCovered p xs
unfolding any_row
Tiles-IsCovered start stop size [] p t a b = absurd t
Tiles-IsCovered start stop size ((s, e, o) ∷ []) p t a b = ground arith
Tiles-IsCovered start stop size ((s, e, o) ∷ (s', e', o') ∷ r) p t a b =
    ground (arith, Tiles-IsCovered s' stop size ((s', e', o') ∷ r) p)

-- The ends of the spans are at most `stop`, the last one is, and the starts do not fall.
abbrev pub Ended : ℕ → List Span → Type 0
Ended stop [] = Unit
Ended stop ((s, e, o) ∷ []) = (s ≤ e) × (e ≡ stop)
Ended stop ((s, e, o) ∷ (s', e', o') ∷ r) =
    (s ≤ e) × (e ≤ stop) × (s ≤ s') × Ended stop ((s', e', o') ∷ r)

Tiles-Ended : (start stop size : ℕ) (xs : List Span) → Tiles start stop size xs → Ended stop xs
Tiles-Ended start stop size [] t = absurd t
Tiles-Ended start stop size ((s, e, o) ∷ []) t = omega arith
Tiles-Ended start stop size ((s, e, o) ∷ (s', e', o') ∷ r) t =
    (omega arith, t.3, omega arith, Tiles-Ended s' stop size ((s', e', o') ∷ r) t.6)

Tiles-lt : (start stop size : ℕ) (xs : List Span) → Tiles start stop size xs → start < stop
Tiles-lt start stop size [] t = absurd t
Tiles-lt start stop size ((s, e, o) ∷ []) t = omega arith
Tiles-lt start stop size ((s, e, o) ∷ (s', e', o') ∷ r) t = omega arith

pub Ended-append :
    (m start stop size : ℕ) (xs ys : List Span)
    → Ended m xs
    → m ≤ start
    → Tiles start stop size ys
    → Ended stop (xs ++ ys)
Ended-append m start stop size [] ys h q t = Tiles-Ended start stop size ys t
Ended-append m start stop size ((s, e, o) ∷ []) [] h q t = absurd t
Ended-append m start stop size ((s, e, o) ∷ []) ((s', e', o') ∷ []) h q t =
    (h.0, omega arith, omega arith, omega arith)
Ended-append m start stop size ((s, e, o) ∷ []) ((s', e', o') ∷ y ∷ ys) h q t =
    let lt = Tiles-lt start stop size ((s', e', o') ∷ y ∷ ys) t in
    (h.0, omega arith, omega arith, Tiles-Ended start stop size ((s', e', o') ∷ y ∷ ys) t)
Ended-append m start stop size ((s, e, o) ∷ (s', e', o') ∷ xs) ys h q t =
    let lt = Tiles-lt start stop size ys t in
    (h.0, omega arith, h.2, Ended-append m start stop size ((s', e', o') ∷ xs) ys h.3 q t)

pub merge_tail-IsCovered :
    (l : Limits) (m : ℕ) (xs : List Span) (p : ℕ)
    → Ended m xs
    → IsCovered p xs
    → IsCovered p (merge_tail l xs)
unfolding merge_tail any_row
merge_tail-IsCovered l m [] p h c = c
merge_tail-IsCovered l m (x ∷ []) p h c = c
merge_tail-IsCovered l m ((ps, pe, po) ∷ (ls, le, lo) ∷ []) p h c = ground arith
merge_tail-IsCovered l m ((ps, pe, po) ∷ q ∷ r ∷ rest) p h c =
    ground (arith, merge_tail-IsCovered l m (q ∷ r ∷ rest) p h.3)
