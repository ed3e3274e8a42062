-- ===== src/Chunking/Pieces/Trimming.antt =====
-- `_trim_span`: what the ends of a span lose.
use rag_enterprise.Prelude.{
  ℕ, zero, suc, ◌+◌, ◌-◌, ◌≤◌, ◌<◌, ◌≡◌, true, false, ◌&&◌, arith, ltb, Bool-cases, inl, inr, ◌≢◌,
  lt→ltb,
}
use rag_enterprise.Prelude.Text.{Str}
use rag_enterprise.Chunking.Pieces.{blank_at, trim_front, trim_back, trim_span}

differ : (text : Str) (i p : ℕ) → blank_at text i ≡ true → blank_at text p ≡ false → i ≢ p
differ text i p blank solid e = cc

trim_front-keeps :
    (fuel : ℕ) (text : Str) (start stop p : ℕ)
    → blank_at text p ≡ false
    → start ≤ p
    → trim_front fuel text start stop ≤ p
unfolding trim_front
trim_front-keeps zero text start stop p b h = h
trim_front-keeps (suc fuel) text start stop p b h = elim (Bool-cases (blank_at text start)) [
  | inl blank ↦
      let apart = differ text start p blank b in
      let rest = trim_front-keeps fuel text (start + 1) stop p b (omega (arith, apart)) in
      ground (arith, rest)
  | inr solid ↦ ground arith
]

trim_back-keeps :
    (text : Str) (start stop p : ℕ)
    → blank_at text p ≡ false
    → p < stop
    → p < trim_back text start stop
unfolding trim_back
trim_back-keeps text start zero p b h = h
trim_back-keeps text start (suc stop) p b h = elim (Bool-cases (blank_at text stop)) [
  | inl blank ↦
      let apart = differ text stop p blank b in
      let rest = trim_back-keeps text start stop p b (omega (arith, apart)) in ground (arith, rest)
  | inr solid ↦ ground arith
]

-- A position that is not blank stays within the span.
pub trim_span-keeps :
    (text : Str) (start stop p : ℕ)
    → blank_at text p ≡ false
    → start ≤ p
    → p < stop
    → ((trim_span text start stop).0 ≤ p) × (p < (trim_span text start stop).1)
unfolding trim_span
trim_span-keeps text start stop p b lo hi = (
  trim_front-keeps (stop - start) text start stop p b lo,
  trim_back-keeps text (trim_front (stop - start) text start stop) stop p b hi,
)

trim_front-ends :
    (fuel : ℕ) (text : Str) (start stop : ℕ)
    → stop ≤ start + fuel
    → trim_front fuel text start stop < stop
    → blank_at text (trim_front fuel text start stop) ≡ false
unfolding trim_front
trim_front-ends zero text start stop f h = absurd (omega arith)
trim_front-ends (suc fuel) text start stop f h =
    elim (Bool-cases (ltb start stop && blank_at text start)) [
      | inl more ↦ rw more (trim_front-ends fuel text (start + 1) stop (omega arith) (rw more at h))
      | inr done ↦
          let within : ltb start stop ≡ true = lt→ltb start stop (rw done at h) in
          rw done (ground arith)
    ]

trim_back-ends :
    (text : Str) (start stop : ℕ)
    → start < trim_back text start stop
    → blank_at text (trim_back text start stop - 1) ≡ false
unfolding trim_back
trim_back-ends text start zero h = absurd (omega arith)
trim_back-ends text start (suc stop) h =
    elim (Bool-cases (ltb start (suc stop) && blank_at text stop)) [
      | inl more ↦ rw more (trim_back-ends text start stop (rw more at h))
      | inr done ↦
          let within : ltb start (suc stop) ≡ true = lt→ltb start (suc stop) (rw done at h) in
          let pred : suc stop - 1 ≡ stop = omega arith in rw done (rw pred (ground arith))
    ]

trim_back-le : (text : Str) (start stop : ℕ) → trim_back text start stop ≤ stop
unfolding trim_back
trim_back-le text start zero = omega arith
trim_back-le text start (suc stop) = ground (arith, trim_back-le text start stop)

-- If anything is left of the span, neither of its ends is blank.
pub trim_span-ends :
    (text : Str) (start stop : ℕ)
    → (trim_span text start stop).0 < (trim_span text start stop).1
    → (blank_at text (trim_span text start stop).0 ≡ false)
      × (blank_at text ((trim_span text start stop).1 - 1) ≡ false)
unfolding trim_span
trim_span-ends text start stop h =
    let first = trim_front (stop - start) text start stop in
    (
      trim_front-ends (stop - start) text start stop (omega arith)
          (omega (arith, h, trim_back-le text first stop)),
      trim_back-ends text first stop h,
    )

trim_front-ge : (fuel : ℕ) (text : Str) (start stop : ℕ) → start ≤ trim_front fuel text start stop
unfolding trim_front
trim_front-ge zero text start stop = omega arith
trim_front-ge (suc fuel) text start stop = ground (arith, trim_front-ge fuel text (start + 1) stop)

-- What is left lies within the span.
pub trim_span-within :
    (text : Str) (start stop : ℕ)
    → (start ≤ (trim_span text start stop).0) × ((trim_span text start stop).1 ≤ stop)
unfolding trim_span
trim_span-within text start stop = (
  trim_front-ge (stop - start) text start stop,
  trim_back-le text (trim_front (stop - start) text start stop) stop,
)
