-- ===== src/Chunking/Coalesce/Keeping.antt =====
-- `_coalesce_semantic_units`: the order and the positions of the units that it joins.
use rag_enterprise.Prelude.{
  ℕ, zero, suc, ◌-◌, ◌≤◌, ◌<◌, ◌≡◌, Bool, true, ◌&&◌, Option, none, List, [], ◌∷◌, arith, length,
  leb, any_row, Bool-cases, ◌⊎◌, inl, inr,
}
use rag_enterprise.Prelude.Text.{Str}
use rag_enterprise.Chunking.Merge.{Kind, faq, list, table, TextUnit}
use rag_enterprise.Chunking.Merge.Spans.{Ascending, in_units, in_units-cases, in_units-cons}
use rag_enterprise.Chunking.Coalesce.{
  is_list, is_faq, is_table, is_answer, run_of, max_pair_chars, faq_pair, coalesce_step,
  coalesce_loop, coalesce_units,
}

-- The position is below `stop`, or in one of the units.
abbrev Below : ℕ → ℕ → List TextUnit → Type 0
Below p stop us = (p < stop) ⊎ (in_units p us ≡ true)

-- What a run that ends at `stop`, with `rest` behind it, keeps of units that begin at `from`.
record Runs (from : ℕ) (us : List TextUnit) (stop : ℕ) (rest : List TextUnit) : Type 0 where
  forward : from ≤ stop
  ascending : Ascending stop rest
  shorter : length rest ≤ length us
  keeps : (p : ℕ) → in_units p us ≡ true → Below p stop rest

run_of-Runs :
    (test : Kind → Bool) (from : ℕ) (us : List TextUnit)
    → Ascending from us
    → Runs from us (run_of test from us).0 (run_of test from us).1
unfolding run_of any_row
run_of-Runs test from [] a = record {
  forward = omega arith;
  ascending = tt;
  shorter = omega arith;
  keeps = λ p h. inr h;
}
run_of-Runs test from (u ∷ us) a = elim (Bool-cases (test u.kind)) [
  | inl joins ↦
      let r = run_of-Runs test u.stop us a.2 in
      rw joins (record {
        forward = omega (arith, r.forward, a.0, a.1);
        ascending = r.ascending;
        shorter = omega (arith, r.shorter);
        keeps = λ p h. elim (in_units-cases p u us h) [
          | inl here ↦ inl (omega (arith, here.1, r.forward))
          | inr elsewhere ↦ r.keeps p elsewhere
        ];
      })
  | inr ends ↦
      rw ends (record {
        forward = omega arith;
        ascending = a;
        shorter = omega arith;
        keeps = λ p h. inr h;
      })
]

-- What a round keeps: the unit that it appends, and the ones that are left.
record Steps (lo : ℕ) (current : TextUnit) (us : List TextUnit) (u : TextUnit)
    (rest : List TextUnit) : Type 0 where
  start : lo ≤ u.start
  forward : u.start ≤ u.stop
  ascending : Ascending u.stop rest
  shorter : length rest ≤ length us
  keeps :
      (p : ℕ)
      → in_units p (current ∷ us) ≡ true
      → ((u.start ≤ p) × (p < u.stop)) ⊎ (in_units p rest ≡ true)

-- The unit itself.
alone :
    (lo : ℕ) (current : TextUnit) (us : List TextUnit)
    → Ascending lo (current ∷ us)
    → Steps lo current us current us
alone lo current us a = record {
  start = a.0;
  forward = a.1;
  ascending = a.2;
  shorter = omega arith;
  keeps = λ p h. in_units-cases p current us h;
}

-- A unit that runs on to `stop`, of any kind.
joined :
    (lo : ℕ) (current : TextUnit) (us : List TextUnit) (kind : Kind) (title : Option Str) (stop : ℕ)
    (rest : List TextUnit)
    → Ascending lo (current ∷ us)
    → Runs current.stop us stop rest
    → ((p : ℕ) → in_units p us ≡ true → current.start ≤ p)
    → Steps lo current us
        (record { start = current.start; stop = stop; kind = kind; title = title })
        rest
joined lo current us kind title stop rest a r behind = record {
  start = a.0;
  forward = omega (arith, a.1, r.forward);
  ascending = r.ascending;
  shorter = r.shorter;
  keeps = λ p h. elim (in_units-cases p current us h) [
    | inl here ↦ inl (here.0, omega (arith, here.1, r.forward))
    | inr later ↦ elim (r.keeps p later) [
      | inl below ↦ inl (behind p later, below)
      | inr left ↦ inr left
    ]
  ];
}

in_units-le : (lo p : ℕ) (us : List TextUnit) → Ascending lo us → in_units p us ≡ true → lo ≤ p
unfolding any_row
in_units-le lo p [] a h = cc
in_units-le lo p (u ∷ us) a h = elim (in_units-cases p u us h) [
  | inl here ↦ omega (arith, here.0, a.0)
  | inr later ↦ omega (arith, in_units-le u.stop p us a.2 later, a.0, a.1)
]

-- A run of units of one kind.
run-Steps :
    (test : Kind → Bool) (lo : ℕ) (current : TextUnit) (us : List TextUnit) (kind : Kind)
    (title : Option Str)
    → Ascending lo (current ∷ us)
    → Steps lo current us
        (record {
          start = current.start;
          stop = (run_of test current.stop us).0;
          kind = kind;
          title = title;
        })
        (run_of test current.stop us).1
run-Steps test lo current us kind title a =
    joined lo current us kind title _ _ a (run_of-Runs test current.stop us a.2)
      (λ p h. omega (arith, in_units-le current.stop p us a.2 h, a.1))

faq_pair-Steps :
    (lo : ℕ) (current : TextUnit) (us : List TextUnit)
    → Ascending lo (current ∷ us)
    → Steps lo current us (faq_pair current us).0 (faq_pair current us).1
unfolding faq_pair
faq_pair-Steps lo current [] a = alone lo current [] a
faq_pair-Steps lo current (next ∷ us) a =
    elim (Bool-cases (is_answer next.kind && leb (next.stop - current.start) max_pair_chars)) [
      | inl pair ↦ rw pair (
          joined lo current (next ∷ us) faq current.title next.stop us a
            (record {
              forward = omega (arith, a.2.0, a.2.1);
              ascending = a.2.2;
              shorter = omega arith;
              keeps = λ p h. elim (in_units-cases p next us h) [
                | inl here ↦ inl here.1
                | inr later ↦ inr later
              ];
            })
            (λ p h. omega (arith, in_units-le current.stop p (next ∷ us) a.2 h, a.1)))
      | inr apart ↦ rw apart (alone lo current (next ∷ us) a)
    ]

coalesce_step-Steps :
    (lo : ℕ) (current : TextUnit) (us : List TextUnit)
    → Ascending lo (current ∷ us)
    → Steps lo current us (coalesce_step current us).0 (coalesce_step current us).1
unfolding coalesce_step
coalesce_step-Steps lo current us a = elim (Bool-cases (is_list current.kind)) [
  | inl a_list ↦ rw a_list (run-Steps is_list lo current us list current.title a)
  | inr no_list ↦ rw no_list (elim (Bool-cases (is_faq current.kind)) [
    | inl a_faq ↦ rw a_faq (faq_pair-Steps lo current us a)
    | inr no_faq ↦ rw no_faq (elim (Bool-cases (is_table current.kind)) [
      | inl a_table ↦ rw a_table (run-Steps is_table lo current us table none a)
      | inr other ↦ rw other (alone lo current us a)
    ])
  ])
]

-- With fuel for the units that are left, the loop keeps their order and their positions.
coalesce_loop-keeps :
    (fuel lo : ℕ) (us : List TextUnit)
    → length us ≤ fuel
    → Ascending lo us
    → Ascending lo (coalesce_loop fuel us)
      × ((p : ℕ) → in_units p us ≡ true → in_units p (coalesce_loop fuel us) ≡ true)
unfolding coalesce_loop
coalesce_loop-keeps zero lo [] f a = (tt, λ p h. h)
coalesce_loop-keeps zero lo (u ∷ us) f a = absurd (omega arith)
coalesce_loop-keeps (suc fuel) lo [] f a = (tt, λ p h. h)
coalesce_loop-keeps (suc fuel) lo (current ∷ us) f a =
    let s = coalesce_step-Steps lo current us a in
    let rest =
      coalesce_loop-keeps fuel (coalesce_step current us).0.stop (coalesce_step current us).1
        (omega (arith, s.shorter)) s.ascending in
    (
      (s.start, s.forward, rest.0),
      λ p h.
          in_units-cons p (coalesce_step current us).0
            (coalesce_loop fuel (coalesce_step current us).1)
            (elim (s.keeps p h) [ inl here ↦ inl here | inr later ↦ inr (rest.1 p later) ]),
    )

-- Joining units that follow one another gives units that follow one another, and each position of a
-- unit lies in a joined unit.
pub coalesce_units-keeps :
    (us : List TextUnit) (lo : ℕ)
    → Ascending lo us
    → Ascending lo (coalesce_units us)
      × ((p : ℕ) → in_units p us ≡ true → in_units p (coalesce_units us) ≡ true)
unfolding coalesce_units
coalesce_units-keeps us lo a = coalesce_loop-keeps (length us) lo us (omega arith) a
