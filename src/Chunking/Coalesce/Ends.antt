-- ===== src/Chunking/Coalesce/Ends.antt =====
-- `_coalesce_semantic_units`: where the units end.
use rag_enterprise.Prelude.{
  ℕ, zero, suc, ◌-◌, ◌≤◌, Bool, List, [], ◌∷◌, length, leb, Bool-cases, inl, inr, All, ◌&&◌,
}
use rag_enterprise.Chunking.Merge.{Kind, TextUnit}
use rag_enterprise.Chunking.Merge.Ends.{UnitEndsBy}
use rag_enterprise.Chunking.Coalesce.{
  is_list, is_faq, is_table, is_answer, run_of, max_pair_chars, faq_pair, coalesce_step,
  coalesce_loop, coalesce_units,
}

module _ (n : ℕ) where
  run_of-Ends :
      (test : Kind → Bool) (stop : ℕ) (us : List TextUnit)
      → stop ≤ n
      → All (UnitEndsBy n) us
      → ((run_of test stop us).0 ≤ n) × All (UnitEndsBy n) (run_of test stop us).1
  unfolding run_of
  run_of-Ends test stop [] h e = (h, e)
  run_of-Ends test stop (u ∷ us) h e = elim (Bool-cases (test u.kind)) [
    | inl joins ↦ rw joins (run_of-Ends test u.stop us e.0 e.1)
    | inr ends ↦ rw ends (h, e)
  ]

  faq_pair-Ends :
      (u : TextUnit) (us : List TextUnit)
      → UnitEndsBy n u
      → All (UnitEndsBy n) us
      → UnitEndsBy n (faq_pair u us).0 × All (UnitEndsBy n) (faq_pair u us).1
  unfolding faq_pair
  faq_pair-Ends u [] h e = (h, e)
  faq_pair-Ends u (next ∷ us) h e =
      elim (Bool-cases (is_answer next.kind && leb (next.stop - u.start) max_pair_chars)) [
        | inl pair ↦ rw pair e
        | inr apart ↦ rw apart (h, e)
      ]

  coalesce_step-Ends :
      (u : TextUnit) (us : List TextUnit)
      → UnitEndsBy n u
      → All (UnitEndsBy n) us
      → UnitEndsBy n (coalesce_step u us).0 × All (UnitEndsBy n) (coalesce_step u us).1
  unfolding coalesce_step
  coalesce_step-Ends u us h e = elim (Bool-cases (is_list u.kind)) [
    | inl a_list ↦ rw a_list (run_of-Ends is_list u.stop us h e)
    | inr no_list ↦ rw no_list (elim (Bool-cases (is_faq u.kind)) [
      | inl a_faq ↦ rw a_faq (faq_pair-Ends u us h e)
      | inr no_faq ↦ rw no_faq (elim (Bool-cases (is_table u.kind)) [
        | inl a_table ↦ rw a_table (run_of-Ends is_table u.stop us h e)
        | inr other ↦ rw other (h, e)
      ])
    ])
  ]

  coalesce_loop-Ends :
      (fuel : ℕ) (us : List TextUnit)
      → All (UnitEndsBy n) us
      → All (UnitEndsBy n) (coalesce_loop fuel us)
  unfolding coalesce_loop
  coalesce_loop-Ends zero us e = tt
  coalesce_loop-Ends (suc fuel) [] e = tt
  coalesce_loop-Ends (suc fuel) (u ∷ us) e =
      let step = coalesce_step-Ends u us e.0 e.1 in
      (step.0, coalesce_loop-Ends fuel (coalesce_step u us).1 step.1)

  -- No joined unit ends behind the last unit.
  pub coalesce_units-EndsBy :
      (us : List TextUnit) → All (UnitEndsBy n) us → All (UnitEndsBy n) (coalesce_units us)
  unfolding coalesce_units
  coalesce_units-EndsBy us = coalesce_loop-Ends (length us) us
