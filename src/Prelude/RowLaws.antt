-- ===== src/Prelude/RowLaws.antt =====
-- Laws of the statements on tables.
use mathlib.Core.Path.{◌≡◌, refl, ap}
use mathlib.Core.Bool.{Bool, true, false, not, ◌&&◌}
use mathlib.Core.List.{List, [], ◌∷◌, ◌++◌}
use mathlib.Core.Option.{some}
use mathlib.Core.Option
use native.Mathlib.Omega.{arith}
use mathlib.Core.Logic.{inl, inr}
use rag_enterprise.Prelude.Tests.{Bool-cases}
use rag_enterprise.Prelude.Rows.{scalar, rows_where, any_row, all_rows, update_rows, delete_rows}

module _ {ℓ} {A : Type ℓ} where
  -- A row that is found passes what all rows pass, and the test of the search.
  pub scalar-all_rows :
      (p q : A → Bool) (xs : List A) (x : A)
      → all_rows p xs ≡ true
      → scalar q xs ≡ some x
      → p x ≡ true
  unfolding scalar all_rows
  scalar-all_rows p q [] x h e = cc
  scalar-all_rows p q (y ∷ ys) x h e = ground (arith, scalar-all_rows p q ys x)

  pub scalar-test : (q : A → Bool) (xs : List A) (x : A) → scalar q xs ≡ some x → q x ≡ true
  unfolding scalar
  scalar-test q [] x e = cc
  scalar-test q (y ∷ ys) x e = ground (arith, scalar-test q ys x)

  pub all_rows-append :
      (p : A → Bool) (xs : List A) (y : A)
      → all_rows p xs ≡ true
      → p y ≡ true
      → all_rows p (xs ++ y ∷ []) ≡ true
  unfolding all_rows
  all_rows-append p [] y h k = ground arith
  all_rows-append p (x ∷ xs) y h k = ground (arith, all_rows-append p xs y)

  pub any_row-append :
      (p : A → Bool) (xs : List A) (y : A) → any_row p xs ≡ true → any_row p (xs ++ y ∷ []) ≡ true
  unfolding any_row
  any_row-append p [] y h = cc
  any_row-append p (x ∷ xs) y h = ground (arith, any_row-append p xs y)

  pub all_rows-update_rows :
      (p q : A → Bool) (f : A → A) (xs : List A)
      → ((x : A) → p x ≡ true → q x ≡ true → p (f x) ≡ true)
      → all_rows p xs ≡ true
      → all_rows p (update_rows q f xs) ≡ true
  unfolding all_rows update_rows
  all_rows-update_rows p q f [] k h = refl
  all_rows-update_rows p q f (x ∷ xs) k h = ground (arith, k x, all_rows-update_rows p q f xs k)

  pub any_row-update_rows :
      (p q : A → Bool) (f : A → A) (xs : List A)
      → ((x : A) → p x ≡ true → q x ≡ true → p (f x) ≡ true)
      → any_row p xs ≡ true
      → any_row p (update_rows q f xs) ≡ true
  unfolding any_row update_rows
  any_row-update_rows p q f [] k h = cc
  any_row-update_rows p q f (x ∷ xs) k h = ground (arith, k x, any_row-update_rows p q f xs k)

  pub all_rows-delete_rows :
      (p q : A → Bool) (xs : List A) → all_rows p xs ≡ true → all_rows p (delete_rows q xs) ≡ true
  unfolding all_rows delete_rows rows_where
  all_rows-delete_rows p q [] h = refl
  all_rows-delete_rows p q (x ∷ xs) h = ground (arith, all_rows-delete_rows p q xs)

  -- A row that the deletion spares is still found.
  pub any_row-delete_rows :
      (p q r : A → Bool) (xs : List A)
      → ((x : A) → p x ≡ true → r x ≡ true → q x ≡ false)
      → all_rows r xs ≡ true
      → any_row p xs ≡ true
      → any_row p (delete_rows q xs) ≡ true
  unfolding all_rows any_row delete_rows rows_where
  any_row-delete_rows p q r [] k a h = cc
  any_row-delete_rows p q r (x ∷ xs) k a h = ground (arith, k x, any_row-delete_rows p q r xs k)

  -- No row passes a test that `any_row` refutes.
  pub all_rows-any_row :
      (p : A → Bool) (xs : List A) → any_row p xs ≡ false → all_rows (λ x. not (p x)) xs ≡ true
  unfolding all_rows any_row
  all_rows-any_row p [] h = refl
  all_rows-any_row p (x ∷ xs) h = ground (arith, all_rows-any_row p xs)

  pub all_rows-and :
      (p q : A → Bool) (xs : List A)
      → all_rows p xs ≡ true
      → all_rows q xs ≡ true
      → all_rows (λ x. p x && q x) xs ≡ true
  unfolding all_rows
  all_rows-and p q [] h k = refl
  all_rows-and p q (x ∷ xs) h k = ground (arith, all_rows-and p q xs)

  -- The row that has been saved is found, where the one before was.
  pub scalar-update_rows :
      (q r : A → Bool) (new : A) (xs : List A) (old : A)
      → ((x : A) → q x ≡ true → r x ≡ true)
      → q new ≡ true
      → scalar q xs ≡ some old
      → scalar q (update_rows r (λ _. new) xs) ≡ some new
  unfolding scalar update_rows
  scalar-update_rows q r new [] old k n e = cc
  scalar-update_rows q r new (x ∷ xs) old k n e = elim (Bool-cases (r x)) [
    | inl saved ↦ rw saved (rw n refl)
    | inr other ↦ rw other (ground (arith, k x, scalar-update_rows q r new xs old k n))
  ]

  -- The row that an UPDATE of its own search has changed.
  pub scalar-update_same :
      (q : A → Bool) (f : A → A) (xs : List A) (x : A)
      → ((y : A) → q y ≡ true → q (f y) ≡ true)
      → scalar q xs ≡ some x
      → scalar q (update_rows q f xs) ≡ some (f x)
  unfolding scalar update_rows
  scalar-update_same q f [] x k e = cc
  scalar-update_same q f (y ∷ ys) x k e = elim (Bool-cases (q y)) [
    | inl found ↦ rw (found, k y found) (ap (Option.map f) (rw found at e))
    | inr other ↦ rw (other, other) (scalar-update_same q f ys x k (rw other at e))
  ]

  -- A search that some row passes finds one.
  pub scalar-any_row :
      (q : A → Bool) (xs : List A) → any_row q xs ≡ true → (x : A) × (scalar q xs ≡ some x)
  unfolding scalar any_row
  scalar-any_row q [] h = cc
  scalar-any_row q (y ∷ ys) h = elim (Bool-cases (q y)) [
    | inl found ↦ rw found (y, refl)
    | inr other ↦ rw other (scalar-any_row q ys (rw other at h))
  ]
