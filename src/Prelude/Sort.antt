-- ===== src/Prelude/Sort.antt =====
-- `sort.Slice`: insertion by a Boolean `less`. Go leaves the order of elements that `less` does
-- not tell apart open; here they keep the order in which they came.
use mathlib.Core.Path.{◌≡◌}
use mathlib.Core.Bool.{Bool}
use mathlib.Core.List.{List, [], ◌∷◌}
use native.Mathlib.Omega.{arith}
use relaybox.Prelude.Tests.{if◌then◌else◌}
use relaybox.Prelude.Lists.{length, All}

module _ {ℓ} {A : Type ℓ} (less : A → A → Bool) where
  unfoldable pub insert : A → List A → List A
  insert x [] = x ∷ []
  insert x (y ∷ ys) = if less y x then y ∷ insert x ys else x ∷ y ∷ ys

  unfoldable pub sort : List A → List A
  unfolding insert
  sort [] = []
  sort (x ∷ xs) = insert x (sort xs)

  length-insert : (x : A) (xs : List A) → length (insert x xs) ≡ length (x ∷ xs)
  unfolding insert
  length-insert x [] = omega arith
  length-insert x (y ∷ ys) = ground (arith, length-insert x ys)

  pub length-sort : (xs : List A) → length (sort xs) ≡ length xs
  unfolding sort
  length-sort [] = omega arith
  length-sort (x ∷ xs) = omega (arith, length-insert x (sort xs), length-sort xs)

module _ {ℓ κ} {A : Type ℓ} (less : A → A → Bool) (P : A → Type κ) where
  All-insert : (x : A) (xs : List A) → P x → All P xs → All P (insert less x xs)
  unfolding insert
  All-insert x [] hx h = (hx, tt)
  All-insert x (y ∷ ys) hx h = ground (arith, All-insert x ys hx h.1)

  pub All-sort : (xs : List A) → All P xs → All P (sort less xs)
  unfolding sort
  All-sort [] h = tt
  All-sort (x ∷ xs) h = All-insert x (sort less xs) h.0 (All-sort xs h.1)
