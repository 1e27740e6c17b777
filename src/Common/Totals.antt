-- ===== src/Common/Totals.antt =====
-- Sums over lists, by a weight for each element. Two lists of equal sums for all weights hold the
-- same elements, as often.
use keyro_core.Common.Tests.{if◌then◌else◌}
use keyro_core.Common.Lists.{filter, total}
use keyro_core.Common.Ordered.{insert_by, sort_by}
use Prim.Native.Nat.{ℕ, ◌+◌, ◌≤◌}
use mathlib.Core.Path.{◌≡◌, refl}
use mathlib.Core.Bool.{Bool, true, false}
use mathlib.Core.List.{List, [], ◌∷◌, ◌++◌}
use native.Mathlib.Omega.{arith}

module _ {A : Type 0} where
  pub total-append : (w : A → ℕ) (xs ys : List A) → total w (xs ++ ys) ≡ total w xs + total w ys
  total-append w [] ys = omega arith
  total-append w (x ∷ xs) ys = omega (arith, total-append w xs ys)

  pub total-filter :
      (w : A → ℕ) (p : A → Bool) (xs : List A)
      → total w (filter p xs) ≡ total (λ x. if p x then w x else 0) xs
  total-filter w p [] = refl
  total-filter w p (x ∷ xs) = ground (arith, total-filter w p xs)

  total-insert_by :
      (le : A → A → Bool) (w : A → ℕ) (a : A) (xs : List A)
      → total w (insert_by le a xs) ≡ w a + total w xs
  total-insert_by le w a [] = refl
  total-insert_by le w a (x ∷ xs) = ground (arith, total-insert_by le w a xs)

  pub total-sort_by :
      (le : A → A → Bool) (w : A → ℕ) (xs : List A) → total w (sort_by le xs) ≡ total w xs
  total-sort_by le w [] = refl
  total-sort_by le w (x ∷ xs) =
      omega (arith, total-insert_by le w x (sort_by le xs), total-sort_by le w xs)

  -- Weights that differ only on elements of weight 0 under a third one of sum 0.
  pub total-masked :
      (p : A → Bool) (w : A → ℕ) (xs : List A)
      → total (λ x. if p x then 1 else 0) xs ≡ 0
      → total (λ x. if p x then 0 else w x) xs ≡ total w xs
  total-masked p w [] h = refl
  total-masked p w (x ∷ xs) h = ground (arith, total-masked p w xs)

  -- Every element is counted by the sums of two lists with the same elements.
  abbrev pub SameElements : List A → List A → Type 0
  SameElements xs ys = (w : A → ℕ) → total w xs ≡ total w ys

  abbrev pub marks : (A → Bool) → A → ℕ
  marks p x = if p x then 1 else 0

  -- When the test holds of one element only, leaving out what passes it leaves out that element.
  pub filter-SameElements :
      (p q : A → Bool) (before : List A) (x : A) (after xs : List A)
      → ((y : A) → q y ≡ (if p y then false else true))
      → p x ≡ true
      → total (marks p) (before ++ x ∷ after) ≤ 1
      → SameElements xs (before ++ x ∷ after)
      → SameElements (filter q xs) (before ++ after)
  filter-SameElements p q before x after xs opposite px one same w = ground (
    arith,
    total-filter w q xs,
    same_weight,
    same (λ y. if p y then 0 else w y),
    total-append (λ y. if p y then 0 else w y) before (x ∷ after),
    total-append w before after,
    total-append (marks p) before (x ∷ after),
    total-masked p w before,
    total-masked p w after,
  )
    where
      same_weight : total (λ y. if q y then w y else 0) xs ≡ total (λ y. if p y then 0 else w y) xs
      same_weight = go xs
        where
          go :
              (ys : List A)
              → total (λ y. if q y then w y else 0) ys ≡ total (λ y. if p y then 0 else w y) ys
          go [] = refl
          go (y ∷ ys) = ground (arith, opposite y, go ys)
