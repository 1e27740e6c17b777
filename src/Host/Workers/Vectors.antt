-- ===== src/Host/Workers/Vectors.antt =====
-- `Vec::swap_remove` and indexing, of the vectors of crates/keyro-core/src/main.rs.
use keyro_core.Common.{
  ℕ, zero, suc, ◌+◌, ◌<◌, ◌≤◌, ◌≡◌, refl, Bool, List, [], ◌∷◌, Option, none, some, arith, length,
  count, if◌then◌else◌,
}

module _ {A : Type 0} where
  abbrev pub get_elem? : List A → ℕ → Option A
  get_elem? [] i = none
  get_elem? (x ∷ xs) zero = some x
  get_elem? (x ∷ xs) (suc i) = get_elem? xs i

  abbrev pub set : ℕ → A → List A → List A
  set i y [] = []
  set zero y (x ∷ xs) = y ∷ xs
  set (suc i) y (x ∷ xs) = x ∷ set i y xs

  -- The last element of a vector that starts with `x`.
  abbrev pub last : A → List A → A
  last x [] = x
  last x (y ∷ ys) = last y ys

  abbrev pub drop_last : A → List A → List A
  drop_last x [] = []
  drop_last x (y ∷ ys) = x ∷ drop_last y ys

module _ {A : Type 0} where
  abbrev shrink : List A → List A
  shrink [] = []
  shrink (x ∷ xs) = drop_last x xs

module _ {A : Type 0} where
  -- The last element replaces the one at the index. (Out of range the crate panics; the vector is
  -- only indexed in range.)
  unfoldable pub swap_remove : ℕ → List A → List A
  swap_remove i [] = []
  swap_remove i (x ∷ xs) = shrink (set i (last x xs) (x ∷ xs))

  count-drop_last :
      (p : A → Bool) (x : A) (xs : List A)
      → count p (drop_last x xs) + (if p (last x xs) then 1 else 0) ≡ count p (x ∷ xs)
  count-drop_last p x [] = ground arith
  count-drop_last p x (y ∷ ys) = ground (arith, count-drop_last p y ys)

  count-set :
      (p : A → Bool) (i : ℕ) (y x : A) (xs : List A)
      → get_elem? xs i ≡ some x
      → count p (set i y xs) + (if p x then 1 else 0) ≡ count p xs + (if p y then 1 else 0)
  count-set p i y x [] h = absurd (ground arith)
  count-set p zero y x (z ∷ zs) h = ground arith
  count-set p (suc i) y x (z ∷ zs) h = ground (arith, count-set p i y x zs h)

  last-last : (y : A) (ys : List A) → last (last y ys) ys ≡ last y ys
  last-last y [] = refl
  last-last y (w ∷ ws) = refl

  last-set : (i : ℕ) (x z : A) (xs : List A) → last z (set i (last z xs) xs) ≡ last z xs
  last-set i x z [] = refl
  last-set zero x z (y ∷ ys) = last-last y ys
  last-set (suc i) x z (y ∷ ys) = last-set i x y ys

  -- The vector loses the element at the index and no other.
  pub count-swap_remove :
      (p : A → Bool) (i : ℕ) (x : A) (xs : List A)
      → get_elem? xs i ≡ some x
      → count p (swap_remove i xs) + (if p x then 1 else 0) ≡ count p xs
  unfolding swap_remove
  count-swap_remove p i x [] h = absurd (ground arith)
  count-swap_remove p zero x (y ∷ ys) h =
      ground (arith, count-drop_last p (last y ys) ys, last-last y ys)
  count-swap_remove p (suc i) x (y ∷ ys) h = ground (
    arith,
    count-drop_last p y (set i (last y ys) ys),
    last-set i y y ys,
    count-set p i (last y ys) x ys h,
  )

  length-drop_last : (x : A) (xs : List A) → length (drop_last x xs) ≡ length xs
  length-drop_last x [] = refl
  length-drop_last x (y ∷ ys) = ground (arith, length-drop_last y ys)

  length-set : (i : ℕ) (y : A) (xs : List A) → length (set i y xs) ≡ length xs
  length-set i y [] = refl
  length-set zero y (x ∷ xs) = refl
  length-set (suc i) y (x ∷ xs) = ground (arith, length-set i y xs)

  pub length-swap_remove :
      (i : ℕ) (x : A) (xs : List A)
      → get_elem? xs i ≡ some x
      → suc (length (swap_remove i xs)) ≡ length xs
  unfolding swap_remove
  length-swap_remove i x [] h = absurd (ground arith)
  length-swap_remove zero x (y ∷ ys) h = ground (arith, length-drop_last (last y ys) ys)
  length-swap_remove (suc i) x (y ∷ ys) h =
      ground (arith, length-drop_last y (set i (last y ys) ys), length-set i (last y ys) ys)

  -- Elements before the index stay.
  get-drop_last :
      (j : ℕ) (x : A) (xs : List A)
      → j < length xs
      → get_elem? (drop_last x xs) j ≡ get_elem? (x ∷ xs) j
  get-drop_last j x [] h = absurd (omega arith)
  get-drop_last zero x (y ∷ ys) h = refl
  get-drop_last (suc j) x (y ∷ ys) h = get-drop_last j y ys (omega arith)

  get-set_before :
      (j i : ℕ) (y : A) (xs : List A) → j < i → get_elem? (set i y xs) j ≡ get_elem? xs j
  get-set_before j i y [] h = refl
  get-set_before j zero y (x ∷ xs) h = absurd (omega arith)
  get-set_before zero (suc i) y (x ∷ xs) h = refl
  get-set_before (suc j) (suc i) y (x ∷ xs) h = get-set_before j i y xs (omega arith)

  pub get_elem?-swap_remove :
      (j i : ℕ) (x : A) (xs : List A)
      → j < i
      → i < length xs
      → get_elem? (swap_remove i xs) j ≡ get_elem? xs j
  unfolding swap_remove
  get_elem?-swap_remove j i x [] less inside = refl
  get_elem?-swap_remove j zero x (y ∷ ys) less inside = absurd (omega arith)
  get_elem?-swap_remove j (suc i) x (y ∷ ys) less inside = ground (
    arith,
    get-drop_last j y (set i (last y ys) ys),
    length-set i (last y ys) ys,
    get-set_before j (suc i) (last y ys) (y ∷ ys),
  )

  pub get_elem?-length : (i : ℕ) (x : A) (xs : List A) → get_elem? xs i ≡ some x → i < length xs
  get_elem?-length i x [] h = absurd (ground arith)
  get_elem?-length zero x (y ∷ ys) h = omega arith
  get_elem?-length (suc i) x (y ∷ ys) h = ground (arith, get_elem?-length i x ys h)

  pub length-get_elem?-none : (i : ℕ) (xs : List A) → get_elem? xs i ≡ none → length xs ≤ i
  length-get_elem?-none i [] h = omega arith
  length-get_elem?-none zero (y ∷ ys) h = absurd (ground arith)
  length-get_elem?-none (suc i) (y ∷ ys) h = ground (arith, length-get_elem?-none i ys h)
