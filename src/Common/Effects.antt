-- ===== src/Common/Effects.antt =====
-- The entries that a method adds to a trace of the state, with its result, and a rule for each way to
-- build a method.
use mathlib.Core.Path.{◌≡◌, refl}
use mathlib.Core.List.{List, [], ◌∷◌, ◌++◌, append_assoc, append-nil}
use keyro_core.Common.Results.{Result, ok, err}
use keyro_core.Common.Exec.{Exec, lift, attempt, ◌>>=◌}

module _ {X W E A : Type 0} (trace : W → List X) where
  -- The method adds nothing.
  pub record IsQuiet (m : Exec W E A) : Type 0 where
    pub at : (w : W) → trace (m w).1 ≡ trace w

  -- The method adds one entry, which tells what it answers.
  pub record Records (entry : Result E A → X) (m : Exec W E A) : Type 0 where
    pub at : (w : W) → trace (m w).1 ≡ trace w ++ entry (m w).0 ∷ []

  -- What the method adds and its result are related by `P`.
  pub record Emits (P : Result E A → List X → Type 0) (m : Exec W E A) : Type 0 where
    pub at : (w : W) → (added : List X) × (trace (m w).1 ≡ trace w ++ added) × P (m w).0 added

module _ {X W E A B : Type 0} (trace : W → List X) where
  pub Emits-bind :
      (Q : Result E A → List X → Type 0) (P : Result E B → List X → Type 0) (m : Exec W E A)
      (f : A → Exec W E B)
      → Emits trace Q m
      → ((e : E) (xs : List X) → Q (err e) xs → P (err e) xs)
      → ((a : A) (xs : List X) → Q (ok a) xs → Emits trace (λ r ys. P r (xs ++ ys)) (f a))
      → Emits trace P (m >>= f)
  Emits-bind Q P m f first failed rest = record {
    at = λ w. let (xs, e, q) = first.at w in go (m w).0 (m w).1 w xs e q;
  }
    where
      go :
          (r : Result E A) (w' w : W) (xs : List X)
          → trace w' ≡ trace w ++ xs
          → Q r xs
          → let (r', w'') = (lift r >>= f) w' in
            (added : List X) × (trace w'' ≡ trace w ++ added) × P r' added
      go (ok a) w' w xs same q =
          let (ys, e, p) = (rest a xs q).at w' in (xs ++ ys, rw (e, same, append_assoc), p)
      go (err x) w' w xs same q = (xs, same, failed x xs q)

  pub Emits-Records :
      (P : Result E B → List X → Type 0) (entry : Result E A → X) (m : Exec W E A)
      (f : A → Exec W E B)
      → Records trace entry m
      → ((e : E) → P (err e) (entry (err e) ∷ []))
      → ((a : A) → Emits trace (λ r ys. P r (entry (ok a) ∷ ys)) (f a))
      → Emits trace P (m >>= f)
  Emits-Records P entry m f records failed rest = record {
    at = λ w. go (m w).0 (m w).1 w (records.at w);
  }
    where
      go :
          (r : Result E A) (w' w : W)
          → trace w' ≡ trace w ++ entry r ∷ []
          → let (r', w'') = (lift r >>= f) w' in
            (added : List X) × (trace w'' ≡ trace w ++ added) × P r' added
      go (ok a) w' w same =
          let (ys, e, p) = (rest a).at w' in (entry (ok a) ∷ ys, rw (e, same, append_assoc), p)
      go (err x) w' w same = (entry (err x) ∷ [], same, failed x)

  pub Emits-quiet :
      (P : Result E B → List X → Type 0) (m : Exec W E A) (f : A → Exec W E B)
      → IsQuiet trace m
      → ((e : E) → P (err e) [])
      → ((a : A) → Emits trace P (f a))
      → Emits trace P (m >>= f)
  Emits-quiet P m f quiet failed rest = record { at = λ w. go (m w).0 (m w).1 w (quiet.at w) }
    where
      go :
          (r : Result E A) (w' w : W)
          → trace w' ≡ trace w
          → let (r', w'') = (lift r >>= f) w' in
            (added : List X) × (trace w'' ≡ trace w ++ added) × P r' added
      go (ok a) w' w same = let (ys, e, p) = (rest a).at w' in (ys, rw same at e, p)
      go (err x) w' w same = ([], rw append-nil same, failed x)

  -- A result that is there already.
  pub Emits-lift :
      (P : Result E B → List X → Type 0) (r : Result E A) (f : A → Exec W E B)
      → ((e : E) → r ≡ err e → P (err e) [])
      → ((a : A) → r ≡ ok a → Emits trace P (f a))
      → Emits trace P (lift r >>= f)
  Emits-lift P (ok a) f failed rest = rest a refl
  Emits-lift P (err e) f failed rest = record { at = λ w. ([], rw append-nil refl, failed e refl) }

module _ {X W E A : Type 0} (trace : W → List X) where
  -- A method that ends with one entry.
  pub Emits-last :
      (P : Result E A → List X → Type 0) (entry : Result E A → X) (m : Exec W E A)
      → Records trace entry m
      → ((r : Result E A) → P r (entry r ∷ []))
      → Emits trace P m
  Emits-last P entry m records p = record {
    at = λ w. (entry (m w).0 ∷ [], records.at w, p (m w).0);
  }

  pub Emits-pure :
      (P : Result E A → List X → Type 0) (r : Result E A) → P r [] → Emits trace P (lift {W = W} r)
  Emits-pure P r p = record { at = λ w. ([], rw append-nil refl, p) }

  pub Emits-weaken :
      (P Q : Result E A → List X → Type 0) (m : Exec W E A)
      → ((r : Result E A) (xs : List X) → Q r xs → P r xs)
      → Emits trace Q m
      → Emits trace P m
  Emits-weaken P Q m f h = record { at = λ w. let (xs, e, q) = h.at w in (xs, e, f (m w).0 xs q) }

module _ {X W E F A B : Type 0} (trace : W → List X) where
  pub Emits-attempt :
      (Q : Result E A → List X → Type 0) (P : Result F B → List X → Type 0) (m : Exec W E A)
      (f : Result E A → Exec W F B)
      → Emits trace Q m
      → ((r : Result E A) (xs : List X) → Q r xs → Emits trace (λ r' ys. P r' (xs ++ ys)) (f r))
      → Emits trace P (attempt m >>= f)
  Emits-attempt Q P m f first rest = record {
    at = λ w.
        let (xs, same, q) = first.at w in
        let (ys, e, p) = (rest (m w).0 xs q).at (m w).1 in
        (xs ++ ys, rw (e, same, append_assoc), p);
  }
