-- ===== src/Common/Exec.antt =====
-- A method that works on shared state and may fail. What was written before an error stays
-- written, so the state comes back beside the error too.
use keyro_core.Common.Results.{Result, ok, err}

abbrev pub Exec {ℓ} : Type ℓ → Type ℓ → Type ℓ → Type ℓ
Exec W E A = W → Result E A × W

module _ {ℓ} {W E A : Type ℓ} where
  abbrev pub pure : A → Exec W E A
  pure a w = (ok a, w)

  abbrev pub raise : E → Exec W E A
  raise e w = (err e, w)

  abbrev pub lift : Result E A → Exec W E A
  lift r w = (r, w)

module _ {ℓ} {W E A B : Type ℓ} where
  abbrev continue : Result E A → (A → Exec W E B) → Exec W E B
  continue (ok a) f w = f a w
  continue (err e) f w = (err e, w)

  infixl 5 ◌>>=◌ ◌>>◌
  abbrev pub ◌>>=◌ : Exec W E A → (A → Exec W E B) → Exec W E B
  ◌>>=◌ m f w = let (r, w') = m w in continue r f w'

  abbrev pub ◌>>◌ : Exec W E A → Exec W E B → Exec W E B
  m >> k = m >>= λ _. k

module _ {ℓ} {W E F A : Type ℓ} where
  abbrev rename : (E → F) → Result E A × W → Result F A × W
  rename f (ok a, w) = (ok a, w)
  rename f (err e, w) = (err (f e), w)

  -- `map_err` on what a method returns.
  abbrev pub map_err : (E → F) → Exec W E A → Exec W F A
  map_err f m w = rename f (m w)

module _ {ℓ} {W E F A : Type ℓ} where
  -- The result as a value: `let result = ...` with no `?`.
  abbrev pub attempt : Exec W E A → Exec W F (Result E A)
  attempt m w = let (r, w') = m w in (ok r, w')
