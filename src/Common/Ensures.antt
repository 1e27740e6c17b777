-- ===== src/Common/Ensures.antt =====
-- Postconditions of methods on success: what holds of the result and the state after a method that
-- succeeds, from what holds of the state before it.
use mathlib.Core.Path.{◌≡◌, refl, subst}
use keyro_core.Common.Results.{Result, ok, err}
use keyro_core.Common.Exec.{Exec, lift, pure, ◌>>=◌}
use native.Mathlib.Omega.{arith}

pub record Ensures {W E A : Type 0} (P : W → Type 0) (m : Exec W E A) (Q : A → W → Type 0)
    : Type 0 where
  pub at : (w : W) → P w → (a : A) → (m w).0 ≡ ok a → Q a (m w).1

module _ {W E A B : Type 0} where
  pub Ensures-bind :
      (P : W → Type 0) (R : A → W → Type 0) (Q : B → W → Type 0) (m : Exec W E A)
      (f : A → Exec W E B)
      → Ensures P m R
      → ((a : A) → Ensures (R a) (f a) Q)
      → Ensures P (m >>= f) Q
  Ensures-bind P R Q m f first rest = record { at = λ w p b. go (m w).0 (m w).1 b (first.at w p) }
    where
      go :
          (r : Result E A) (w : W) (b : B)
          → ((a : A) → r ≡ ok a → R a w)
          → ((lift r >>= f) w).0 ≡ ok b
          → Q b ((lift r >>= f) w).1
      go (ok a) w b h e = (rest a).at w (h a refl) b e
      go (err x) w b h e = absurd (ground arith)

module _ {W E A : Type 0} where
  pub Ensures-pure :
      (P : W → Type 0) (Q : A → W → Type 0) (a : A)
      → ((w : W) → P w → Q a w)
      → Ensures P (pure {W = W} {E = E} a) Q
  Ensures-pure P Q a h = record {
    at = λ w p b e. let same : a ≡ b = ground arith in rw (← same) (h w p);
  }

  -- A method that only reads the state, or changes nothing that the condition is about.
  pub Ensures-keep :
      (P : W → Type 0) (m : Exec W E A) → ((w : W) → P w → P (m w).1) → Ensures P m (λ _ w. P w)
  Ensures-keep P m h = record { at = λ w p _ _. h w p }

  pub Ensures-weaken :
      (P P' : W → Type 0) (Q Q' : A → W → Type 0) (m : Exec W E A)
      → ((w : W) → P w → P' w)
      → ((a : A) (w : W) → Q' a w → Q a w)
      → Ensures P' m Q'
      → Ensures P m Q
  Ensures-weaken P P' Q Q' m before after h = record {
    at = λ w p a e. after a (m w).1 (h.at w (before w p) a e);
  }

-- The method keeps the condition, whether it succeeds or fails.
pub record Preserves {W E A : Type 0} (P : W → Type 0) (m : Exec W E A) : Type 0 where
  pub at : (w : W) → P w → P (m w).1

module _ {W E A B : Type 0} where
  pub Preserves-bind :
      (P : W → Type 0) (m : Exec W E A) (f : A → Exec W E B)
      → Preserves P m
      → ((a : A) → Preserves P (f a))
      → Preserves P (m >>= f)
  Preserves-bind P m f first rest = record { at = λ w p. go (m w).0 (m w).1 (first.at w p) }
    where
      go : (r : Result E A) (w : W) → P w → P ((lift r >>= f) w).1
      go (ok a) w p = (rest a).at w p
      go (err x) w p = p

module _ {W E A : Type 0} where
  pub Preserves-lift : (P : W → Type 0) (r : Result E A) → Preserves P (lift {W = W} r)
  Preserves-lift P r = record { at = λ w p. p }

  pub Ensures-Preserves :
      (P : W → Type 0) (m : Exec W E A) → Preserves P m → Ensures P m (λ _ w. P w)
  Ensures-Preserves P m h = record { at = λ w p _ _. h.at w p }

  pub Ensures-both :
      (P P' : W → Type 0) (Q : A → W → Type 0) (m : Exec W E A)
      → Preserves P' m
      → Ensures P m Q
      → Ensures (λ w. P' w × P w) m (λ a w. P' w × Q a w)
  Ensures-both P P' Q m keep h = record { at = λ w (p', p) a e. (keep.at w p', h.at w p a e) }

-- The method keeps the condition, and what it returns when it succeeds has the property.
pub record Yields {W E A : Type 0} (P : W → Type 0) (Q : A → Type 0) (m : Exec W E A) : Type 0 where
  pub keeps : Preserves P m
  pub result : (w : W) → P w → (a : A) → (m w).0 ≡ ok a → Q a

module _ {W E A B : Type 0} where
  pub Yields-Preserves-bind :
      (P : W → Type 0) (Q : A → Type 0) (m : Exec W E A) (f : A → Exec W E B)
      → Yields P Q m
      → ((a : A) → Q a → Preserves P (f a))
      → Preserves P (m >>= f)
  Yields-Preserves-bind P Q m f first rest = record {
    at = λ w p. go (m w).0 (m w).1 (first.keeps.at w p) (first.result w p);
  }
    where
      go : (r : Result E A) (w : W) → P w → ((a : A) → r ≡ ok a → Q a) → P ((lift r >>= f) w).1
      go (ok a) w p q = (rest a (q a refl)).at w p
      go (err x) w p q = p

  pub Yields-bind :
      (P : W → Type 0) (Q : A → Type 0) (R : B → Type 0) (m : Exec W E A) (f : A → Exec W E B)
      → Yields P Q m
      → ((a : A) → Q a → Yields P R (f a))
      → Yields P R (m >>= f)
  Yields-bind P Q R m f first rest = record {
    keeps = Yields-Preserves-bind P Q m f first (λ a q. (rest a q).keeps);
    result = λ w p b. go (m w).0 (m w).1 b (first.keeps.at w p) (first.result w p);
  }
    where
      go :
          (r : Result E A) (w : W) (b : B)
          → P w
          → ((a : A) → r ≡ ok a → Q a)
          → ((lift r >>= f) w).0 ≡ ok b
          → R b
      go (ok a) w b p q e = (rest a (q a refl)).result w p b e
      go (err x) w b p q e = absurd (ground arith)

module _ {W E A : Type 0} where
  pub Yields-pure :
      (P : W → Type 0) (Q : A → Type 0) (a : A) → Q a → Yields P Q (pure {W = W} {E = E} a)
  Yields-pure P Q a q = record {
    keeps = record { at = λ w p. p };
    result = λ w p b e. let same : a ≡ b = ground arith in subst Q same q;
  }

module _ {W E A : Type 0} where
  pub Preserves-both :
      (P Q : W → Type 0) (m : Exec W E A)
      → Preserves P m
      → Preserves Q m
      → Preserves (λ w. P w × Q w) m
  Preserves-both P Q m h h' = record { at = λ w (p, q). (h.at w p, h'.at w q) }
