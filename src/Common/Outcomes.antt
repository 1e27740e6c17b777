-- ===== src/Common/Outcomes.antt =====
-- Conditions on what a method returns and leaves, whether it succeeds or fails.
use mathlib.Core.Path.{◌≡◌, refl, subst}
use keyro_core.Common.Results.{Result, ok, err}
use keyro_core.Common.Exec.{Exec, lift, pure, ◌>>=◌}
use keyro_core.Common.Ensures.{Ensures}
use native.Mathlib.Omega.{arith}

pub record Returns {W E A : Type 0} (P : W → Type 0) (m : Exec W E A) (Q : Result E A → W → Type 0)
    : Type 0 where
  pub at : (w : W) → P w → Q (m w).0 (m w).1

module _ {W E A B : Type 0} where
  pub Returns-bind :
      (P : W → Type 0) (Q : Result E A → W → Type 0) (R : Result E B → W → Type 0) (m : Exec W E A)
      (f : A → Exec W E B)
      → Returns P m Q
      → ((a : A) → Returns (Q (ok a)) (f a) R)
      → ((e : E) (w : W) → Q (err e) w → R (err e) w)
      → Returns P (m >>= f) R
  Returns-bind P Q R m f first rest fail = record { at = λ w p. go (m w).0 (m w).1 (first.at w p) }
    where
      go : (r : Result E A) (w : W) → Q r w → R ((lift r >>= f) w).0 ((lift r >>= f) w).1
      go (ok a) w q = (rest a).at w q
      go (err e) w q = fail e w q

-- The method succeeds, with the condition on what it returns and leaves.
pub record Runs {W E A : Type 0} (P : W → Type 0) (m : Exec W E A) (Q : A → W → Type 0)
    : Type 0 where
  pub at : (w : W) → P w → (a : A) × ((m w).0 ≡ ok a) × Q a (m w).1

module _ {W E A B : Type 0} where
  pub Runs-bind :
      (P : W → Type 0) (R : A → W → Type 0) (Q : B → W → Type 0) (m : Exec W E A)
      (f : A → Exec W E B)
      → Runs P m R
      → ((a : A) → Runs (R a) (f a) Q)
      → Runs P (m >>= f) Q
  Runs-bind P R Q m f first rest = record {
    at = λ w p. let (a, e, r) = first.at w p in go (m w).0 (m w).1 a e r;
  }
    where
      go :
          (x : Result E A) (w : W) (a : A)
          → x ≡ ok a
          → R a w
          → (b : B) × (((lift x >>= f) w).0 ≡ ok b) × Q b ((lift x >>= f) w).1
      go (ok c) w a e r =
          let same : a ≡ c = ground arith in (rest c).at w (subst (λ y. R y w) same r)
      go (err x) w a e r = absurd (ground arith)

module _ {W E A : Type 0} where
  pub Runs-pure :
      (P : W → Type 0) (Q : A → W → Type 0) (a : A)
      → ((w : W) → P w → Q a w)
      → Runs P (pure {W = W} {E = E} a) Q
  Runs-pure P Q a h = record { at = λ w p. (a, refl, h w p) }

  -- What else holds after a method that succeeds.
  pub Runs-and :
      (P : W → Type 0) (m : Exec W E A) (Q Q' : A → W → Type 0)
      → Runs P m Q
      → Ensures P m Q'
      → Runs P m (λ a w. Q a w × Q' a w)
  Runs-and P m Q Q' h k = record {
    at = λ w p. let (a, e, q) = h.at w p in (a, e, (q, k.at w p a e));
  }

  pub Runs-weaken :
      (P P' : W → Type 0) (m : Exec W E A) (Q Q' : A → W → Type 0)
      → ((w : W) → P w → P' w)
      → ((a : A) (w : W) → Q' a w → Q a w)
      → Runs P' m Q'
      → Runs P m Q
  Runs-weaken P P' m Q Q' before after h = record {
    at = λ w p. let (a, e, q) = h.at w (before w p) in (a, e, after a (m w).1 q);
  }
