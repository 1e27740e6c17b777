-- ===== src/Domain/Layout/Ranges.antt =====
-- The control constructors of crates/core-domain/src/lib.rs and the MVP layout.
use keyro_core.Common.{◌≡◌, ◌↔◌, true, arith, Result, ok}
use keyro_core.Domain.Errors.{DomainError}
use keyro_core.Domain.Layout.{
  EncoderOperation, left, right, press, ControlId, key, encoder, new_key, new_encoder, operation_eq,
  control_eq, IsInLayout,
}

-- The constructor call that a control comes from.
abbrev pub rebuild : ControlId → Result DomainError ControlId
rebuild (key p k) = new_key p.get k.get
rebuild (encoder p e o) = new_encoder p.get e.get o

-- A constructor call gives back its control exactly when the control lies in the layout.
pub rebuild-ok_iff : (c : ControlId) → (rebuild c ≡ ok c) ↔ IsInLayout c
unfolding new_key new_encoder
rebuild-ok_iff (key p k) = grind arith
rebuild-ok_iff (encoder p e o) = grind arith

pub rebuild-ok : (c : ControlId) → IsInLayout c → rebuild c ≡ ok c
rebuild-ok c h = (rebuild-ok_iff c).1 h

operation_eq_iff : (o r : EncoderOperation) → (operation_eq o r ≡ true) ↔ (o ≡ r)
operation_eq_iff left r = grind arith
operation_eq_iff right r = grind arith
operation_eq_iff press r = grind arith

-- The derived equality of controls is equality.
pub control_eq_iff : (c d : ControlId) → (control_eq c d ≡ true) ↔ (c ≡ d)
control_eq_iff (key p k) (key q l) = grind arith
control_eq_iff (encoder p e o) (encoder q f r) = grind (arith, operation_eq_iff o r)
control_eq_iff (key p k) (encoder q f r) = grind arith
control_eq_iff (encoder p e o) (key q l) = grind arith
