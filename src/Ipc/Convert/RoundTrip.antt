-- ===== src/Ipc/Convert/RoundTrip.antt =====
-- The wire form of a control, in both directions (crates/core-ipc/src/lib.rs).
use keyro_core.Common.{◌≡◌, ◌↔◌, arith, ok}
use keyro_core.Domain.Layout.{ControlId, IsInLayout}
use keyro_core.Protocol.Messages.{EncoderOperationDto, ControlDto}
use keyro_core.Ipc.Convert.{control_from_dto, control_to_dto}

-- A wire control decodes to a control exactly when the control encodes to it and lies in the
-- layout.
pub control_from_dto_iff :
    (dto : ControlDto) (c : ControlId)
    → (control_from_dto dto ≡ ok c) ↔ ((control_to_dto c ≡ dto) × IsInLayout c)
unfolding control_from_dto control_to_dto
control_from_dto_iff (ControlDto.key p k) (ControlId.key q l) =
    (λ h. ground arith, λ h. ground arith)
control_from_dto_iff (ControlDto.key p k) (ControlId.encoder q l o) =
    (λ h. ground arith, λ h. ground arith)
control_from_dto_iff (ControlDto.encoder p k o) (ControlId.key q l) =
    (λ h. ground arith, λ h. ground arith)
control_from_dto_iff (ControlDto.encoder p k EncoderOperationDto.left) (ControlId.encoder q l r) =
    (λ h. ground arith, λ h. ground arith)
control_from_dto_iff (ControlDto.encoder p k o) (ControlId.encoder q l r) =
    (λ h. ground arith, λ h. ground arith)
