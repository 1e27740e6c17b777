-- ===== src/Storage/Columns/RoundTrip.antt =====
-- Controls and actions survive the columns of crates/core-storage-sqlite/src/lib.rs.
use keyro_core.Common.{◌≡◌, ◌↔◌, arith, ok}
use keyro_core.Domain.Layout.{
  left, right, press, ControlId, key, encoder, IsInLayout, control_eq, new_key, new_encoder,
}
use keyro_core.Domain.Urls.{UrlCrate, parse_safe_url}
use keyro_core.Domain.Assignments.{Action, open_url}
use keyro_core.Storage.Statements.{columns_eq}
use keyro_core.Storage.Columns.{encode_control, decode_control, encode_action, decode_action}

-- Decoding the columns of a control gives it back exactly when it lies in the layout.
pub decode_control-encode_control :
    (c : ControlId) → (decode_control (encode_control c) ≡ ok c) ↔ IsInLayout c
unfolding decode_control encode_control new_key new_encoder
decode_control-encode_control (key p k) = (λ h. ground arith, λ h. ground arith)
decode_control-encode_control (encoder p e left) = (λ h. ground arith, λ h. ground arith)
decode_control-encode_control (encoder p e right) = (λ h. ground arith, λ h. ground arith)
decode_control-encode_control (encoder p e press) = (λ h. ground arith, λ h. ground arith)

-- The columns of two controls are equal as the SQL compares them exactly when the controls are
-- equal.
pub columns_eq-encode_control :
    (c d : ControlId) → columns_eq (encode_control c) (encode_control d) ≡ control_eq c d
unfolding encode_control
columns_eq-encode_control (key p k) (key q l) = ground arith
columns_eq-encode_control (key p k) (encoder q f o) = ground arith
columns_eq-encode_control (encoder p e o) (key q l) = ground arith
columns_eq-encode_control (encoder p e left) (encoder q f left) = ground arith
columns_eq-encode_control (encoder p e left) (encoder q f right) = ground arith
columns_eq-encode_control (encoder p e left) (encoder q f press) = ground arith
columns_eq-encode_control (encoder p e right) (encoder q f left) = ground arith
columns_eq-encode_control (encoder p e right) (encoder q f right) = ground arith
columns_eq-encode_control (encoder p e right) (encoder q f press) = ground arith
columns_eq-encode_control (encoder p e press) (encoder q f left) = ground arith
columns_eq-encode_control (encoder p e press) (encoder q f right) = ground arith
columns_eq-encode_control (encoder p e press) (encoder q f press) = ground arith

module _ ⦃url : UrlCrate⦄ where
  -- The URL is one that `SafeUrl::parse` made.
  abbrev pub IsParsed : Action → Type 0
  IsParsed (open_url u) = parse_safe_url u.as_str ≡ ok u

  -- An action whose URL is one that `SafeUrl::parse` accepts survives its columns.
  pub decode_action-encode_action :
      (action : Action)
      → IsParsed action
      → let (kind, text) = encode_action action in decode_action kind text ≡ ok action
  unfolding decode_action encode_action
  decode_action-encode_action (open_url u) h = ground arith
