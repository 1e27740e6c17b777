-- ===== src/Domain/Layout.antt =====
-- The device layout of crates/core-domain/src/lib.rs: pages, keys, encoders and `ControlId`.
-- A `u8` is a number below 256.
pub mod Ranges
use keyro_core.Common.{
  ℕ, ◌*◌, ◌<◌, Bool, true, false, ◌&&◌, Result, ok, err, ◌>>=◌, ltb, ◌==◌, if◌then◌else◌,
}
use keyro_core.Domain.Errors.{
  DomainError, invalid_page_index, invalid_key_index, invalid_encoder_index,
}

abbrev pub page_count : ℕ
page_count = 4

abbrev pub key_rows : ℕ
key_rows = 3

abbrev pub key_columns : ℕ
key_columns = 4

abbrev pub keys_per_page : ℕ
keys_per_page = key_rows * key_columns

abbrev pub encoders_per_page : ℕ
encoders_per_page = 2

-- `PageIndex(u8)`, `KeyIndex(u8)` and `EncoderIndex(u8)`; `get` is their only reader.
pub record PageIndex : Type 0 where
  pub get : ℕ

pub record KeyIndex : Type 0 where
  pub get : ℕ

pub record EncoderIndex : Type 0 where
  pub get : ℕ

-- `PageIndex::new`
unfoldable pub new_page_index : ℕ → Result DomainError PageIndex
new_page_index value =
    if ltb value page_count then ok (record { get = value }) else err (invalid_page_index value)

-- `KeyIndex::new`
unfoldable pub new_key_index : ℕ → Result DomainError KeyIndex
new_key_index value =
    if ltb value keys_per_page then ok (record { get = value }) else err (invalid_key_index value)

-- `EncoderIndex::new`
unfoldable pub new_encoder_index : ℕ → Result DomainError EncoderIndex
new_encoder_index value =
    if ltb value encoders_per_page
    then ok (record { get = value })
    else err (invalid_encoder_index value)

pub data EncoderOperation : Type 0 where
  left right press : EncoderOperation

pub data ControlId : Type 0 where
  key : PageIndex → KeyIndex → ControlId
  encoder : PageIndex → EncoderIndex → EncoderOperation → ControlId

-- `ControlId::key`
unfoldable pub new_key : ℕ → ℕ → Result DomainError ControlId
unfolding new_page_index new_key_index
new_key page k = do page ← new_page_index page; k ← new_key_index k; ok (key page k)

-- `ControlId::encoder`
unfoldable pub new_encoder : ℕ → ℕ → EncoderOperation → Result DomainError ControlId
unfolding new_page_index new_encoder_index
new_encoder page e operation = do
  page ← new_page_index page
  e ← new_encoder_index e
  ok (encoder page e operation)

abbrev pub operation_eq : EncoderOperation → EncoderOperation → Bool
operation_eq left left = true
operation_eq right right = true
operation_eq press press = true
operation_eq _ _ = false

-- The derived `PartialEq` of `ControlId`.
abbrev pub control_eq : ControlId → ControlId → Bool
control_eq (key p k) (key q l) = p.get == q.get && k.get == l.get
control_eq (encoder p e o) (encoder q f r) = p.get == q.get && e.get == f.get && operation_eq o r
control_eq _ _ = false

-- What the constructors guarantee of a control.
abbrev pub IsInLayout : ControlId → Type 0
IsInLayout (key p k) = (p.get < page_count) × (k.get < keys_per_page)
IsInLayout (encoder p e _) = (p.get < page_count) × (e.get < encoders_per_page)
