-- ===== src/Storage/Columns.antt =====
-- How controls and actions are written to columns and read back
-- (crates/core-storage-sqlite/src/lib.rs).
pub mod RoundTrip
use keyro_core.Common.{
  ℕ, ℤ, pos, negsuc, String, str_eq, Option, some, Result, ok, err, map_err, ok_or, ◌>>=◌, ltb,
  if◌then◌else◌,
}
use keyro_core.Domain.Layout.{
  EncoderOperation, left, right, press, ControlId, key, encoder, new_key, new_encoder,
}
use keyro_core.Domain.Urls.{UrlCrate, parse_safe_url}
use keyro_core.Domain.Assignments.{Action, open_url}
use keyro_core.Storage.Database.{
  ControlColumns, SqlError, invalid_query, from_sql_conversion, to_sql_conversion,
}

unfoldable pub encode_encoder_operation : EncoderOperation → String
encode_encoder_operation left = "left"
encode_encoder_operation right = "right"
encode_encoder_operation press = "press"

unfoldable pub decode_encoder_operation : String → Result SqlError EncoderOperation
decode_encoder_operation value =
    if str_eq value "left"
    then ok left
    else if str_eq value "right"
    then ok right
    else if str_eq value "press"
    then ok press
    else err invalid_query

unfoldable pub encode_control : ControlId → ControlColumns
unfolding encode_encoder_operation
encode_control (key page k) = record {
  page_index = pos page.get;
  control_kind = "key";
  control_index = pos k.get;
  control_operation = "press";
}
encode_control (encoder page e operation) = record {
  page_index = pos page.get;
  control_kind = "encoder";
  control_index = pos e.get;
  control_operation = encode_encoder_operation operation;
}

-- `u8::try_from` on an `i64`.
u8_try_from : ℤ → Result SqlError ℕ
u8_try_from (pos n) = if ltb n 256 then ok n else err invalid_query
u8_try_from (negsuc _) = err invalid_query

decode_key : ℕ → ℕ → String → Result SqlError ControlId
decode_key page index operation =
    if str_eq operation "press"
    then map_err from_sql_conversion (new_key page index)
    else err invalid_query

decode_encoder : ℕ → ℕ → String → Result SqlError ControlId
unfolding decode_encoder_operation
decode_encoder page index operation = do
  operation ← decode_encoder_operation operation
  map_err from_sql_conversion (new_encoder page index operation)

unfoldable pub decode_control : ControlColumns → Result SqlError ControlId
unfolding u8_try_from decode_key decode_encoder
decode_control columns = do
  page ← u8_try_from columns.page_index
  index ← u8_try_from columns.control_index
  if str_eq columns.control_kind "key"
      then decode_key page index columns.control_operation
      else if str_eq columns.control_kind "encoder"
      then decode_encoder page index columns.control_operation
      else err invalid_query

-- The columns `action_kind` and `action_url`.
unfoldable pub encode_action : Action → String × Option String
encode_action (open_url url) = ("open_url", some url.as_str)

module _ ⦃url : UrlCrate⦄ where
  unfoldable pub decode_action : String → Option String → Result SqlError Action
  decode_action kind action_url =
      if str_eq kind "open_url"
      then (do
        text ← ok_or action_url invalid_query
        safe ← map_err to_sql_conversion (parse_safe_url text)
        ok (open_url safe))
      else err invalid_query
