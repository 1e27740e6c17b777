-- ===== src/Examples/Crates.antt =====
-- Small libraries that behave as the uuid, url, serde_json and rusqlite crates are documented to,
-- on the inputs of the examples.
use text.Mathlib.Text.{starts_with}
use keyro_core.Common.{
  ℕ, zero, suc, String, str_eq, ◌≡◌, refl, ap, none, some, ok, err, if◌then◌else◌,
}
use keyro_core.Domain.Ids.{UuidCrate, UuidLaws}
use keyro_core.Domain.Urls.{UrlCrate}
use keyro_core.Protocol.Messages.{ClientEnvelope, ClientMessage, ControlDto, studio, current}
use keyro_core.Protocol.Codec.{JsonCrate}
use keyro_core.Storage.Database.{RusqliteCrate}

-- UUIDs in unary.
abbrev tally : ℕ → String
tally zero = ""
tally (suc n) = String.◌∷◌ "x" (tally n)

abbrev tallied : String → ℕ
tallied String.[] = 0
tallied (String.◌∷◌ _ s) = suc (tallied s)

tallied-tally : (n : ℕ) → tallied (tally n) ≡ n
tallied-tally zero = refl
tallied-tally (suc n) = ap suc (tallied-tally n)

instance abbrev pub uuids : UuidCrate
uuids = record { parse_str = λ s. some (tallied s); to_string = tally }

pub uuids-UuidLaws : UuidLaws uuids
uuids-UuidLaws = record { parse-to_string = λ n. ap some (tallied-tally n) }

-- A URL is its text, and its scheme is read off its beginning; one host's queries are known.
instance abbrev pub urls : UrlCrate
urls = record {
  Url = String;
  parse = λ s. if str_eq s "" then none else some s;
  username = λ s. "";
  password = λ s. none;
  scheme = λ s.
      if starts_with s "https:" then "https" else if starts_with s "http:" then "http" else "other";
  clear_query = λ s. if starts_with s "https://example.com/?" then "https://example.com/" else s;
  clear_fragment = λ s. s;
  to_string = λ s. s;
}

abbrev pub handshake : ClientEnvelope
handshake = record {
  request_id = "req-handshake";
  message =
      ClientMessage.handshake
        (record { component = studio; component_version = "0.3.0"; protocol = current });
}

abbrev pub press : ClientEnvelope
press = record {
  request_id = "req-press";
  message = ClientMessage.virtual_control_input (ControlDto.key 0 0);
}

-- Two lines are known: "handshake" and "press".
instance abbrev pub json : JsonCrate
json = record {
  Value = String;
  envelope_from_str = λ s.
      if str_eq s "handshake"
      then ok handshake
      else if str_eq s "press"
      then ok press
      else err "EOF";
  message_to_string = λ m. ok "{}";
  value_from_str = λ s. err "EOF";
  get = λ v k. none;
  as_str = λ v. none;
}

instance abbrev pub sqlite : RusqliteCrate
sqlite = record { error_text = λ e. "sql" }
