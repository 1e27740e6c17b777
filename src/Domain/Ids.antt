-- ===== src/Domain/Ids.antt =====
-- `ProfileId` of crates/core-domain/src/lib.rs, over the uuid crate. A UUID is the 128-bit number
-- that it stands for; its text forms are the crate's.
use keyro_core.Common.{ℕ, String, ◌≡◌, Option, some, Result, ok_or}
use keyro_core.Domain.Errors.{DomainError, invalid_profile_id}

abbrev pub Uuid : Type 0
Uuid = ℕ

-- `Uuid::parse_str`, its error dropped, and `Display for Uuid`.
pub record UuidCrate : Type 0 where
  pub parse_str : String → Option Uuid
  pub to_string : Uuid → String

-- Documented: the hyphenated form that `Display` writes is one that `parse_str` reads.
pub record UuidLaws (c : UuidCrate) : Type 0 where
  pub parse-to_string : (u : Uuid) → c.parse_str (c.to_string u) ≡ some u

-- The newtype `ProfileId(Uuid)`, compared by the derived `PartialEq`.
abbrev pub ProfileId : Type 0
ProfileId = Uuid

module _ ⦃uuid : UuidCrate⦄ where
  -- `ProfileId::parse`
  unfoldable pub parse_profile_id : String → Result DomainError ProfileId
  parse_profile_id value = ok_or (uuid.parse_str value) (invalid_profile_id value)

  -- `Display for ProfileId`
  unfoldable pub profile_id_text : ProfileId → String
  profile_id_text id = uuid.to_string id
