-- ===== src/Domain/Profiles.antt =====
-- `Profile` of crates/core-domain/src/lib.rs, the name rule and the active-profile rule.
pub mod Names
use keyro_core.Common.{ℕ, String, Bool, List, Result, ok, err, ◌>>=◌, ◌==◌, count, if◌then◌else◌}
use keyro_core.Common.Text
use keyro_core.Common.Text.{trim}
use keyro_core.Domain.Errors.{DomainError, empty_profile_name, active_profile_invariant}
use keyro_core.Domain.Ids.{Uuid, ProfileId}

pub record Profile : Type 0 where
  pub id : ProfileId
  pub name : String
  pub is_active : Bool

unfoldable pub validate_profile_name : String → Result DomainError String
unfolding trim
validate_profile_name name = if Text.is_empty (trim name) then err empty_profile_name else ok name

-- `Profile::new`; the argument `fresh` is what `Uuid::new_v4` answers.
unfoldable pub new_profile : Uuid → String → Bool → Result DomainError Profile
unfolding validate_profile_name
new_profile fresh name is_active = do
  name ← validate_profile_name name
  ok (record { id = fresh; name = name; is_active = is_active })

-- `Profile::rename`; an error leaves the profile as it was.
unfoldable pub rename : Profile → String → Result DomainError Profile
unfolding validate_profile_name
rename profile name = do name ← validate_profile_name name; ok (record profile { name = name })

abbrev pub active : Profile → Bool
active profile = profile.is_active

unfoldable pub ensure_exactly_one_active : List Profile → Result DomainError (Unit {0})
ensure_exactly_one_active profiles =
    let active_count = count active profiles in
    if active_count == 1 then ok tt else err (active_profile_invariant active_count)
