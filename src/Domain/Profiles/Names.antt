-- ===== src/Domain/Profiles/Names.antt =====
-- The name rule of crates/core-domain/src/lib.rs.
use keyro_core.Common.{String, ◌≡◌, Bool, arith, ok, err, if◌then◌else◌}
use keyro_core.Common.Text.{has_content, is_empty-trim}
use keyro_core.Domain.Errors.{empty_profile_name}
use keyro_core.Domain.Ids.{Uuid}
use keyro_core.Domain.Profiles.{Profile, validate_profile_name, new_profile, rename}

-- A name is accepted exactly when it has a character that is no white space, and is kept as it is.
pub validate_profile_name_lem :
    (name : String)
    → validate_profile_name name ≡ (if has_content name then ok name else err empty_profile_name)
unfolding validate_profile_name
validate_profile_name_lem name = ground (arith, is_empty-trim name)

-- `Profile::new` and `Profile::rename` accept the same names, those with a character that is no
-- white space; both store the name untrimmed, and a rename keeps the id and the active mark.
pub new_profile-rename :
    (fresh : Uuid) (name : String) (is_active : Bool) (profile : Profile)
    → (new_profile fresh name is_active ≡ (
        if has_content name
        then ok (record { id = fresh; name = name; is_active = is_active })
        else err empty_profile_name))
      × (rename profile name ≡ (
          if has_content name
          then ok (record { id = profile.id; name = name; is_active = profile.is_active })
          else err empty_profile_name))
unfolding new_profile rename
new_profile-rename fresh name is_active profile =
    (ground (arith, is_empty-trim name), ground (arith, is_empty-trim name))
