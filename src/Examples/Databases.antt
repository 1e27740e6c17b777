-- ===== src/Examples/Databases.antt =====
-- Runs on a database of two profiles, the first of which is active.
use keyro_core.Common.{
  find, ℕ, ◌≡◌, refl, ◌↔◌, ◌≤◌, str_eq, false, true, Bool, String, if◌then◌else◌, List, [], ◌∷◌,
  pos, none, some, ok, eq_iff, arith, count,
}
use keyro_core.Domain.Layout.{ControlId, IsInLayout, control_eq, press}
use keyro_core.Domain.Urls.{parse_safe_url}
use keyro_core.Domain.Assignments.{Action, Assignment}
use keyro_core.Domain.Profiles.{Profile, active}
use keyro_core.App.Errors.{storage, profile_not_found}
use keyro_core.Storage.Database.{Database, ProfileRow, AssignmentRow}
use keyro_core.Storage.Statements.{row_active, has_id, columns_eq}
use keyro_core.Storage.Columns.{encode_control, decode_control, encode_action, decode_action}
use keyro_core.Storage.Columns.RoundTrip.{
  decode_control-encode_control, columns_eq-encode_control, decode_action-encode_action,
}
use keyro_core.Storage.Keeps.{On}
use keyro_core.Storage.Consistency.{IsKeyed, IsConsistent}
use keyro_core.Storage.Consistency.Methods.{Call, after, after-IsConsistent}
use keyro_core.Storage.Consistency.Startup.{ensure_default_profile-IsConsistent}
use keyro_core.Storage.Atomicity.{
  SameTables, save_assignment-SameTables, set_active_profile-SameTables,
}
use keyro_core.Storage.Repository.{
  ensure_default_profile, save_assignment, set_active_profile, clear_assignment,
}
use keyro_core.Storage.Queries.{find_assignment, list_profiles}
use keyro_core.Storage.Listing.{
  service_over, profile_columns, row_columns, active_profile-list_profiles,
}
use keyro_core.App.Ports.{UrlOpener, EventSink, UuidSource}
use keyro_core.App.Service.{active_profile}
use keyro_core.Common.Exec.{pure}
use keyro_core.Storage.Assignments.Rows.{calm, saved, save_assignment-saved}
use keyro_core.Storage.Assignments.Lookup.{
  find_assignment-save_assignment, find_assignment-clear_assignment,
}
use keyro_core.Examples.Crates.{uuids, uuids-UuidLaws, urls, sqlite}

abbrev profile_row : String → String → ℕ → ProfileRow
profile_row id name is_active = record {
  id = id;
  name = name;
  is_active = pos is_active;
  created_at = "2026-01-01 00:00:00";
}

abbrev database : List ProfileRow → Database
database profiles = record {
  profiles = profiles;
  assignments = [];
  faults = [];
  now = "2026-01-01 00:00:00";
  entropy = λ n. n;
  drawn = 3;
}

abbrev pub two_profiles : Database
two_profiles = database (profile_row "x" "Default" 1 ∷ profile_row "xx" "Games" 0 ∷ [])

abbrev site : Action
site = Action.open_url (record { as_str = "https://example.com/" })

abbrev pub first_key : ControlId
first_key = ControlId.key (record { get = 0 }) (record { get = 0 })

abbrev last_encoder : ControlId
last_encoder = ControlId.encoder (record { get = 3 }) (record { get = 1 }) press

abbrev pub assignment : Assignment
assignment = record { profile_id = 1; control = first_key; actions = site ∷ site ∷ [] }

pub distinct_ids :
    (r s : ProfileRow)
    → str_eq r.id s.id ≡ false
    → (id : String) → count (has_id id) (r ∷ s ∷ []) ≤ 1
distinct_ids r s h id = ground (arith, eq_iff r.id id, eq_iff s.id id, eq_iff r.id s.id)

abbrev pub opener : UrlOpener Database
opener = record { open_url = λ u. pure tt }

abbrev sink : EventSink Database
sink = record { emit = λ e. pure tt }

abbrev pub ids : UuidSource Database
ids = record { new_v4 = pure 7 }

pub two_profiles-IsConsistent : On IsConsistent two_profiles
two_profiles-IsConsistent = record {
  one_active = refl;
  keyed = record {
    unique_ids = distinct_ids (profile_row "x" "Default" 1) (profile_row "xx" "Games" 0) refl;
    readable = ((1, refl), ((2, refl), tt));
    owned = tt;
  };
}

decode_control-encode_control_example :
    (decode_control (encode_control last_encoder) ≡ ok last_encoder) ↔ IsInLayout last_encoder
decode_control-encode_control_example = decode_control-encode_control last_encoder

columns_eq-encode_control_example :
    columns_eq (encode_control first_key) (encode_control last_encoder)
    ≡ control_eq first_key last_encoder
columns_eq-encode_control_example = columns_eq-encode_control first_key last_encoder

decode_action-encode_action_example :
    decode_action "open_url" (some "https://example.com/") ≡ ok site
unfolding encode_action parse_safe_url
decode_action-encode_action_example = decode_action-encode_action site refl

-- A switch to the second profile.
after-IsConsistent_example : On IsConsistent (after two_profiles (Call.switch 2))
after-IsConsistent_example =
    after-IsConsistent two_profiles (Call.switch 2) two_profiles-IsConsistent

abbrev default_profile : Profile
default_profile = record { id = 3; name = "Default"; is_active = true }

no_profiles-IsKeyed : On IsKeyed (database [])
no_profiles-IsKeyed = record { unique_ids = λ id. omega arith; readable = tt; owned = tt }

-- The first start, on empty tables.
ensure_default_profile-IsConsistent_example :
    On IsConsistent (ensure_default_profile (database [])).1
unfolding ensure_default_profile keyro_core.Storage.Queries.load_active_profile
    keyro_core.Storage.Statements.select_active keyro_core.Storage.Database.statement
    keyro_core.Storage.Rows.optional_profile keyro_core.Domain.Profiles.new_profile
    keyro_core.Storage.Statements.insert_profile
ensure_default_profile-IsConsistent_example =
    ensure_default_profile-IsConsistent (database []) default_profile no_profiles-IsKeyed
      (omega arith) refl

-- The third statement, the DELETE, fails.
abbrev failing : Database
failing = record two_profiles { faults = none ∷ none ∷ some "disk I/O error" ∷ [] }

save_assignment-SameTables_example : SameTables failing (save_assignment assignment failing).1
unfolding save_assignment keyro_core.Storage.Database.transaction
    keyro_core.Storage.Database.statement keyro_core.Storage.Queries.profile_exists
    keyro_core.Storage.Statements.select_exists keyro_core.Domain.Ids.profile_id_text
    keyro_core.Storage.Statements.delete_assignment keyro_core.Storage.Database.to_app_error
save_assignment-SameTables_example =
    save_assignment-SameTables assignment failing (storage "sql") refl

-- There is no such profile.
set_active_profile-SameTables_example :
    SameTables two_profiles (set_active_profile 9 two_profiles).1
unfolding set_active_profile keyro_core.Storage.Database.transaction
    keyro_core.Storage.Database.statement keyro_core.Storage.Queries.profile_exists
    keyro_core.Storage.Statements.select_exists keyro_core.Domain.Ids.profile_id_text
set_active_profile-SameTables_example =
    set_active_profile-SameTables 9 two_profiles profile_not_found refl

save_assignment-saved_example :
    save_assignment assignment (calm two_profiles)
    ≡ (ok tt, record two_profiles { assignments = saved assignment []; faults = [] })
unfolding keyro_core.Domain.Ids.profile_id_text
save_assignment-saved_example = save_assignment-saved assignment two_profiles refl

find_assignment-save_assignment_example :
    (find_assignment 1 first_key (save_assignment assignment (calm two_profiles)).1).0
    ≡ ok (some assignment)
unfolding parse_safe_url keyro_core.Domain.Ids.profile_id_text
find_assignment-save_assignment_example =
    find_assignment-save_assignment assignment 1 first_key two_profiles uuids-UuidLaws refl
      (refl, (refl, tt))

find_assignment-clear_assignment_example :
    (find_assignment 1 first_key (clear_assignment 1 first_key (calm two_profiles)).1).0 ≡ ok none
unfolding keyro_core.Domain.Ids.profile_id_text
find_assignment-clear_assignment_example =
    find_assignment-clear_assignment 1 first_key 1 first_key two_profiles uuids-UuidLaws refl

abbrev is_second : String → String → Bool → Bool
is_second id name mark = if mark then false else str_eq name "Games"

active_profile-list_profiles_example :
    (profiles : List Profile) × (profile : Profile) × (list_profiles (calm two_profiles)
      ≡ (ok profiles, calm two_profiles))
    × (count (profile_columns is_second) profiles
        ≡ count (row_columns is_second) two_profiles.profiles)
    × (count active profiles ≡ 1)
    × (find active profiles ≡ some profile)
    × (active_profile (service_over opener sink ids) (calm two_profiles)
        ≡ (ok profile, calm two_profiles))
active_profile-list_profiles_example =
    active_profile-list_profiles opener sink ids uuids-UuidLaws two_profiles is_second
      two_profiles-IsConsistent
