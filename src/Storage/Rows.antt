-- ===== src/Storage/Rows.antt =====
-- Rows of crates/core-storage-sqlite/src/lib.rs as domain values: the closures of `query_map`, and
-- the loop that gathers the actions of each control.
use keyro_core.Common.{
  pos, int_eq, ◌&&◌, List, [], ◌∷◌, ◌++◌, Option, none, some, Result, ok, map_err, ◌>>=◌, ◌==◌,
  if◌then◌else◌,
}
use keyro_core.Domain.Ids.{UuidCrate, ProfileId, parse_profile_id}
use keyro_core.Domain.Layout.{ControlId, control_eq}
use keyro_core.Domain.Urls.{UrlCrate}
use keyro_core.Domain.Profiles.{Profile}
use keyro_core.Domain.Assignments.{Action, Assignment}
use keyro_core.Storage.Database.{ProfileRow, AssignmentRow, SqlError, from_sql_conversion}
use keyro_core.Storage.Columns.{decode_control, decode_action}

module _ ⦃uuid : UuidCrate⦄ where
  unfoldable pub profile_of_row : ProfileRow → Result SqlError Profile
  unfolding parse_profile_id
  profile_of_row row = do
    id ← map_err from_sql_conversion (parse_profile_id row.id)
    ok (record { id = id; name = row.name; is_active = int_eq row.is_active (pos 1) })

  -- `query_row(..).optional()`: the first row, if any.
  unfoldable pub optional_profile : Option ProfileRow → Result SqlError (Option Profile)
  unfolding profile_of_row
  optional_profile none = ok none
  optional_profile (some row) = do profile ← profile_of_row row; ok (some profile)

module _ ⦃url : UrlCrate⦄ where
  unfoldable pub action_of_row : AssignmentRow → Result SqlError Action
  unfolding decode_action
  action_of_row row = decode_action row.action_kind row.action_url

module _ ⦃uuid : UuidCrate⦄ ⦃url : UrlCrate⦄ where
  unfoldable pub entry_of_row : AssignmentRow → Result SqlError (ProfileId × ControlId × Action)
  unfolding parse_profile_id decode_control decode_action
  entry_of_row row = do
    id ← map_err from_sql_conversion (parse_profile_id row.profile_id)
    control ← decode_control row.control
    action ← decode_action row.action_kind row.action_url
    ok (id, control, action)

-- `assignments.iter_mut().find(..)` and the push of the action, or a new assignment at the end.
unfoldable pub add_action : ProfileId → ControlId → Action → List Assignment → List Assignment
add_action id control action [] =
    record { profile_id = id; control = control; actions = action ∷ [] } ∷ []
add_action id control action (a ∷ rest) =
    if a.profile_id == id && control_eq a.control control
    then record a { actions = a.actions ++ action ∷ [] } ∷ rest
    else a ∷ add_action id control action rest

-- `for row in rows`
unfoldable pub gather : List Assignment → List (ProfileId × ControlId × Action) → List Assignment
unfolding add_action
gather assignments [] = assignments
gather assignments ((id, control, action) ∷ entries) =
    gather (add_action id control action assignments) entries
