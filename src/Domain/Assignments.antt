-- ===== src/Domain/Assignments.antt =====
-- `Action` and `Assignment` of crates/core-domain/src/lib.rs.
use keyro_core.Common.{List, [], ◌∷◌, Option, Result, ok, first}
use keyro_core.Domain.Errors.{DomainError}
use keyro_core.Domain.Ids.{ProfileId}
use keyro_core.Domain.Layout.{ControlId}
use keyro_core.Domain.Urls.{SafeUrl}

pub data Action : Type 0 where
  open_url : SafeUrl → Action

pub record Assignment : Type 0 where
  pub profile_id : ProfileId
  pub control : ControlId
  pub actions : List Action

-- `Assignment::single`
unfoldable pub single : ProfileId → ControlId → Action → Result DomainError Assignment
single profile_id control action =
    ok (record { profile_id = profile_id; control = control; actions = action ∷ [] })

-- `Assignment::first_action`
unfoldable pub first_action : Assignment → Option Action
first_action assignment = first assignment.actions
