-- ===== src/Storage/Consistency.antt =====
-- What the schema of crates/core-storage-sqlite/src/lib.rs and its methods maintain between calls.
mod Writes
pub mod Methods
pub mod Startup
use keyro_core.Common.{ℕ, ◌≤◌, ◌≡◌, true, String, List, All, count, any}
use keyro_core.Domain.Ids.{UuidCrate, Uuid}
use keyro_core.Storage.Database.{ProfileRow, AssignmentRow}
use keyro_core.Storage.Statements.{row_active, has_id}

-- The id of the row is the text of a UUID.
abbrev pub IsReadable : ⦃uuid : UuidCrate⦄ → ProfileRow → Type 0
IsReadable ⦃uuid⦄ row = (u : Uuid) × (row.id ≡ uuid.to_string u)

-- The row's profile is there.
abbrev pub IsOwned : List ProfileRow → AssignmentRow → Type 0
IsOwned profiles row = any (has_id row.profile_id) profiles ≡ true

module _ ⦃uuid : UuidCrate⦄ where
  -- All but the active mark: ids are distinct and readable, and no assignment is orphaned.
  pub record IsKeyed (profiles : List ProfileRow) (assignments : List AssignmentRow) : Type 0 where
    pub unique_ids : (id : String) → count (has_id id) profiles ≤ 1
    pub readable : All IsReadable profiles
    pub owned : All (IsOwned profiles) assignments

  -- So, and exactly one profile is active.
  pub record IsConsistent (profiles : List ProfileRow) (assignments : List AssignmentRow)
      : Type 0 where
    pub one_active : count row_active profiles ≡ 1
    pub keyed : IsKeyed profiles assignments
