-- ===== src/Storage/Board.antt =====
-- What the repository of crates/core-storage-sqlite/src/lib.rs promises to its callers, apart from
-- names and order: which profiles there are, and one assignment at most for a control of a profile.
mod Writes
mod Creation
pub mod Refinement
use keyro_core.Common.{
  ◌≡◌, refl, ap, suc, ◌++◌, ◌∙◌, sym, true, false, Bool, Bool-cases, inl, inr, eq_iff, String, List,
  [], ◌∷◌, All, any, any_append, arith, Option, some, none, Result, ok, err, ◌&&◌, ◌||◌, is_empty,
  if◌then◌else◌, ◌==◌, map_err, pos,
}
use keyro_core.Domain.Ids.{UuidCrate, UuidLaws, ProfileId, profile_id_text}
use keyro_core.Domain.Layout.{ControlId, control_eq}
use keyro_core.Domain.Urls.{UrlCrate}
use keyro_core.Domain.Profiles.{Profile, new_profile}
use keyro_core.Domain.Assignments.{Assignment}
use keyro_core.App.Errors.{AppError, domain, profile_not_found}
use keyro_core.Storage.Database.{
  Database, ProfileRow, RusqliteCrate, statement, transaction, to_app_error, constraint_violation,
}
use keyro_core.Domain.Errors.{DomainError}
use keyro_core.Storage.Statements.{has_id, insert_profile, profile_conflict, select_exists}
use keyro_core.Storage.Columns.RoundTrip.{IsParsed}
use keyro_core.Storage.Queries.{find_assignment, profile_exists}
use keyro_core.Storage.Repository.{
  create_profile, rename_profile, set_active_profile, save_body, save_assignment, clear_assignment,
}
use keyro_core.Storage.Keeps.{On}
use keyro_core.Storage.Atomicity.{save_assignment-SameTables}
use keyro_core.Storage.Assignments.Rows.{calm, save_assignment-saved}
use keyro_core.Storage.Assignments.Identity.{text-injective}
use keyro_core.Storage.Assignments.Lookup.{
  answer, read_rows, find_assignment_lem, find_assignment-save_assignment, clear_assignment-saved,
}
use keyro_core.Storage.Consistency.Methods.{Call, after}
use keyro_core.Storage.Data.{IsData, set_active_profile-IsData, rename_profile-IsData}

-- The abstract state.
pub record Board : Type 0 where
  pub known : ProfileId → Bool
  pub assigned : ProfileId → ControlId → Option Assignment

-- The assignment of one control becomes the actions, or none.
abbrev pub assign : Assignment → Board → Board
assign a board =
    if board.known a.profile_id
    then record board {
      assigned = λ i c.
          if i == a.profile_id && control_eq c a.control
          then (if is_empty a.actions then none else some a)
          else board.assigned i c;
    }
    else board

abbrev pub erased : ProfileId → ControlId → Assignment
erased id control = record { profile_id = id; control = control; actions = [] }

abbrev pub add_known : Result AppError Profile → Board → Board
add_known (err e) board = board
add_known (ok p) board = record board { known = λ i. p.id == i || board.known i }

-- What a call does to the abstract state; of a created profile the caller learns the id.
module _ ⦃uuid : UuidCrate⦄ ⦃sql : RusqliteCrate⦄ where
  unfoldable pub apply : Database → Call → Board → Board
  apply db (Call.create name) board = add_known (create_profile name (calm db)).0 board
  apply db (Call.rename_to id name) board = board
  apply db (Call.switch id) board = board
  apply db (Call.save a) board = assign a board
  apply db (Call.clear id control) board = assign (erased id control) board

  -- The calls one after the other, with no statement that fails.
  unfoldable pub run_calls : List Call → Database → Database
  run_calls [] db = db
  run_calls (call ∷ calls) db = run_calls calls (after (calm db) call)

  unfoldable pub replay : List Call → Database → Board → Board
  unfolding apply
  replay [] db board = board
  replay (call ∷ calls) db board = replay calls (after (calm db) call) (apply db call board)

module _ ⦃uuid : UuidCrate⦄ ⦃url : UrlCrate⦄ ⦃sql : RusqliteCrate⦄ where
  -- The tables hold what the board holds, as the lookups tell it.
  pub record Represents (board : Board) (db : Database) : Type 0 where
    pub known : (i : ProfileId) → any (has_id (profile_id_text i)) db.profiles ≡ board.known i
    pub assigned :
        (i : ProfileId) (c : ControlId)
        → (find_assignment i c (calm db)).0 ≡ ok (board.assigned i c)

  -- The URLs of a saved assignment are parsed ones.
  abbrev pub IsParsedCall : Call → Type 0
  IsParsedCall (Call.save a) = All IsParsed a.actions
  IsParsedCall (Call.create _) = Unit {0}
  IsParsedCall (Call.rename_to _ _) = Unit {0}
  IsParsedCall (Call.switch _) = Unit {0}
  IsParsedCall (Call.clear _ _) = Unit {0}
