-- ===== src/Storage/Board/Refinement.antt =====
-- The repository of crates/core-storage-sqlite/src/lib.rs against the abstract board.
use keyro_core.Common.{refl, List, [], ◌∷◌, All, any}
use keyro_core.Domain.Ids.{UuidCrate, UuidLaws}
use keyro_core.Domain.Urls.{UrlCrate}
use keyro_core.Storage.Database.{Database, RusqliteCrate}
use keyro_core.Storage.Statements.{has_id}
use keyro_core.Storage.Repository.{rename_profile, set_active_profile}
use keyro_core.Storage.Assignments.Rows.{calm}
use keyro_core.Storage.Consistency.Methods.{Call, after}
use keyro_core.Storage.Data.{set_active_profile-IsData, rename_profile-IsData}
use keyro_core.Storage.Board.{Board, apply, run_calls, replay, Represents, IsParsedCall}
use keyro_core.Storage.Board.Writes.{Represents-IsData, save-Represents, clear-Represents}
use keyro_core.Storage.Board.Creation.{create-Represents}

module _ ⦃uuid : UuidCrate⦄ ⦃url : UrlCrate⦄ ⦃sql : RusqliteCrate⦄ where
  apply-Represents :
      (call : Call) (board : Board) (db : Database)
      → UuidLaws uuid
      → IsParsedCall call
      → Represents board db
      → Represents (apply db call board) (after (calm db) call)
  unfolding apply after
  apply-Represents (Call.create name) board db laws parsed h =
      create-Represents name board db laws h
  apply-Represents (Call.rename_to id name) board db laws parsed h =
      Represents-IsData board db (rename_profile id name (calm db)).1 h (
        (rename_profile-IsData (λ id. any (has_id id) db.profiles) db.assignments id name).at
          (calm db) (refl, λ _. refl))
  apply-Represents (Call.switch id) board db laws parsed h =
      Represents-IsData board db (set_active_profile id (calm db)).1 h (
        (set_active_profile-IsData (λ id. any (has_id id) db.profiles) db.assignments id).at
          (calm db) (refl, λ _. refl))
  apply-Represents (Call.save a) board db laws parsed h = save-Represents a board db laws parsed h
  apply-Represents (Call.clear id control) board db laws parsed h =
      clear-Represents id control board db laws h

  -- After any sequence of calls, in which no statement fails, the URLs of the saved assignments are
  -- parsed ones and UUIDs parse back, the tables hold what the abstract board holds after the same
  -- calls: the same profiles exist, and every lookup answers the assignment of the board.
  pub run_calls-Represents :
      (calls : List Call) (board : Board) (db : Database)
      → UuidLaws uuid
      → All IsParsedCall calls
      → Represents board db
      → Represents (replay calls db board) (run_calls calls db)
  unfolding run_calls replay
  run_calls-Represents [] board db laws parsed h = h
  run_calls-Represents (call ∷ calls) board db laws parsed h =
      run_calls-Represents calls (apply db call board) (after (calm db) call) laws parsed.1
        (apply-Represents call board db laws parsed.0 h)
