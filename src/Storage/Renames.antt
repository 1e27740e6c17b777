-- ===== src/Storage/Renames.antt =====
-- Concurrent callers of the repository of crates/core-storage-sqlite/src/lib.rs. The mutex makes
-- each method one step, but `rename_profile` locks twice: other calls may come between its two
-- parts.
use keyro_core.Common.{◌≡◌, String, List, [], ◌∷◌, ◌++◌, ok, err}
use keyro_core.Domain.Ids.{UuidCrate, ProfileId}
use keyro_core.Domain.Profiles.{Profile}
use keyro_core.App.Errors.{AppError}
use keyro_core.Storage.Database.{Database, RusqliteCrate}
use keyro_core.Storage.Repository.{renamed_profile, store_name}
use keyro_core.Storage.Keeps.{On}
use keyro_core.Storage.Consistency.{IsConsistent}
use keyro_core.Storage.Consistency.Methods.{
  Call, after, after-IsConsistent, renamed_profile-Keeps, store_name-Keeps,
}

-- The database, and the renames that are between their two locks, with the profile each has read.
pub record Shared : Type 0 where
  pub database : Database
  pub renames : List (ProfileId × Profile)

module _ ⦃uuid : UuidCrate⦄ ⦃sql : RusqliteCrate⦄ where
  -- One step of one of the callers.
  pub data Step (s : Shared) : Shared → Type 0 where
    call : (c : Call) → Step s (record s { database = after s.database c })
    -- The first part of `rename_profile`, which goes on or answers an error.
    read :
        (id : ProfileId) (name : String) {profile : Profile}
        → (renamed_profile id name s.database).0 ≡ ok profile
        → Step s (record {
          database = (renamed_profile id name s.database).1;
          renames = (id, profile) ∷ s.renames;
        })
    refused :
        (id : ProfileId) (name : String) {e : AppError}
        → (renamed_profile id name s.database).0 ≡ err e
        → Step s (record s { database = (renamed_profile id name s.database).1 })
    -- The second part of one of the renames, whenever its caller gets the lock.
    store :
        (before later : List (ProfileId × Profile)) (id : ProfileId) (profile : Profile)
        → s.renames ≡ before ++ (id, profile) ∷ later
        → Step s
            (record { database = (store_name id profile s.database).1; renames = before ++ later })

  -- What the callers can make of a database.
  pub data Reach (db : Database) : Shared → Type 0 where
    start : Reach db (record { database = db; renames = [] })
    later : {s t : Shared} → Reach db s → Step s t → Reach db t

  Step-IsConsistent :
      {s t : Shared} → Step s t → On IsConsistent s.database → On IsConsistent t.database
  Step-IsConsistent {s} (call c) h = after-IsConsistent s.database c h
  Step-IsConsistent {s} (read id name _) h =
      (renamed_profile-Keeps IsConsistent id name).at s.database h
  Step-IsConsistent {s} (refused id name _) h =
      (renamed_profile-Keeps IsConsistent id name).at s.database h
  Step-IsConsistent {s} (store _ _ id profile _) h = (store_name-Keeps id profile).at s.database h

  -- Whatever calls the callers make and however their steps interleave, the two parts of a rename
  -- included, tables that are consistent at first stay consistent: one active profile, distinct
  -- readable ids, no orphaned assignment.
  pub Reach-IsConsistent :
      {db : Database} {s : Shared} → Reach db s → On IsConsistent db → On IsConsistent s.database
  Reach-IsConsistent start h = h
  Reach-IsConsistent (later reach step) h = Step-IsConsistent step (Reach-IsConsistent reach h)
