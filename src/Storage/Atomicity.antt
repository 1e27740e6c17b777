-- ===== src/Storage/Atomicity.antt =====
-- Failed transactions of crates/core-storage-sqlite/src/lib.rs leave no trace in the tables.
use keyro_core.Common.{◌≡◌, ok, err, Result, arith}
use keyro_core.Domain.Ids.{UuidCrate, ProfileId}
use keyro_core.Domain.Assignments.{Assignment}
use keyro_core.App.Errors.{AppError}
use keyro_core.Storage.Database.{
  Database, RusqliteCrate, Repo, run, statement, idle, transaction, begun, finish, committed,
}
use keyro_core.Storage.Repository.{set_active_profile, save_assignment}
use keyro_core.Storage.Keeps.{idle_tables}

abbrev pub SameTables : Database → Database → Type 0
SameTables db db' = (db'.profiles ≡ db.profiles) × (db'.assignments ≡ db.assignments)

module _ ⦃sql : RusqliteCrate⦄ {A : Type 0} where
  -- A transaction that ends in an error, of its body, of BEGIN or of COMMIT, has changed nothing.
  transaction-SameTables :
      (body : Repo A) (db : Database) (e : AppError)
      → (transaction body db).0 ≡ err e
      → SameTables db (transaction body db).1
  unfolding transaction
  transaction-SameTables body db e h =
      go (run (statement idle) db).0 (run (statement idle) db).1 (idle_tables db) h
    where
      closing :
          (a : A) (before : Database) (r : Result AppError (Unit {0})) (db' : Database)
          → SameTables db before
          → (committed before a r db').0 ≡ err e
          → SameTables db (committed before a r db').1
      closing a before (ok _) db' same h = ground arith
      closing a before (err _) db' same h = same

      ending :
          (before : Database) (r : Result AppError A) (db' : Database)
          → SameTables db before
          → (finish before r db').0 ≡ err e
          → SameTables db (finish before r db').1
      ending before (err _) db' same h = same
      ending before (ok a) db' same h =
          closing a before (run (statement idle) db').0 (run (statement idle) db').1 same h

      go :
          (r : Result AppError (Unit {0})) (db' : Database)
          → SameTables db db'
          → (begun body r db').0 ≡ err e
          → SameTables db (begun body r db').1
      go (err _) db' same h = same
      go (ok _) db' same h = ending db' (body db').0 (body db').1 same h

module _ ⦃uuid : UuidCrate⦄ ⦃sql : RusqliteCrate⦄ where
  -- A save that fails, at whatever statement and for whatever reason, leaves both tables as they
  -- were: the old actions of the control are still there.
  pub save_assignment-SameTables :
      (assignment : Assignment) (db : Database) (e : AppError)
      → (save_assignment assignment db).0 ≡ err e
      → SameTables db (save_assignment assignment db).1
  unfolding save_assignment
  save_assignment-SameTables assignment db e h = transaction-SameTables _ db e h

  -- A switch of the active profile that fails leaves both tables as they were.
  pub set_active_profile-SameTables :
      (id : ProfileId) (db : Database) (e : AppError)
      → (set_active_profile id db).0 ≡ err e
      → SameTables db (set_active_profile id db).1
  unfolding set_active_profile
  set_active_profile-SameTables id db e h = transaction-SameTables _ db e h
