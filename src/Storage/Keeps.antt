-- ===== src/Storage/Keeps.antt =====
-- Invariants of the tables under the methods of crates/core-storage-sqlite/src/lib.rs: one rule for
-- each way to build a method, whatever statements fail.
use keyro_core.Common.{
  Bool, true, false, if◌then◌else◌, ◌≡◌, refl, String, arith, List, Option, none, some, Result, ok,
  err,
}
use keyro_core.Common.Exec.{Exec, lift, ◌>>=◌}
use keyro_core.Storage.Database.{
  ProfileRow, AssignmentRow, Database, Sql, Repo, SqlError, RusqliteCrate, tick, next_fault,
  unless_failed, begun, finish, committed, statement, idle, new_v4, run, transaction,
}
use keyro_core.App.Errors.{AppError}

abbrev pub Tables : Type 1
Tables = List ProfileRow → List AssignmentRow → Type 0

-- The invariant of the tables of a database.
abbrev pub On : Tables → Database → Type 0
On P db = P db.profiles db.assignments

-- The method keeps the invariant, whether it succeeds or fails.
pub record Keeps {E A : Type 0} (P : Tables) (m : Exec Database E A) : Type 0 where
  pub at : (db : Database) → On P db → On P (m db).1

module _ {E A B : Type 0} (P : Tables) where
  pub Keeps-bind :
      (m : Exec Database E A) (f : A → Exec Database E B)
      → Keeps P m
      → ((a : A) → Keeps P (f a))
      → Keeps P (m >>= f)
  Keeps-bind m f km kf = record { at = λ db h. go (m db).0 (m db).1 (km.at db h) }
    where
      go : (r : Result E A) (db : Database) → On P db → On P ((lift r >>= f) db).1
      go (ok a) db h = (kf a).at db h
      go (err e) db h = h

  -- The rest may use what the first part has established when it succeeds.
  pub Keeps-bind_ok :
      (Q : A → Tables) (m : Exec Database E A) (f : A → Exec Database E B)
      → Keeps P m
      → ((a : A) (db : Database) → On P db → (m db).0 ≡ ok a → On (Q a) (m db).1)
      → ((a : A) (db : Database) → On P db → On (Q a) db → On P (f a db).1)
      → Keeps P (m >>= f)
  Keeps-bind_ok Q m f km established kf = record {
    at = λ db h. go (m db).0 (m db).1 (km.at db h) (λ a. established a db h);
  }
    where
      go :
          (r : Result E A) (db : Database)
          → On P db
          → ((a : A) → r ≡ ok a → On (Q a) db)
          → On P ((lift r >>= f) db).1
      go (ok a) db h q = kf a db h (q a refl)
      go (err e) db h q = h

module _ {E A : Type 0} (P : Tables) where
  pub Keeps-lift : (r : Result E A) → Keeps P (lift {W = Database} r)
  Keeps-lift r = record { at = λ db h. h }

module _ {A : Type 0} (P : Tables) where
  pub Keeps-statement : (body : Sql A) → Keeps P body → Keeps P (statement body)
  unfolding statement
  Keeps-statement body k = record { at = λ db h. go (next_fault db.faults) (tick db) h }
    where
      go : (fault : Option String) (db : Database) → On P db → On P (unless_failed fault body db).1
      go none db h = k.at db h
      go (some _) db h = h

pub Keeps-new_v4 : (P : Tables) → Keeps P new_v4
Keeps-new_v4 P = record { at = λ db h. h }

module _ ⦃sql : RusqliteCrate⦄ {A : Type 0} (P : Tables) where
  pub Keeps-run : (m : Sql A) → Keeps P m → Keeps P (run m)
  Keeps-run m k = record { at = λ db h. go (m db).0 (m db).1 (k.at db h) }
    where
      go : (r : Result SqlError A) (db : Database) → On P db → On P (run (lift r) db).1
      go (ok _) db h = h
      go (err _) db h = h

module _ ⦃sql : RusqliteCrate⦄ where
  -- BEGIN and COMMIT leave the tables alone.
  pub idle_tables :
      (db : Database)
      → let db' = (run (statement idle) db).1 in
        (db'.profiles ≡ db.profiles) × (db'.assignments ≡ db.assignments)
  unfolding statement
  idle_tables db = (ground arith, ground arith)

module _ ⦃sql : RusqliteCrate⦄ {A : Type 0} where
  finish-On :
      (P : Tables) (before : Database) (r : Result AppError A) (db : Database)
      → On P before
      → ((a : A) → r ≡ ok a → On P db)
      → On P (finish before r db).1
  finish-On P before (err e) db h k = h
  finish-On P before (ok a) db h k = go (run (statement idle) db).0 (run (statement idle) db).1 same
    where
      same : On P (run (statement idle) db).1
      same = rw ((idle_tables db).0, (idle_tables db).1) (k a refl)

      go :
          (r : Result AppError (Unit {0})) (db' : Database)
          → On P db'
          → On P (committed before a r db').1
      go (ok _) db' kept = kept
      go (err _) db' kept = h

  -- A transaction keeps what its body keeps when it succeeds: the states in between do not count.
  pub Keeps-transaction :
      (P : Tables) (body : Repo A)
      → ((db : Database) → On P db → (a : A) → (body db).0 ≡ ok a → On P (body db).1)
      → Keeps P (transaction body)
  unfolding transaction
  Keeps-transaction P body k = record {
    at = λ db h.
        go (run (statement idle) db).0 (run (statement idle) db).1
          (rw ((idle_tables db).0, (idle_tables db).1) h);
  }
    where
      go : (r : Result AppError (Unit {0})) (db : Database) → On P db → On P (begun body r db).1
      go (ok _) db h = finish-On P db (body db).0 (body db).1 h (k db h)
      go (err _) db h = h

module _ {A : Type 0} (P : Tables) where
  -- A write behind the check of its constraints.
  pub On-guarded :
      (violated : Bool) (e : SqlError) (a : A) (db db' : Database)
      → On P db
      → (violated ≡ false → On P db')
      → let r : Result SqlError A × Database = if violated then (err e, db) else (ok a, db') in
        On P r.1
  On-guarded true e a db db' h k = h
  On-guarded false e a db db' h k = k refl
