-- ===== src/Storage/Database.antt =====
-- The tables of crates/core-storage-sqlite/src/lib.rs, and how a statement runs on them. SQL is
-- read as the standard documents it; a failure of the engine itself, such as a full disk, is an
-- event that the environment chooses for each statement.
use keyro_core.Common.{ℕ, suc, ℤ, String, List, [], ◌∷◌, Option, none, some, Result, ok, err}
use keyro_core.Common.Exec
use keyro_core.Common.Exec.{Exec}
use keyro_core.Domain.Errors.{DomainError}
use keyro_core.Domain.Ids.{Uuid}
use keyro_core.App.Errors.{AppError, storage}

-- A row of `profiles`. `created_at` is the text of CURRENT_TIMESTAMP.
pub record ProfileRow : Type 0 where
  pub id : String
  pub name : String
  pub is_active : ℤ
  pub created_at : String

-- The four columns that `encode_control` writes.
pub record ControlColumns : Type 0 where
  pub page_index : ℤ
  pub control_kind : String
  pub control_index : ℤ
  pub control_operation : String

-- A row of `assignments`.
pub record AssignmentRow : Type 0 where
  pub profile_id : String
  pub control : ControlColumns
  pub open control use *
  pub action_position : ℤ
  pub action_kind : String
  pub action_url : Option String

-- The rusqlite errors that the program meets: its own two row errors and their sources, a violated
-- constraint, and a failure of the engine.
pub data SqlError : Type 0 where
  invalid_query constraint_violation : SqlError
  from_sql_conversion to_sql_conversion : DomainError → SqlError
  engine_failure : String → SqlError

-- `Display for rusqlite::Error`
pub record RusqliteCrate : Type 0 where
  pub error_text : SqlError → String

-- The tables in row order, and what the environment supplies: the failures of the statements to
-- come (none after the end of the list), the time, and the random UUIDs.
pub record Database : Type 0 where
  pub profiles : List ProfileRow
  pub assignments : List AssignmentRow
  pub faults : List (Option String)
  pub now : String
  pub entropy : ℕ → Uuid
  pub drawn : ℕ

abbrev pub Sql : Type 0 → Type 0
Sql A = Exec Database SqlError A

abbrev pub Repo : Type 0 → Type 0
Repo A = Exec Database AppError A

abbrev pub next_fault : List (Option String) → Option String
next_fault [] = none
next_fault (fault ∷ _) = fault

abbrev pub later_faults : List (Option String) → List (Option String)
later_faults [] = []
later_faults (_ ∷ rest) = rest

abbrev pub tick : Database → Database
tick db = record db { faults = later_faults db.faults }

module _ {A : Type 0} where
  abbrev pub unless_failed : Option String → Sql A → Sql A
  unless_failed none body db = body db
  unless_failed (some text) body db = (err (engine_failure text), db)

  -- One statement: it fails by a fault with no effect, or runs.
  unfoldable pub statement : Sql A → Sql A
  statement body db = unless_failed (next_fault db.faults) body (tick db)

-- A statement that changes no table: BEGIN and COMMIT, as far as the tables go.
abbrev pub idle : Sql (Unit {0})
idle db = (ok tt, db)

-- `Uuid::new_v4`
abbrev pub new_v4 : Repo Uuid
new_v4 db = (ok (db.entropy db.drawn), record db { drawn = suc db.drawn })

-- The tables as they were when the transaction began.
abbrev pub rollback : Database → Database → Database
rollback before db = record db { profiles = before.profiles; assignments = before.assignments }

module _ ⦃sql : RusqliteCrate⦄ where
  -- `to_app_error`
  unfoldable pub to_app_error : SqlError → AppError
  to_app_error e = storage (sql.error_text e)

module _ ⦃sql : RusqliteCrate⦄ {A : Type 0} where
  -- `.map_err(to_app_error)?`
  abbrev pub run : Sql A → Repo A
  run m = Exec.map_err to_app_error m

  -- What COMMIT answered: a failed COMMIT rolls back.
  abbrev pub committed :
      Database → A → Result AppError (Unit {0}) → Database → Result AppError A × Database
  committed before a (ok _) db = (ok a, db)
  committed before a (err e) db = (err e, rollback before db)

module _ ⦃sql : RusqliteCrate⦄ {A : Type 0} where
  -- The end of a transaction: an error drops it, which rolls back.
  abbrev pub finish : Database → Result AppError A → Database → Result AppError A × Database
  finish before (err e) db = (err e, rollback before db)
  finish before (ok a) db = let (r, db') = run (statement idle) db in committed before a r db'

  abbrev pub begun : Repo A → Result AppError (Unit {0}) → Database → Result AppError A × Database
  begun body (err e) db = (err e, db)
  begun body (ok _) db = let (r, db') = body db in finish db r db'

module _ ⦃sql : RusqliteCrate⦄ {A : Type 0} where
  -- `connection.transaction()`, the body, and `transaction.commit()`.
  unfoldable pub transaction : Repo A → Repo A
  transaction body db = let (r, db') = run (statement idle) db in begun body r db'
