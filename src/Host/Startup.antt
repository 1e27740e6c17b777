-- ===== src/Host/Startup.antt =====
-- `main` of crates/keyro-core/src/main.rs: what the process does, in order, until it listens. The
-- lines that tracing writes into the log on the way are left out.
pub mod Order
pub mod Tables
pub mod Ready
use keyro_core.Common.{
  String, List, [], ◌∷◌, Option, none, some, ℕ, Result, ok, err, map_err, ok_or,
}
use keyro_core.Common.Exec.{Exec, lift, pure, ◌>>=◌, ◌>>◌}
use keyro_core.Domain.Ids.{UuidCrate}
use keyro_core.Domain.Urls.{UrlCrate}
use keyro_core.Domain.Profiles.{Profile}
use keyro_core.App.Errors.{AppError}
use keyro_core.App.Ports.{UrlOpener, EventSink, UuidSource}
use keyro_core.App.Service.{initialize}
use keyro_core.Platform.{TargetOs, macos, windows, other_os}
use keyro_core.Storage.Database.{Database, RusqliteCrate, Sql, SqlError, statement, idle}
use keyro_core.Storage.Listing.{service_over}
use keyro_core.Host.Instance.{
  LockFile, AcquireError, Locking, SingleInstanceGuard, create_dir_all, acquire, close,
}
use keyro_core.Host.Listener.{Socket, Listening, ListenError, run_dev_ipc}
use keyro_core.Host.Logs.Disk.{Disk, Io}
use keyro_core.Host.Logs.Retention.{default_retention}
use keyro_core.Host.Logs.Writer.{new_writer}

-- A `PathBuf`: what is joined to a directory of the environment.
pub record PathBuf : Type 0 where
  pub base : String
  pub joined : List String

abbrev pub joined_to : List String → Option String → Option PathBuf
joined_to joined none = none
joined_to joined (some base) = some (record { base = base; joined = joined })

-- On `std::env::var_os`.
unfoldable pub default_data_dir : TargetOs → (String → Option String) → Option PathBuf
default_data_dir macos var_os =
    joined_to ("Library/Application Support/Keyro/Core" ∷ []) (var_os "HOME")
default_data_dir windows var_os = joined_to ("Keyro" ∷ "Core" ∷ []) (var_os "LOCALAPPDATA")
default_data_dir other_os var_os = joined_to (".local/share/keyro/core" ∷ []) (var_os "HOME")

unfoldable pub default_log_dir : TargetOs → (String → Option String) → Option PathBuf
default_log_dir macos var_os = joined_to ("Library/Logs/Keyro/Core" ∷ []) (var_os "HOME")
default_log_dir windows var_os = joined_to ("Keyro" ∷ "Core" ∷ "logs" ∷ []) (var_os "LOCALAPPDATA")
default_log_dir other_os var_os = joined_to (".local/state/keyro/core/logs" ∷ []) (var_os "HOME")

-- What the process works on, in its two directories.
pub record Machine : Type 0 where
  pub lock : LockFile
  pub logs : Disk
  pub database : Database
  pub socket : Socket

-- Where `main` fails.
pub data StartError : Type 0 where
  no_data_dir no_log_dir : StartError
  locking : AcquireError → StartError
  logging : String → StartError
  opening : SqlError → StartError
  initializing : AppError → StartError
  listening : ListenError → StartError

abbrev pub Start : Type 0 → Type 0
Start A = Exec Machine StartError A

module _ {A : Type 0} where
  abbrev pub on_lock : Locking A → Start A
  on_lock m machine =
      let (r, lock) = m machine.lock in (map_err locking r, record machine { lock = lock })

  abbrev pub on_logs : Io A → Start A
  on_logs m machine =
      let (r, logs) = m machine.logs in (map_err logging r, record machine { logs = logs })

  abbrev pub on_database : {E : Type 0} → (E → StartError) → Exec Database E A → Start A
  on_database wrap m machine =
      let (r, database) = m machine.database in
      (map_err wrap r, record machine { database = database })

  abbrev pub on_socket : Listening A → Start A
  on_socket m machine =
      let (r, socket) = m machine.socket in
      (map_err listening r, record machine { socket = socket })

  abbrev pub released_on_error :
      SingleInstanceGuard → Result StartError A × Machine → Result StartError A × Machine
  released_on_error guard (ok a, machine) = (ok a, machine)
  released_on_error guard (err e, machine) =
      (err e, record machine { lock = close guard.file machine.lock })

  -- `_single_instance_guard` is dropped where `main` returns an error.
  abbrev pub guarding : SingleInstanceGuard → Start A → Start A
  guarding guard body machine = released_on_error guard (body machine)

-- `LoggingEventSink`
abbrev pub logging_event_sink : EventSink Database
logging_event_sink = record { emit = λ event. pure tt }

-- `SqliteProfileRepository::open`: the file, the foreign keys, and the tables where they are missing,
-- which are then empty as in the model.
unfoldable pub open_repository : Sql (Unit {0})
open_repository = do statement idle; statement idle; statement idle

unfoldable pub init_logging : TargetOs → (String → Option String) → Start (Unit {0})
init_logging os var_os = do
  lift (ok_or (default_log_dir os var_os) no_log_dir)
  on_logs (new_writer default_retention)

module _ ⦃uuid : UuidCrate⦄ ⦃url : UrlCrate⦄ ⦃sql : RusqliteCrate⦄ where
  module _ (os : TargetOs) (var_os : String → Option String) (url_opener : UrlOpener Database)
      (uuids : UuidSource Database) where
    -- `main` under the guard.
    unfoldable pub start_guarded : Start Profile
    unfolding init_logging open_repository
    start_guarded = do
      init_logging os var_os
      on_database opening open_repository
      profile ←
          on_database initializing (initialize (service_over url_opener logging_event_sink uuids))
      on_socket (run_dev_ipc os)
      pure profile

    -- `main`, by the process id, up to the loop of the listener.
    unfoldable pub start : ℕ → Start Profile
    unfolding start_guarded
    start pid = do
      lift (ok_or (default_data_dir os var_os) no_data_dir)
      on_lock create_dir_all
      guard ← on_lock (acquire pid)
      guarding guard start_guarded
