-- ===== src/Examples/Startups.antt =====
-- Two starts of the process: the first gets the lock, the second does not.
use keyro_core.Common.{◌+◌, ◌^◌, ◌≡◌, refl, String, false, [], Option, true, some, is_ok, arith}
use keyro_core.Domain.Profiles.{Profile}
use keyro_core.Platform.{other_os}
use keyro_core.Host.Instance.{SingleInstanceGuard}
use keyro_core.Host.Instance.Exclusion.{IsHeld}
use keyro_core.Host.Startup.{Machine, start, default_data_dir, default_log_dir}
use keyro_core.Host.Instance.{create_dir_all, acquire}
use keyro_core.Host.Logs.Disk.{harmless, read_dir, open_append}
use keyro_core.Host.Logs.Retention.{validate_retention, cleanup_logs, enforce}
use keyro_core.Host.Logs.Writer.{new_writer}
use keyro_core.Storage.Database.{statement}
use keyro_core.Storage.Statements.{select_active, select_profiles}
use keyro_core.Storage.Queries.{load_active_profile, list_profiles}
use keyro_core.Storage.Repository.{ensure_default_profile, sqlite_repository}
use keyro_core.Storage.Listing.{service_over}
use keyro_core.App.Service.{initialize}
use keyro_core.Domain.Profiles.{ensure_exactly_one_active}
use keyro_core.Host.Listener.{run_dev_ipc}
use keyro_core.Host.Startup.Order.{Waits, start-Waits}
use keyro_core.Host.Startup.Ready.{IsListening, start-IsListening}
use keyro_core.Examples.Crates.{uuids, urls, sqlite}
use keyro_core.Examples.Databases.{two_profiles, two_profiles-IsConsistent, opener, ids}
use keyro_core.Examples.Logs.{full}
use keyro_core.Examples.Processes.{left, first, stale}

abbrev idle : Machine
idle = record {
  lock = left;
  logs = record full { entries = []; clock = λ n. 10 ^ 18 + n };
  database = two_profiles;
  socket = stale;
}

abbrev waiting : Machine
waiting = record idle { lock = first.lock }

abbrev home : String → Option String
home name = some "/home/me"

first-IsHeld : IsHeld (record { file = 4; pid = 40 }) first.lock
unfolding keyro_core.Host.Instance.acquire keyro_core.Common.Decimal.decimal
    keyro_core.Host.Instance.overwritten
first-IsHeld = record { holder = refl; content = refl; older = omega arith }

start-Waits_example :
    (is_ok (start other_os home opener ids 41 waiting).0 ≡ false)
    × Waits (record { file = 4; pid = 40 }) waiting (start other_os home opener ids 41 waiting).1
start-Waits_example =
    start-Waits other_os home opener ids 41 (record { file = 4; pid = 40 }) waiting first-IsHeld

abbrev default : Profile
default = record { id = 1; name = "Default"; is_active = true }

start-IsListening_example : IsListening 40 (start other_os home opener ids 40 idle).1
unfolding start default_data_dir create_dir_all acquire default_log_dir new_writer
    validate_retention harmless cleanup_logs read_dir enforce open_append statement initialize
    service_over sqlite_repository ensure_default_profile load_active_profile select_active
    list_profiles select_profiles ensure_exactly_one_active run_dev_ipc
    keyro_core.Storage.Rows.optional_profile
start-IsListening_example =
    start-IsListening other_os home opener ids 40 idle default (record { holder = refl })
      (record {
        keyed = two_profiles-IsConsistent.keyed;
        one = omega (arith, two_profiles-IsConsistent.one_active);
      })
      refl
