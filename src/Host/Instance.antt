-- ===== src/Host/Instance.antt =====
-- crates/keyro-core/src/single_instance.rs: the lock that keeps a second instance of the program from
-- starting. The operating system's file lock is as documented: it belongs to an open file, it is
-- exclusive, and closing the file releases it.
pub mod Exclusion
pub mod Taking
pub mod Processes
use keyro_core.Common.{
  ℕ, suc, String, Bool, true, false, List, [], ◌∷◌, Option, none, some, Result, ok, err, ◌==◌,
  if◌then◌else◌,
}
use keyro_core.Common.Decimal.{decimal}
use keyro_core.Common.Exec.{Exec, lift, pure, ◌>>=◌, ◌>>◌}

-- The lock file `keyro-core.lock`: which open file holds its lock, what it contains, and how many
-- times it has been opened. The environment chooses which calls fail, and what a failed write
-- leaves in the file.
pub record LockFile : Type 0 where
  pub holder : Option ℕ
  pub content : String
  pub opened : ℕ
  pub faults : List Bool
  pub torn : String

-- The errors of `acquire`, by the message of each.
pub data AcquireError : Type 0 where
  create_dir_failed open_failed already_running lock_failed truncate_failed write_failed :
      AcquireError

-- `SingleInstanceGuard`, with the process that it is of.
pub record SingleInstanceGuard : Type 0 where
  pub file : ℕ
  pub pid : ℕ

abbrev pub Locking : Type 0 → Type 0
Locking A = Exec LockFile AcquireError A

module _ {A : Type 0} where
  abbrev pub unless_failed : List Bool → Locking A → Locking A → Locking A
  unless_failed [] failed call lock = call lock
  unless_failed (false ∷ rest) failed call lock = call (record lock { faults = rest })
  unless_failed (true ∷ rest) failed call lock = failed (record lock { faults = rest })

  -- A call of the system, with what a failure of it does.
  abbrev pub system_call : Locking A → Locking A → Locking A
  system_call failed call lock = unless_failed lock.faults failed call lock

abbrev pub fails : {A : Type 0} → AcquireError → Locking A
fails e lock = (err e, lock)

-- `fs::create_dir_all`
unfoldable pub create_dir_all : Locking (Unit {0})
create_dir_all = system_call (fails create_dir_failed) (pure tt)

-- `OpenOptions::new().create(true).truncate(false).read(true).write(true).open(..)`
unfoldable pub open_lock : Locking ℕ
open_lock =
    system_call (fails open_failed)
      (λ lock. (ok lock.opened, record lock { opened = suc lock.opened }))

abbrev pub take_lock : ℕ → Option ℕ → Locking (Unit {0})
take_lock file none lock = (ok tt, record lock { holder = some file })
take_lock file (some _) lock = (err already_running, lock)

-- `file.try_lock_exclusive()`
unfoldable pub try_lock_exclusive : ℕ → Locking (Unit {0})
try_lock_exclusive file = system_call (fails lock_failed) (λ lock. take_lock file lock.holder lock)

-- `file.set_len(0)`
unfoldable pub set_len : Locking (Unit {0})
set_len = system_call (fails truncate_failed) (λ lock. (ok tt, record lock { content = "" }))

-- The content of a file after a text has been written from its start: what is longer in the old
-- content stays. The texts are decimal numbers, a byte for each character.
unfoldable pub overwritten : String → String → String
overwritten String.[] old = old
overwritten (String.◌∷◌ c text) String.[] = String.◌∷◌ c text
overwritten (String.◌∷◌ c text) (String.◌∷◌ _ old) = String.◌∷◌ c (overwritten text old)

-- `file.write_all(..)`, at the start of the file that `open` has left the cursor on.
unfoldable pub write_all : String → Locking (Unit {0})
write_all text =
    system_call (λ lock. (err write_failed, record lock { content = lock.torn }))
      (λ lock. (ok tt, record lock { content = overwritten text lock.content }))

abbrev pub released : ℕ → Option ℕ → Option ℕ
released file none = none
released file (some holder) = if holder == file then none else some holder

-- `Drop` of the file, and `FileExt::unlock` before it.
unfoldable pub close : ℕ → LockFile → LockFile
close file lock = record lock { holder = released file lock.holder }

abbrev pub closed_on_error :
    {A : Type 0} → ℕ → Result AcquireError A × LockFile → Result AcquireError A × LockFile
closed_on_error file (ok a, lock) = (ok a, lock)
closed_on_error file (err e, lock) = (err e, close file lock)

-- The file is dropped where `acquire` returns an error.
abbrev pub owning : {A : Type 0} → ℕ → Locking A → Locking A
owning file body lock = closed_on_error file (body lock)

unfoldable pub locked : ℕ → ℕ → Locking SingleInstanceGuard
unfolding try_lock_exclusive set_len write_all
locked pid file = do
  try_lock_exclusive file
  set_len
  write_all (decimal pid)
  pure (record { file = file; pid = pid })

-- `SingleInstanceGuard::acquire`
unfoldable pub acquire : ℕ → Locking SingleInstanceGuard
unfolding create_dir_all open_lock locked
acquire pid = do create_dir_all; file ← open_lock; owning file (locked pid file)
