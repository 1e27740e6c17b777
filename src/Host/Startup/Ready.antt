-- ===== src/Host/Startup/Ready.antt =====
-- What the process has when `main` of crates/keyro-core/src/main.rs listens.
use keyro_core.Common.{
  ℕ, ◌≡◌, refl, subst, String, true, Option, Result, ok, err, ok_or, map_err, arith,
}
use keyro_core.Common.Exec.{Exec, lift}
use keyro_core.Common.Ensures.{Ensures, Ensures-bind, Ensures-pure}
use keyro_core.Domain.Ids.{UuidCrate}
use keyro_core.Domain.Urls.{UrlCrate}
use keyro_core.Domain.Profiles.{Profile}
use keyro_core.App.Ports.{UrlOpener, UuidSource}
use keyro_core.App.Service.{initialize}
use keyro_core.Platform.{TargetOs, macos, windows, other_os}
use keyro_core.Storage.Database.{Database, RusqliteCrate}
use keyro_core.Storage.Keeps.{On}
use keyro_core.Storage.Consistency.{IsConsistent}
use keyro_core.Storage.Listing.{service_over}
use keyro_core.Host.Instance.{LockFile, SingleInstanceGuard, create_dir_all, acquire}
use keyro_core.Host.Instance.Exclusion.{IsHeld, IsFree}
use keyro_core.Host.Instance.Taking.{Takes, acquire-IsFree, create_dir_all-IsFree}
use keyro_core.Host.Listener.{
  listen, remove_stale, remove_file, bind, create_first_pipe, run_dev_ipc,
}
use keyro_core.Host.Startup.Tables.{IsStored, open_repository-Ensures, initialize-Ensures}
use keyro_core.Host.Startup.{
  Machine, StartError, Start, default_data_dir, default_log_dir, no_data_dir, no_log_dir, on_lock,
  on_database, on_socket, released_on_error, guarding, logging_event_sink, open_repository,
  init_logging, start_guarded, start, opening, initializing,
}

-- The process has the lock.
pub record HasLock (pid : ℕ) (lock : LockFile) : Type 0 where
  pub guard : SingleInstanceGuard
  pub owner : guard.pid ≡ pid
  pub held : IsHeld guard lock

ok_of_map_err :
    {E F A : Type 0} → (f : E → F) (r : Result E A) (a : A) → map_err f r ≡ ok a → r ≡ ok a
ok_of_map_err f (ok b) a h = ground arith
ok_of_map_err f (err e) a h = absurd (ground arith)

run_dev_ipc-Ensures :
    (os : TargetOs) → Ensures (λ _. Unit {0}) (run_dev_ipc os) (λ _ socket. socket.present ≡ true)
unfolding run_dev_ipc listen remove_stale remove_file bind create_first_pipe
run_dev_ipc-Ensures macos = record { at = λ socket _ _ r. ground arith }
run_dev_ipc-Ensures windows = record { at = λ socket _ _ r. ground arith }
run_dev_ipc-Ensures other_os = record { at = λ socket _ _ r. ground arith }

module _ ⦃uuid : UuidCrate⦄ ⦃url : UrlCrate⦄ ⦃sql : RusqliteCrate⦄ where
  -- The stages of `main`, by what the tables are.
  abbrev Stage : ℕ → (Database → Type 0) → Machine → Type 0
  Stage pid P machine = HasLock pid machine.lock × P machine.database

  -- The process has the lock, the tables are consistent and the socket is there.
  pub record IsListening (pid : ℕ) (machine : Machine) : Type 0 where
    pub lock : HasLock pid machine.lock
    pub consistent : On IsConsistent machine.database
    pub present : machine.socket.present ≡ true

  on_database-Ensures :
      {E A : Type 0}
      → (pid : ℕ) (P Q : Database → Type 0) (wrap : E → StartError) (m : Exec Database E A)
      → Ensures P m (λ _. Q)
      → Ensures (Stage pid P) (on_database wrap m) (λ _. Stage pid Q)
  on_database-Ensures pid P Q wrap m h = record {
    at = λ machine (lock, p) a r.
        (lock, h.at machine.database p a (ok_of_map_err wrap (m machine.database).0 a r));
  }

  init_logging-Ensures :
      (pid : ℕ) (os : TargetOs) (var_os : String → Option String)
      → Ensures (Stage pid IsStored) (init_logging os var_os) (λ _. Stage pid IsStored)
  unfolding init_logging
  init_logging-Ensures pid os var_os =
      Ensures-bind (Stage pid IsStored) (λ _. Stage pid IsStored) (λ _. Stage pid IsStored)
        (lift (ok_or (default_log_dir os var_os) no_log_dir)) _ (record { at = λ machine h _ _. h })
        λ _. record { at = λ machine h _ _. h }

  start_guarded-Ensures :
      (pid : ℕ) (os : TargetOs) (var_os : String → Option String) (url_opener : UrlOpener Database)
      (uuids : UuidSource Database)
      → Ensures
          (Stage pid IsStored)
          (start_guarded os var_os url_opener uuids)
          (λ _. IsListening pid)
  unfolding start_guarded
  start_guarded-Ensures pid os var_os url_opener uuids =
      let S = Stage pid IsStored in
      let C = Stage pid (On IsConsistent) in
      Ensures-bind S (λ _. S) (λ _. IsListening pid) (init_logging os var_os) _
        (init_logging-Ensures pid os var_os)
        λ _.
          Ensures-bind S (λ _. S) (λ _. IsListening pid) (on_database opening open_repository) _
            (on_database-Ensures pid IsStored IsStored opening open_repository
              open_repository-Ensures)
            λ _.
              Ensures-bind S (λ _. C) (λ _. IsListening pid)
                (on_database initializing
                  (initialize (service_over url_opener logging_event_sink uuids)))
                _
                (on_database-Ensures pid IsStored (On IsConsistent) initializing _
                  (initialize-Ensures url_opener uuids))
                λ profile.
                  Ensures-bind C (λ _. IsListening pid) (λ _. IsListening pid)
                    (on_socket (run_dev_ipc os)) _
                    (record {
                      at = λ machine (lock, consistent) a r. record {
                        lock = lock;
                        consistent = consistent;
                        present =
                            (run_dev_ipc-Ensures os).at machine.socket tt a
                              (ok_of_map_err _ (run_dev_ipc os machine.socket).0 a r);
                      };
                    })
                    λ _. Ensures-pure (IsListening pid) _ profile (λ machine h. h)

  guarding-Ensures :
      {A : Type 0}
      → (P Q : Machine → Type 0) (guard : SingleInstanceGuard) (body : Start A)
      → Ensures P body (λ _. Q)
      → Ensures P (guarding guard body) (λ _. Q)
  guarding-Ensures {A} P Q guard body h = record {
    at = λ machine p a. go (body machine).0 (body machine).1 a (λ b. h.at machine p b);
  }
    where
      go :
          (r : Result StartError A) (machine : Machine) (a : A)
          → ((b : A) → r ≡ ok b → Q machine)
          → (released_on_error guard (r, machine)).0 ≡ ok a
          → Q (released_on_error guard (r, machine)).1
      go (ok b) machine a q e = q b refl
      go (err x) machine a q e = absurd (ground arith)

  -- The lock is free, and the tables are as stored.
  abbrev Idle : Machine → Type 0
  Idle machine = IsFree machine.lock × IsStored machine.database

  acquire-Ensures : (pid : ℕ) → Ensures Idle (on_lock (acquire pid)) (λ _. Stage pid IsStored)
  acquire-Ensures pid = record {
    at = λ machine (free, stored) g r.
        let done : (acquire pid machine.lock).0 ≡ ok g =
          ok_of_map_err _ (acquire pid machine.lock).0 g r in
        let taken : Takes pid (ok g) (acquire pid machine.lock).1 =
          subst (λ x. Takes pid x (acquire pid machine.lock).1) done
            ((acquire-IsFree pid).at machine.lock free) in
        (record { guard = g; owner = taken.0; held = taken.1 }, stored);
  }

  -- When `main` gets as far as its listener, from a free lock and tables that are empty or as an
  -- earlier run left them: the process holds the single-instance lock, the tables are consistent,
  -- with one active profile, and the socket or the pipe is there.
  pub start-IsListening :
      (os : TargetOs) (var_os : String → Option String) (url_opener : UrlOpener Database)
      (uuids : UuidSource Database) (pid : ℕ) (machine : Machine) (profile : Profile)
      → IsFree machine.lock
      → IsStored machine.database
      → (start os var_os url_opener uuids pid machine).0 ≡ ok profile
      → IsListening pid (start os var_os url_opener uuids pid machine).1
  unfolding start
  start-IsListening os var_os url_opener uuids pid machine profile free stored r =
      whole.at machine (free, stored) profile r
    where
      whole : Ensures Idle (start os var_os url_opener uuids pid) (λ _. IsListening pid)
      whole =
          Ensures-bind Idle (λ _. Idle) (λ _. IsListening pid)
            (lift (ok_or (default_data_dir os var_os) no_data_dir)) _
            (record { at = λ machine h _ _. h })
            λ _.
              Ensures-bind Idle (λ _. Idle) (λ _. IsListening pid) (on_lock create_dir_all) _
                (record {
                  at = λ machine (free, stored) _ _.
                      (create_dir_all-IsFree.at machine.lock free, stored);
                })
                λ _.
                  Ensures-bind Idle (λ _. Stage pid IsStored) (λ _. IsListening pid)
                    (on_lock (acquire pid)) _ (acquire-Ensures pid)
                    λ guard.
                      guarding-Ensures (Stage pid IsStored) (IsListening pid) guard
                        (start_guarded os var_os url_opener uuids)
                        (start_guarded-Ensures pid os var_os url_opener uuids)
