-- ===== src/Host/Startup/Order.antt =====
-- A second instance of the program, before it has the lock (crates/keyro-core/src/main.rs).
use keyro_core.Common.{
  ℕ, ◌≡◌, refl, String, false, Option, Result, ok, err, is_ok, ok_or, map_err, arith,
}
use keyro_core.Common.Exec.{lift}
use keyro_core.Common.Outcomes.{Returns, Returns-bind}
use keyro_core.Domain.Ids.{UuidCrate}
use keyro_core.Domain.Urls.{UrlCrate}
use keyro_core.App.Ports.{UrlOpener, UuidSource}
use keyro_core.Platform.{TargetOs}
use keyro_core.Storage.Database.{Database, RusqliteCrate}
use keyro_core.Host.Instance.{SingleInstanceGuard, Locking, create_dir_all, acquire}
use keyro_core.Host.Instance.Exclusion.{IsHeld, StaysHeld, create_dir_all-IsHeld, acquire-IsHeld}
use keyro_core.Host.Startup.{Machine, StartError, default_data_dir, no_data_dir, on_lock, start}

-- Another guard holds the lock, and the rest is as it was on the first machine.
pub record Waits (g : SingleInstanceGuard) (first machine : Machine) : Type 0 where
  pub held : IsHeld g machine.lock
  pub logs : machine.logs ≡ first.logs
  pub database : machine.database ≡ first.database
  pub socket : machine.socket ≡ first.socket

module _ (g : SingleInstanceGuard) (first : Machine) where
  abbrev Refuses : {A : Type 0} → Result StartError A → Machine → Type 0
  Refuses r machine = (is_ok r ≡ false) × Waits g first machine

  on_lock-Waits :
      {A : Type 0}
      → (m : Locking A) → Returns (IsHeld g) m (λ _. IsHeld g)
      → Returns (Waits g first) (on_lock m) (λ _. Waits g first)
  on_lock-Waits m h = record {
    at = λ machine w. record {
      held = h.at machine.lock w.held;
      logs = w.logs;
      database = w.database;
      socket = w.socket;
    };
  }

  is_ok-map_err :
      {E F A : Type 0}
      → (f : E → F) (r : Result E A) → is_ok r ≡ false
      → is_ok (map_err f r) ≡ false
  is_ok-map_err f (ok a) h = h
  is_ok-map_err f (err e) h = refl

  on_lock-Refuses :
      {A : Type 0}
      → (m : Locking A) → Returns (IsHeld g) m (StaysHeld g)
      → Returns (Waits g first) (on_lock m) Refuses
  on_lock-Refuses m h = record {
    at = λ machine w.
        let (fail, held) = h.at machine.lock w.held in
        (
          is_ok-map_err _ (m machine.lock).0 fail,
          record { held = held; logs = w.logs; database = w.database; socket = w.socket },
        );
  }

module _ ⦃uuid : UuidCrate⦄ ⦃url : UrlCrate⦄ ⦃sql : RusqliteCrate⦄ where
  -- While another process holds the single-instance lock, `main` ends with an error, whichever calls
  -- fail: the logs, the database and the socket are as they were, and the other process still holds
  -- the lock.
  pub start-Waits :
      (os : TargetOs) (var_os : String → Option String) (url_opener : UrlOpener Database)
      (uuids : UuidSource Database) (pid : ℕ) (g : SingleInstanceGuard) (machine : Machine)
      → IsHeld g machine.lock
      → (is_ok (start os var_os url_opener uuids pid machine).0 ≡ false)
        × Waits g machine (start os var_os url_opener uuids pid machine).1
  unfolding start
  start-Waits os var_os url_opener uuids pid g machine held =
      whole.at machine (record { held = held; logs = refl; database = refl; socket = refl })
    where
      W : Machine → Type 0
      W = Waits g machine

      whole : Returns W (start os var_os url_opener uuids pid) (Refuses g machine)
      whole =
          Returns-bind W (λ _. W) (Refuses g machine)
            (lift (ok_or (default_data_dir os var_os) no_data_dir)) _ (record { at = λ m w. w })
            (λ _.
              Returns-bind W (λ _. W) (Refuses g machine) (on_lock create_dir_all) _
                (on_lock-Waits g machine create_dir_all (create_dir_all-IsHeld g))
                (λ _.
                  Returns-bind W (Refuses g machine) (Refuses g machine) (on_lock (acquire pid)) _
                    (on_lock-Refuses g machine (acquire pid) (acquire-IsHeld g pid))
                    (λ guard. record { at = λ m r. absurd (ground (arith, r.0)) })
                    (λ e m r. (refl, r.1)))
                (λ e m w. (refl, w)))
            (λ e m w. (refl, w))
