-- ===== src/Host/Startup/Tables.antt =====
-- The tables at the start of the process: opened, and with a default profile
-- (crates/keyro-core/src/main.rs).
use keyro_core.Common.{◌≤◌, count}
use keyro_core.Common.Exec.{lift}
use keyro_core.Common.Ensures.{Ensures, Ensures-bind, Ensures-pure, Ensures-keep}
use keyro_core.Domain.Ids.{UuidCrate}
use keyro_core.Domain.Urls.{UrlCrate}
use keyro_core.App.Ports.{UrlOpener, UuidSource}
use keyro_core.App.Service.{initialize, ensure_active}
use keyro_core.Storage.Database.{Database, RusqliteCrate, idle}
use keyro_core.Storage.Statements.{row_active}
use keyro_core.Storage.Queries.{list_profiles}
use keyro_core.Storage.Repository.{ensure_default_profile, sqlite_repository}
use keyro_core.Storage.Keeps.{Tables, On, Keeps, Keeps-bind, Keeps-statement}
use keyro_core.Storage.Consistency.{IsKeyed, IsConsistent}
use keyro_core.Storage.Consistency.Methods.{list_profiles-Keeps}
use keyro_core.Storage.Consistency.Startup.{ensure_default_profile-IsConsistent}
use keyro_core.Storage.Listing.{service_over}
use keyro_core.Host.Startup.{logging_event_sink, open_repository}

module _ ⦃uuid : UuidCrate⦄ where
  -- The tables as an earlier run may have left them, or empty.
  pub record IsStored (db : Database) : Type 0 where
    pub keyed : On IsKeyed db
    pub one : count row_active db.profiles ≤ 1

module _ ⦃uuid : UuidCrate⦄ ⦃url : UrlCrate⦄ ⦃sql : RusqliteCrate⦄ where
  open_repository-Keeps : (P : Tables) → Keeps P open_repository
  unfolding open_repository
  open_repository-Keeps P =
      let once = Keeps-statement P idle (record { at = λ db h. h }) in
      Keeps-bind P _ _ once (λ _. Keeps-bind P _ _ once (λ _. once))

  pub open_repository-Ensures : Ensures IsStored open_repository (λ _. IsStored)
  open_repository-Ensures = record {
    at = λ db h _ _.
        let (keyed, one) = (open_repository-Keeps Stored).at db (h.keyed, h.one) in
        record { keyed = keyed; one = one };
  }
    where
      Stored : Tables
      Stored profiles assignments = IsKeyed profiles assignments × (count row_active profiles ≤ 1)

  pub initialize-Ensures :
      (url_opener : UrlOpener Database) (uuids : UuidSource Database)
      → Ensures IsStored
          (initialize (service_over url_opener logging_event_sink uuids))
          (λ _. On IsConsistent)
  unfolding initialize service_over sqlite_repository ensure_active
  initialize-Ensures url_opener uuids =
      Ensures-bind IsStored (λ _. On IsConsistent) (λ _. On IsConsistent) ensure_default_profile _
        (record {
          at = λ db h profile r. ensure_default_profile-IsConsistent db profile h.keyed h.one r;
        })
        λ profile.
          Ensures-bind (On IsConsistent) (λ _. On IsConsistent) (λ _. On IsConsistent) list_profiles
            _ (Ensures-keep (On IsConsistent) list_profiles (list_profiles-Keeps IsConsistent).at)
            λ profiles.
              Ensures-bind (On IsConsistent) (λ _. On IsConsistent) (λ _. On IsConsistent) (lift _)
                _ (record { at = λ db h _ _. h })
                λ _. Ensures-pure (On IsConsistent) _ profile (λ db h. h)
