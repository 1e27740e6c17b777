-- ===== src/Storage/Listing.antt =====
-- Reading the profiles back: `list_profiles` of crates/core-storage-sqlite/src/lib.rs, and
-- `CoreService::active_profile` of crates/core-app/src/lib.rs over it.
use keyro_core.Common.{
  ◌≡◌, refl, ◌∙◌, String, Bool, List, [], ◌∷◌, All, count, find, some, ok, arith, try_map,
  find_of_count,
}
use keyro_core.Common.Ordered.{sort_by, count-sort_by, All-sort_by}
use keyro_core.Domain.Ids.{UuidCrate, UuidLaws, profile_id_text}
use keyro_core.Domain.Urls.{UrlCrate}
use keyro_core.Domain.Profiles.{Profile, active, ensure_exactly_one_active}
use keyro_core.App.Ports.{EventSink, UrlOpener, UuidSource}
use keyro_core.App.Service.{CoreService, active_profile}
use keyro_core.Storage.Database.{Database, ProfileRow, RusqliteCrate, statement}
use keyro_core.Storage.Statements.{row_active, profile_order, select_profiles}
use keyro_core.Storage.Rows.{profile_of_row}
use keyro_core.Storage.Queries.{list_profiles}
use keyro_core.Storage.Repository.{sqlite_repository}
use keyro_core.Storage.Keeps.{On}
use keyro_core.Storage.Consistency.{IsReadable, IsConsistent}
use keyro_core.Storage.Assignments.Rows.{calm}

count_pair :
    {A B : Type 0} (p : A → Bool) (q : B → Bool) (x : A) (y : B) (xs : List A) (ys : List B)
    → p x ≡ q y
    → count p xs ≡ count q ys
    → count p (x ∷ xs) ≡ count q (y ∷ ys)
count_pair p q x y xs ys h hs = ground (arith, h, hs)

module _ ⦃uuid : UuidCrate⦄ where
  -- What a test answers of the columns that a profile is read from, and of those of a row.
  abbrev pub profile_columns : (String → String → Bool → Bool) → Profile → Bool
  profile_columns test profile = test (profile_id_text profile.id) profile.name profile.is_active

  abbrev pub row_columns : (String → String → Bool → Bool) → ProfileRow → Bool
  row_columns test row = test row.id row.name (row_active row)

  -- Readable rows are read, each with its columns, and as many profiles are active as rows.
  read_profiles :
      UuidLaws uuid
      → (rows : List ProfileRow) → All IsReadable rows
      → (profiles : List Profile) × (try_map profile_of_row rows ≡ ok profiles)
        × (count active profiles ≡ count row_active rows)
        × ((test : String → String → Bool → Bool)
            → count (profile_columns test) profiles ≡ count (row_columns test) rows)
  unfolding profile_of_row profile_id_text
  read_profiles laws [] h = ([], refl, refl, (λ test. refl))
  read_profiles laws (row ∷ rows) ((u, e), h) =
      let (profiles, read, same, rest) = read_profiles laws rows h in
      let profile : Profile = record { id = u; name = row.name; is_active = row_active row } in
      (
        profile ∷ profiles,
        rw (e, laws.parse-to_string u, read) refl,
        ground (arith, same),
        λ test.
            count_pair (profile_columns test) (row_columns test) profile row profiles rows
              (rw e refl) (rest test),
      )

module _ ⦃uuid : UuidCrate⦄ ⦃url : UrlCrate⦄ ⦃sql : RusqliteCrate⦄ where
  -- The service over the repository, whatever its other ports.
  unfoldable pub service_over :
      UrlOpener Database → EventSink Database → UuidSource Database → CoreService Database
  service_over url_opener event_sink uuids = record {
    repository = sqlite_repository;
    url_opener = url_opener;
    event_sink = event_sink;
    uuids = uuids;
  }

  -- On consistent tables with no failing statement, when UUIDs parse back, the profiles are read, for
  -- any test as many of their identifiers, names and marks pass it as columns of the rows do; the service's check
  -- of the active profile passes, and its active profile is the one active profile of the list; the
  -- tables stay as they are.
  pub active_profile-list_profiles :
      (url_opener : UrlOpener Database) (event_sink : EventSink Database)
      (uuids : UuidSource Database)
      → UuidLaws uuid
      → (db : Database) (test : String → String → Bool → Bool) → On IsConsistent db
      → (profiles : List Profile) × (profile : Profile) × (list_profiles (calm db)
          ≡ (ok profiles, calm db))
        × (count (profile_columns test) profiles ≡ count (row_columns test) db.profiles)
        × (count active profiles ≡ 1)
        × (find active profiles ≡ some profile)
        × (active_profile (service_over url_opener event_sink uuids) (calm db)
            ≡ (ok profile, calm db))
  unfolding list_profiles select_profiles active_profile service_over sqlite_repository
      ensure_exactly_one_active statement
  active_profile-list_profiles url_opener event_sink uuids laws db test h =
      let rows = sort_by profile_order db.profiles in
      let (profiles, read, same, rest) =
        read_profiles laws rows
          (All-sort_by profile_order IsReadable db.profiles h.keyed.readable) in
      let one = same ∙ count-sort_by profile_order row_active db.profiles ∙ h.one_active in
      let (profile, found) = find_of_count active profiles one in
      (
        profiles,
        profile,
        ground (arith, read),
        rest test ∙ count-sort_by profile_order (row_columns test) db.profiles,
        one,
        found,
        ground (arith, read, one, found),
      )
