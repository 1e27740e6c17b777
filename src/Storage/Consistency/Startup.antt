-- ===== src/Storage/Consistency/Startup.antt =====
-- `ensure_default_profile` of crates/core-storage-sqlite/src/lib.rs: from tables that no profile of
-- which is active, or one, to tables with exactly one active profile.
use keyro_core.Common.{
  Bool, ◌≢◌, pos, ◌≤◌, ◌≡◌, refl, false, inl, inr, List, [], ◌∷◌, ◌++◌, arith, count, filter, first,
  any, none, some, ◌⊎◌, Option-cases, ok, count-append,
}
use keyro_core.Domain.Ids.{UuidCrate, profile_id_text}
use keyro_core.Domain.Profiles.{Profile, new_profile}
use keyro_core.Storage.Database.{ProfileRow, Database, RusqliteCrate, statement}
use keyro_core.Storage.Statements.{row_active, has_id, select_active, insert_profile}
use keyro_core.Storage.Rows.{optional_profile}
use keyro_core.Storage.Queries.{load_active_profile}
use keyro_core.Storage.Repository.{ensure_default_profile}
use keyro_core.Storage.Keeps.{On}
use keyro_core.Storage.Consistency.{IsKeyed, IsConsistent}
use keyro_core.Storage.Consistency.Writes.{append-IsKeyed}

-- The active rows are empty exactly when none is counted.
first-filter-none :
    (p : ProfileRow → Bool) (rows : List ProfileRow)
    → first (filter p rows) ≡ none
    → count p rows ≡ 0
first-filter-none p [] h = refl
first-filter-none p (row ∷ rows) h = ground (arith, first-filter-none p rows)

first-filter-some :
    (p : ProfileRow → Bool) (rows : List ProfileRow) (row : ProfileRow)
    → first (filter p rows) ≡ some row
    → count p rows ≢ 0
first-filter-some p [] row h = ground arith
first-filter-some p (r ∷ rows) row h = ground (arith, first-filter-some p rows row)

module _ ⦃uuid : UuidCrate⦄ ⦃sql : RusqliteCrate⦄ where
  -- What a successful call does: nothing, if a profile is active, and else it adds the row.
  default_row : Database → ProfileRow
  default_row db = record {
    id = uuid.to_string (db.entropy db.drawn);
    name = "Default";
    is_active = pos 1;
    created_at = db.now;
  }

  abbrev Unchanged : Database → Database → Type 0
  Unchanged db db' =
      (db'.profiles ≡ db.profiles)
      × (db'.assignments ≡ db.assignments)
      × (count row_active db.profiles ≢ 0)

  abbrev Added : Database → Database → Type 0
  Added db db' =
      (db'.profiles ≡ db.profiles ++ default_row db ∷ [])
      × (db'.assignments ≡ db.assignments)
      × (any (has_id (default_row db).id) db.profiles ≡ false)
      × (count row_active db.profiles ≡ 0)

  ensure_default_profile-cases :
      (db : Database) (profile : Profile)
      → (ensure_default_profile db).0 ≡ ok profile
      → Unchanged db (ensure_default_profile db).1 ⊎ Added db (ensure_default_profile db).1
  unfolding ensure_default_profile load_active_profile select_active insert_profile optional_profile
      statement new_profile default_row profile_id_text
  ensure_default_profile-cases db profile h =
      elim (Option-cases (first (filter row_active db.profiles))) [
        | inl e ↦
            inr
              (ground arith, ground arith, ground arith, first-filter-none row_active db.profiles e)
        | inr (row, e) ↦
            inl (ground arith, ground arith, first-filter-some row_active db.profiles row e)
      ]

  -- When it succeeds on keyed tables with at most one active profile, exactly one is active and the
  -- tables are consistent.
  pub ensure_default_profile-IsConsistent :
      (db : Database) (profile : Profile)
      → On IsKeyed db
      → count row_active db.profiles ≤ 1
      → (ensure_default_profile db).0 ≡ ok profile
      → On IsConsistent (ensure_default_profile db).1
  unfolding default_row
  ensure_default_profile-IsConsistent db profile keys one h =
      elim (ensure_default_profile-cases db profile h) [
        | inl (same, same', some_active) ↦
            rw (same, same') (record { one_active = omega arith; keyed = keys })
        | inr (added, same, new, none_active) ↦
            rw (added, same)
              (record {
                one_active = rw (count-append row_active db.profiles) (ground arith);
                keyed =
                    append-IsKeyed (default_row db) (db.entropy db.drawn) db.profiles db.assignments
                      refl new keys;
              })
      ]
