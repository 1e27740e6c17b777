-- ===== src/Storage/Consistency/Methods.antt =====
-- Every method of the repository of crates/core-storage-sqlite/src/lib.rs keeps the tables
-- consistent, whatever statements fail; `ensure_default_profile` makes them so.
use keyro_core.Common.{
  ℕ, ◌≡◌, refl, false, String, List, [], ◌∷◌, map, count, arith, ok, map_err, ok_or, count-map_none,
  suc, find, ◌==◌,
}
use keyro_core.Domain.Ids.{UuidCrate, ProfileId, profile_id_text}
use keyro_core.Domain.Layout.{ControlId}
use keyro_core.Domain.Profiles.{Profile, new_profile, rename}
use keyro_core.Domain.Assignments.{Action, Assignment}
use keyro_core.App.Errors.{domain, profile_not_found}
use keyro_core.Storage.Database.{ProfileRow, Database, RusqliteCrate, statement}
use keyro_core.Storage.Statements.{
  row_active, has_id, set_active, unset_active, select_profiles, select_exists, deactivate_all,
  activate,
}
use keyro_core.Storage.Queries.{list_profiles, profile_exists}
use keyro_core.Storage.Repository.{
  create_profile, rename_profile, renamed_profile, store_name, set_active_body, set_active_profile,
  insert_actions, save_body, save_assignment, clear_assignment, require, has_profile_id,
}
use keyro_core.Storage.Keeps.{
  Tables, On, Keeps, Keeps-bind, Keeps-lift, Keeps-statement, Keeps-new_v4, Keeps-run,
  Keeps-transaction, On-guarded,
}
use keyro_core.Storage.Consistency.{IsKeyed, IsConsistent}
use keyro_core.Storage.Consistency.Writes.{
  map-IsKeyed, update_name-Keeps, delete_assignment-Keeps, insert_assignment-Keeps,
  insert_inactive-Keeps,
}

-- Among inactive rows, those that UPDATE .. WHERE id = ?1 activates are those with the id.
count-set_active :
    (id : String) (rows : List ProfileRow)
    → count row_active rows ≡ 0
    → count row_active (map (set_active id) rows) ≡ count (has_id id) rows
unfolding set_active
count-set_active id [] h = refl
count-set_active id (row ∷ rows) h = ground (arith, count-set_active id rows)

count-unset_active : (rows : List ProfileRow) → count row_active (map unset_active rows) ≡ 0
unfolding unset_active
count-unset_active rows = count-map_none row_active unset_active rows (λ row. ground arith)

module _ ⦃uuid : UuidCrate⦄ ⦃sql : RusqliteCrate⦄ where
  deactivate_all-IsKeyed : Keeps IsKeyed deactivate_all
  unfolding deactivate_all
  deactivate_all-IsKeyed = Keeps-statement IsKeyed _ (record {
    at = λ db h. map-IsKeyed unset_active db.profiles db.assignments (λ row. ground arith) h;
  })

  activate-IsKeyed : (id : String) → Keeps IsKeyed (activate id)
  unfolding activate
  activate-IsKeyed id = Keeps-statement IsKeyed _ (record {
    at = λ db h.
        On-guarded IsKeyed _ _ _ db _ h
          (λ _. map-IsKeyed (set_active id) db.profiles db.assignments (λ row. ground arith) h);
  })

  pub profile_exists-Keeps : (P : Tables) (id : ProfileId) → Keeps P (profile_exists id)
  unfolding profile_exists select_exists
  profile_exists-Keeps P id = Keeps-run P _ (Keeps-statement P _ (record { at = λ db h. h }))

  set_active_body-IsKeyed : (id : ProfileId) → Keeps IsKeyed (set_active_body id)
  unfolding set_active_body
  set_active_body-IsKeyed id = Keeps-bind IsKeyed _ _ (profile_exists-Keeps IsKeyed id) λ exists.
      Keeps-bind IsKeyed _ _ (record { at = λ db h. h })
        λ _. Keeps-bind IsKeyed _ _ (Keeps-run IsKeyed _ deactivate_all-IsKeyed) λ updated.
          Keeps-bind IsKeyed _ _ (record { at = λ db h. h })
            λ _.
              Keeps-bind IsKeyed _ _ (Keeps-run IsKeyed _ (activate-IsKeyed _))
                λ updated. record { at = λ db h. h }

  -- A switch that succeeds leaves exactly one profile active.
  set_active_body-one_active :
      (id : ProfileId) (db : Database)
      → (set_active_body id db).0 ≡ ok tt
      → count row_active (set_active_body id db).1.profiles ≡ 1
  unfolding set_active_body profile_exists select_exists deactivate_all activate statement
  set_active_body-one_active id db h = ground (
    arith,
    count-unset_active db.profiles,
    count-set_active (profile_id_text id) (map unset_active db.profiles),
  )

  set_active_profile-Keeps : (id : ProfileId) → Keeps IsConsistent (set_active_profile id)
  unfolding set_active_profile
  set_active_profile-Keeps id = Keeps-transaction IsConsistent (set_active_body id) λ db h _ e.
      record {
        one_active = set_active_body-one_active id db e;
        keyed = (set_active_body-IsKeyed id).at db h.keyed;
      }

  pub list_profiles-Keeps : (P : Tables) → Keeps P list_profiles
  unfolding list_profiles select_profiles
  list_profiles-Keeps P =
      Keeps-bind P _ _ (Keeps-run P _ (Keeps-statement P _ (record { at = λ db h. h })))
        (λ rows. Keeps-lift P _)

  create_profile-Keeps : (name : String) → Keeps IsConsistent (create_profile name)
  unfolding create_profile profile_id_text
  create_profile-Keeps name = Keeps-bind IsConsistent _ _ (Keeps-new_v4 IsConsistent) λ fresh.
      Keeps-bind IsConsistent _ _
        (Keeps-lift IsConsistent (map_err domain (new_profile fresh name false)))
        λ profile.
          Keeps-bind IsConsistent _ _
            (Keeps-run IsConsistent _ (insert_inactive-Keeps profile.id profile.name))
            (λ _. Keeps-lift IsConsistent (ok profile))

  pub renamed_profile-Keeps :
      (P : Tables) (id : ProfileId) (name : String) → Keeps P (renamed_profile id name)
  unfolding renamed_profile
  renamed_profile-Keeps P id name = Keeps-bind P _ _ (list_profiles-Keeps P) λ profiles.
      Keeps-bind P _ _ (Keeps-lift P (ok_or (find (has_profile_id id) profiles) profile_not_found))
        λ profile. Keeps-lift P (map_err domain (rename profile name))

  pub store_name-Keeps :
      (id : ProfileId) (profile : Profile) → Keeps IsConsistent (store_name id profile)
  unfolding store_name
  store_name-Keeps id profile =
      Keeps-bind IsConsistent _ _
        (Keeps-run IsConsistent _ (update_name-Keeps profile.name (profile_id_text id)))
        λ updated.
          Keeps-bind IsConsistent (require (updated == 1) profile_not_found) _
            (record { at = λ db h. h }) (λ _. Keeps-lift IsConsistent (ok profile))

  rename_profile-Keeps :
      (id : ProfileId) (name : String) → Keeps IsConsistent (rename_profile id name)
  unfolding rename_profile
  rename_profile-Keeps id name =
      Keeps-bind IsConsistent (renamed_profile id name) (store_name id)
        (renamed_profile-Keeps IsConsistent id name) (store_name-Keeps id)

  insert_actions-Keeps :
      (assignment : Assignment) (position : ℕ) (actions : List Action)
      → Keeps IsConsistent (insert_actions assignment position actions)
  unfolding insert_actions
  insert_actions-Keeps assignment position [] = Keeps-lift IsConsistent (ok tt)
  insert_actions-Keeps assignment position (action ∷ actions) =
      Keeps-bind IsConsistent _ _ (Keeps-run IsConsistent _ (insert_assignment-Keeps _))
        (λ _. insert_actions-Keeps assignment (suc position) actions)

  save_body-Keeps : (assignment : Assignment) → Keeps IsConsistent (save_body assignment)
  unfolding save_body
  save_body-Keeps assignment =
      Keeps-bind IsConsistent _ _ (profile_exists-Keeps IsConsistent _) λ exists.
        Keeps-bind IsConsistent _ _ (record { at = λ db h. h })
          λ _.
            Keeps-bind IsConsistent _ _ (Keeps-run IsConsistent _ (delete_assignment-Keeps _ _))
              λ _. insert_actions-Keeps assignment 0 assignment.actions

  clear_assignment-Keeps :
      (id : ProfileId) (control : ControlId) → Keeps IsConsistent (clear_assignment id control)
  unfolding clear_assignment
  clear_assignment-Keeps id control =
      Keeps-bind IsConsistent _ _ (profile_exists-Keeps IsConsistent _) λ exists.
        Keeps-bind IsConsistent _ _ (record { at = λ db h. h })
          λ _. Keeps-run IsConsistent _ (delete_assignment-Keeps _ _)

-- The calls that change the tables, apart from the initialization.
pub data Call : Type 0 where
  create : String → Call
  rename_to : ProfileId → String → Call
  switch : ProfileId → Call
  save : Assignment → Call
  clear : ProfileId → ControlId → Call

module _ ⦃uuid : UuidCrate⦄ ⦃sql : RusqliteCrate⦄ where
  -- The database after a call, successful or not.
  unfoldable pub after : Database → Call → Database
  after db (Call.create name) = (create_profile name db).1
  after db (Call.rename_to id name) = (rename_profile id name db).1
  after db (Call.switch id) = (set_active_profile id db).1
  after db (Call.save assignment) = (save_assignment assignment db).1
  after db (Call.clear id control) = (clear_assignment id control db).1

  -- Every call of the repository that changes the tables keeps them consistent, if they are before:
  -- one active profile, distinct readable ids, no orphaned assignment, whatever the call answers
  -- and whatever statements fail.
  pub after-IsConsistent :
      (db : Database) (call : Call) → On IsConsistent db → On IsConsistent (after db call)
  unfolding after save_assignment
  after-IsConsistent db (Call.create name) h = (create_profile-Keeps name).at db h
  after-IsConsistent db (Call.rename_to id name) h = (rename_profile-Keeps id name).at db h
  after-IsConsistent db (Call.switch id) h = (set_active_profile-Keeps id).at db h
  after-IsConsistent db (Call.save assignment) h =
      (Keeps-transaction IsConsistent (save_body assignment)
          (λ db h _ _. (save_body-Keeps assignment).at db h)).at
        db h
  after-IsConsistent db (Call.clear id control) h = (clear_assignment-Keeps id control).at db h
