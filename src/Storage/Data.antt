-- ===== src/Storage/Data.antt =====
-- The calls of crates/core-storage-sqlite/src/lib.rs that change neither the assignments nor which
-- profiles there are.
use keyro_core.Common.{◌≡◌, ◌∙◌, Bool, String, List, map, any, any-map_same, arith, ok, ◌==◌}
use keyro_core.Domain.Ids.{UuidCrate, ProfileId, profile_id_text}
use keyro_core.Domain.Profiles.{Profile}
use keyro_core.App.Errors.{profile_not_found}
use keyro_core.Storage.Database.{ProfileRow, AssignmentRow, Database, RusqliteCrate}
use keyro_core.Storage.Statements.{
  has_id, set_active, unset_active, set_name, deactivate_all, activate, update_name,
}
use keyro_core.Storage.Repository.{
  rename_profile, store_name, renamed_profile, set_active_body, set_active_profile, require,
}
use keyro_core.Storage.Keeps.{
  Tables, On, Keeps, Keeps-bind, Keeps-lift, Keeps-statement, Keeps-run, Keeps-transaction,
  On-guarded,
}
use keyro_core.Storage.Consistency.Methods.{profile_exists-Keeps, renamed_profile-Keeps}

-- The profiles with their ids, as a test, and the assignments.
abbrev pub IsData : (String → Bool) → List AssignmentRow → Tables
IsData known rows profiles assignments =
    (assignments ≡ rows) × ((id : String) → any (has_id id) profiles ≡ known id)

module _ ⦃uuid : UuidCrate⦄ ⦃sql : RusqliteCrate⦄ (known : String → Bool)
    (rows : List AssignmentRow) where
  map-IsData :
      (f : ProfileRow → ProfileRow) (db : Database)
      → ((row : ProfileRow) → (f row).id ≡ row.id)
      → On (IsData known rows) db
      → IsData known rows (map f db.profiles) db.assignments
  map-IsData f db same (same_rows, ids) =
      (same_rows, λ id. any-map_same (has_id id) f db.profiles (λ row. rw (same row)) ∙ ids id)

  deactivate_all-IsData : Keeps (IsData known rows) deactivate_all
  unfolding deactivate_all
  deactivate_all-IsData =
      Keeps-statement (IsData known rows) _
        (record { at = λ db h. map-IsData unset_active db (λ row. ground arith) h })

  activate-IsData : (id : String) → Keeps (IsData known rows) (activate id)
  unfolding activate
  activate-IsData id = Keeps-statement (IsData known rows) _ (record {
    at = λ db h.
        On-guarded (IsData known rows) _ _ _ db _ h
          (λ _. map-IsData (set_active id) db (λ row. ground arith) h);
  })

  set_active_body-IsData : (id : ProfileId) → Keeps (IsData known rows) (set_active_body id)
  unfolding set_active_body
  set_active_body-IsData id =
      let P = IsData known rows in
      Keeps-bind P _ _ (profile_exists-Keeps P id) λ exists.
        Keeps-bind P _ _ (record { at = λ db h. h })
          λ _. Keeps-bind P _ _ (Keeps-run P _ deactivate_all-IsData) λ updated.
            Keeps-bind P _ _ (record { at = λ db h. h })
              λ _.
                Keeps-bind P _ _ (Keeps-run P _ (activate-IsData _))
                  λ updated. record { at = λ db h. h }

  pub set_active_profile-IsData :
      (id : ProfileId) → Keeps (IsData known rows) (set_active_profile id)
  unfolding set_active_profile
  set_active_profile-IsData id =
      Keeps-transaction (IsData known rows) (set_active_body id)
        (λ db h _ _. (set_active_body-IsData id).at db h)

  update_name-IsData : (name id : String) → Keeps (IsData known rows) (update_name name id)
  unfolding update_name
  update_name-IsData name id =
      Keeps-statement (IsData known rows) _
        (record { at = λ db h. map-IsData (set_name name id) db (λ row. ground arith) h })

  pub store_name-IsData :
      (id : ProfileId) (profile : Profile) → Keeps (IsData known rows) (store_name id profile)
  unfolding store_name
  store_name-IsData id profile =
      let P = IsData known rows in
      Keeps-bind P _ _ (Keeps-run P _ (update_name-IsData profile.name (profile_id_text id)))
        λ updated.
          Keeps-bind P (require (updated == 1) profile_not_found) _ (record { at = λ db h. h })
            (λ _. Keeps-lift P (ok profile))

  pub rename_profile-IsData :
      (id : ProfileId) (name : String) → Keeps (IsData known rows) (rename_profile id name)
  unfolding rename_profile
  rename_profile-IsData id name =
      Keeps-bind (IsData known rows) (renamed_profile id name) (store_name id)
        (renamed_profile-Keeps (IsData known rows) id name) (store_name-IsData id)
