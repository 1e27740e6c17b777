-- ===== src/Storage/Consistency/Writes.antt =====
-- Each writing statement of crates/core-storage-sqlite/src/lib.rs keeps the keys of the tables.
use keyro_core.Common.{
  pos, ◌≡◌, refl, false, String, eq_iff, List, [], ◌∷◌, ◌++◌, map, All-append, All-filter, All-map,
  All-weaken, any, arith, count-append, count-map_same, any-map_same, any_of_count, any-append,
}
use keyro_core.Domain.Ids.{UuidCrate, Uuid}
use keyro_core.Storage.Database.{ProfileRow, AssignmentRow, ControlColumns}
use keyro_core.Storage.Statements.{
  row_active, has_id, insert_profile, set_name, update_name, delete_assignment, insert_assignment,
}
use keyro_core.Storage.Keeps.{Keeps, Keeps-statement, On-guarded}
use keyro_core.Storage.Consistency.{IsReadable, IsOwned, IsKeyed, IsConsistent}

module _ ⦃uuid : UuidCrate⦄ where
  -- A change of the rows that keeps every id keeps the keys.
  pub map-IsKeyed :
      (f : ProfileRow → ProfileRow) (profiles : List ProfileRow) (assignments : List AssignmentRow)
      → ((row : ProfileRow) → (f row).id ≡ row.id)
      → IsKeyed profiles assignments
      → IsKeyed (map f profiles) assignments
  map-IsKeyed f profiles assignments same keys = record {
    unique_ids = λ id.
        rw (count-map_same (has_id id) f profiles (λ row. rw (same row))) (keys.unique_ids id);
    readable = All-map IsReadable f profiles (λ row (u, e). (u, rw (same row) e)) keys.readable;
    owned =
        All-weaken (IsOwned profiles) (IsOwned (map f profiles)) assignments
          (λ row h. rw (any-map_same (has_id row.profile_id) f profiles (λ r. rw (same r))) h)
          keys.owned;
  }

  pub append-IsKeyed :
      (row : ProfileRow) (u : Uuid) (profiles : List ProfileRow) (assignments : List AssignmentRow)
      → row.id ≡ uuid.to_string u
      → any (has_id row.id) profiles ≡ false
      → IsKeyed profiles assignments
      → IsKeyed (profiles ++ row ∷ []) assignments
  append-IsKeyed row u profiles assignments e new keys = record {
    unique_ids = λ id. rw (count-append (has_id id) profiles (row ∷ [])) (
        ground
          (arith, keys.unique_ids id, any_of_count (has_id row.id) profiles new, eq_iff row.id id));
    readable = All-append IsReadable profiles (row ∷ []) keys.readable ((u, e), tt);
    owned =
        All-weaken (IsOwned profiles) (IsOwned (profiles ++ row ∷ [])) assignments
          (λ a h. any-append (has_id a.profile_id) profiles (row ∷ []) h) keys.owned;
  }

  pub update_name-Keeps : (name id : String) → Keeps IsConsistent (update_name name id)
  unfolding update_name
  update_name-Keeps name id = Keeps-statement IsConsistent _ (record {
    at = λ db h. record {
      one_active =
          rw (count-map_same row_active (set_name name id) db.profiles (λ row. ground arith))
            h.one_active;
      keyed =
          map-IsKeyed (set_name name id) db.profiles db.assignments (λ row. ground arith) h.keyed;
    };
  })

  pub delete_assignment-Keeps :
      (id : String) (control : ControlColumns) → Keeps IsConsistent (delete_assignment id control)
  unfolding delete_assignment
  delete_assignment-Keeps id control = Keeps-statement IsConsistent _ (record {
    at = λ db h. record {
      one_active = h.one_active;
      keyed = record {
        unique_ids = h.keyed.unique_ids;
        readable = h.keyed.readable;
        owned = All-filter (IsOwned db.profiles) _ db.assignments h.keyed.owned;
      };
    };
  })

  pub insert_assignment-Keeps : (row : AssignmentRow) → Keeps IsConsistent (insert_assignment row)
  unfolding insert_assignment
  insert_assignment-Keeps row = Keeps-statement IsConsistent _ (record {
    at = λ db h. On-guarded IsConsistent _ _ _ db _ h λ allowed. record {
      one_active = h.one_active;
      keyed = record {
        unique_ids = h.keyed.unique_ids;
        readable = h.keyed.readable;
        owned =
            All-append (IsOwned db.profiles) db.assignments (row ∷ []) h.keyed.owned
              (ground arith, tt);
      };
    };
  })

  -- An inactive profile may come at any time.
  pub insert_inactive-Keeps :
      (u : Uuid) (name : String)
      → Keeps IsConsistent (insert_profile (uuid.to_string u) name (pos 0))
  unfolding insert_profile
  insert_inactive-Keeps u name = Keeps-statement IsConsistent _ (record {
    at = λ db h. On-guarded IsConsistent _ _ _ db _ h λ allowed. record {
      one_active = rw (count-append row_active db.profiles) (ground (arith, h.one_active));
      keyed = append-IsKeyed _ u db.profiles db.assignments refl (ground arith) h.keyed;
    };
  })
