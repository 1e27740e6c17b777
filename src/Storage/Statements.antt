-- ===== src/Storage/Statements.antt =====
-- The SQL statements of crates/core-storage-sqlite/src/lib.rs on the tables, with the constraints
-- of its schema: the primary keys, the CHECK, the foreign key and the index
-- `only_one_active_profile`.
use Prim.Native.Nat.{Ordering, compare}
use Prim.Native.String.{compare as compare_text, then as and_then}
use text.Mathlib.Text.{is_le}
use keyro_core.Common.{
  ℕ, ℤ, pos, negsuc, int_eq, String, str_eq, Bool, not, ◌&&◌, ◌||◌, List, [], ◌∷◌, ◌++◌, map, ok,
  err, ltb, filter, count, any, if◌then◌else◌,
}
use keyro_core.Common.Ordered.{sort_by}
use keyro_core.Storage.Database.{
  ProfileRow, ControlColumns, AssignmentRow, Sql, constraint_violation, statement,
}

-- `is_active = 1`
abbrev pub row_active : ProfileRow → Bool
row_active row = int_eq row.is_active (pos 1)

abbrev pub has_id : String → ProfileRow → Bool
has_id id row = str_eq row.id id

-- INSERT INTO profiles(id, name, is_active) VALUES (?1, ?2, ..)
unfoldable pub profile_conflict : ProfileRow → List ProfileRow → Bool
profile_conflict row rows =
    any (has_id row.id) rows
    || (row_active row && any row_active rows)
    || not (int_eq row.is_active (pos 0) || int_eq row.is_active (pos 1))

unfoldable pub insert_profile : String → String → ℤ → Sql (Unit {0})
unfolding profile_conflict
insert_profile id name is_active = statement λ db.
    let row : ProfileRow = record {
      id = id;
      name = name;
      is_active = is_active;
      created_at = db.now;
    } in
    if profile_conflict row db.profiles
    then (err constraint_violation, db)
    else (ok tt, record db { profiles = db.profiles ++ row ∷ [] })

-- ORDER BY created_at, name
abbrev pub profile_order : ProfileRow → ProfileRow → Bool
profile_order a b =
    is_le (and_then (compare_text a.created_at b.created_at) (compare_text a.name b.name))

-- SELECT id, name, is_active FROM profiles ORDER BY created_at, name
unfoldable pub select_profiles : Sql (List ProfileRow)
select_profiles = statement λ db. (ok (sort_by profile_order db.profiles), db)

-- SELECT id, name, is_active FROM profiles WHERE is_active = 1
unfoldable pub select_active : Sql (List ProfileRow)
select_active = statement λ db. (ok (filter row_active db.profiles), db)

-- SELECT 1 FROM profiles WHERE id = ?1, as whether a row came back.
unfoldable pub select_exists : String → Sql Bool
select_exists id = statement λ db. (ok (any (has_id id) db.profiles), db)

-- UPDATE profiles SET name = ?1 WHERE id = ?2, with the number of rows.
unfoldable pub set_name : String → String → ProfileRow → ProfileRow
set_name name id row = if has_id id row then record row { name = name } else row

unfoldable pub update_name : String → String → Sql ℕ
unfolding set_name
update_name name id = statement λ db. (
  ok (count (has_id id) db.profiles),
  record db { profiles = map (set_name name id) db.profiles },
)

-- UPDATE profiles SET is_active = 0 WHERE is_active = 1
unfoldable pub unset_active : ProfileRow → ProfileRow
unset_active row = if row_active row then record row { is_active = pos 0 } else row

unfoldable pub deactivate_all : Sql ℕ
unfolding unset_active
deactivate_all =
    statement λ db.
      (ok (count row_active db.profiles), record db { profiles = map unset_active db.profiles })

-- UPDATE profiles SET is_active = 1 WHERE id = ?1, under the unique index.
unfoldable pub set_active : String → ProfileRow → ProfileRow
set_active id row = if has_id id row then record row { is_active = pos 1 } else row

unfoldable pub activate : String → Sql ℕ
unfolding set_active
activate id = statement λ db.
    let updated = map (set_active id) db.profiles in
    if ltb 1 (count row_active updated)
    then (err constraint_violation, db)
    else (ok (count (has_id id) db.profiles), record db { profiles = updated })

-- WHERE profile_id = ?1 AND page_index = ?2 AND control_kind = ?3 AND control_index = ?4 AND
-- control_operation = ?5
abbrev pub columns_eq : ControlColumns → ControlColumns → Bool
columns_eq a b =
    int_eq a.page_index b.page_index
    && str_eq a.control_kind b.control_kind
    && int_eq a.control_index b.control_index
    && str_eq a.control_operation b.control_operation

abbrev pub has_identity : String → ControlColumns → AssignmentRow → Bool
has_identity profile_id control row =
    str_eq row.profile_id profile_id && columns_eq row.control control

-- DELETE FROM assignments WHERE ..
unfoldable pub delete_assignment : String → ControlColumns → Sql (Unit {0})
delete_assignment profile_id control = statement λ db. (
  ok tt,
  record db {
    assignments = filter (λ row. not (has_identity profile_id control row)) db.assignments;
  },
)

-- INSERT INTO assignments(..) VALUES (..)
unfoldable pub same_key : AssignmentRow → AssignmentRow → Bool
same_key a b = has_identity a.profile_id a.control b && int_eq a.action_position b.action_position

unfoldable pub insert_assignment : AssignmentRow → Sql (Unit {0})
unfolding same_key
insert_assignment row = statement λ db.
    if any (same_key row) db.assignments || not (any (has_id row.profile_id) db.profiles)
    then (err constraint_violation, db)
    else (ok tt, record db { assignments = db.assignments ++ row ∷ [] })

abbrev compare_int : ℤ → ℤ → Ordering
compare_int (pos a) (pos b) = compare a b
compare_int (pos a) (negsuc b) = Ordering.gt
compare_int (negsuc a) (pos b) = Ordering.lt
compare_int (negsuc a) (negsuc b) = compare b a

-- ORDER BY action_position
abbrev pub position_order : AssignmentRow → AssignmentRow → Bool
position_order a b = is_le (compare_int a.action_position b.action_position)

-- SELECT .. FROM assignments WHERE .. ORDER BY action_position
unfoldable pub select_assignment : String → ControlColumns → Sql (List AssignmentRow)
select_assignment profile_id control = statement λ db.
    (ok (sort_by position_order (filter (has_identity profile_id control) db.assignments)), db)

-- ORDER BY profile_id, page_index, control_kind, control_index, control_operation, action_position
abbrev pub assignment_order : AssignmentRow → AssignmentRow → Bool
assignment_order a b = is_le (
    and_then (compare_text a.profile_id b.profile_id) (
      and_then (compare_int a.page_index b.page_index) (
        and_then (compare_text a.control_kind b.control_kind) (
          and_then (compare_int a.control_index b.control_index) (
            and_then (compare_text a.control_operation b.control_operation)
              (compare_int a.action_position b.action_position))))))

-- SELECT .. FROM assignments ORDER BY ..
unfoldable pub select_assignments : Sql (List AssignmentRow)
select_assignments = statement λ db. (ok (sort_by assignment_order db.assignments), db)
