-- ===== src/Storage/Assignments/Rows.antt =====
-- The rows that `save_assignment` writes, and its run when no statement fails.
use keyro_core.Common.{
  ℕ, suc, ◌≤◌, ◌≡◌, refl, true, false, not, Bool, Bool-cases, inl, inr, eq_iff, List, [], ◌∷◌, ◌++◌,
  append_assoc, append-nil, All, All-weaken, All-append, filter, any, arith, ok,
}
use keyro_core.Domain.Ids.{UuidCrate, profile_id_text}
use keyro_core.Domain.Assignments.{Action, Assignment}
use keyro_core.Storage.Database.{AssignmentRow, Database, RusqliteCrate, statement, transaction}
use keyro_core.Storage.Statements.{
  has_id, has_identity, same_key, select_exists, delete_assignment, insert_assignment,
}
use keyro_core.Storage.Columns.{encode_control}
use keyro_core.Storage.Queries.{profile_exists}
use keyro_core.Storage.Repository.{row_of, insert_actions, save_assignment}

-- The database, with no failing statement to come.
abbrev pub calm : Database → Database
calm db = record db { faults = [] }

module _ ⦃uuid : UuidCrate⦄ where
  -- The rows of an assignment from a position on.
  abbrev pub rows_of : Assignment → ℕ → List Action → List AssignmentRow
  rows_of a position [] = []
  rows_of a position (action ∷ actions) =
      row_of a position action ∷ rows_of a (suc position) actions

  -- The rows of the assignment's control.
  abbrev pub belongs : Assignment → AssignmentRow → Bool
  belongs a = has_identity (profile_id_text a.profile_id) (encode_control a.control)

  -- No row takes the assignment's key at the position or after it.
  abbrev IsFree : Assignment → ℕ → AssignmentRow → Type 0
  IsFree a position row =
      (later : ℕ) (action : Action)
      → position ≤ later
      → same_key (row_of a later action) row ≡ false

  IsFree-suc :
      (a : Assignment) (position : ℕ) (row : AssignmentRow)
      → IsFree a position row
      → IsFree a (suc position) row
  IsFree-suc a position row h later action le = h later action (omega arith)

  IsFree-row :
      (a : Assignment) (position : ℕ) (action : Action)
      → IsFree a (suc position) (row_of a position action)
  unfolding insert_assignment row_of
  IsFree-row a position action later action' le = ground arith

  IsFree-other :
      (a : Assignment) (position : ℕ) (row : AssignmentRow)
      → belongs a row ≡ false
      → IsFree a position row
  unfolding insert_assignment row_of
  IsFree-other a position row h later action le =
      ground (arith, eq_iff (profile_id_text a.profile_id) row.profile_id)

  not_taken :
      (a : Assignment) (position : ℕ) (action : Action) (rows : List AssignmentRow)
      → All (IsFree a position) rows
      → any (same_key (row_of a position action)) rows ≡ false
  not_taken a position action [] h = refl
  not_taken a position action (row ∷ rows) h =
      ground (arith, h.0 position action (omega arith), not_taken a position action rows h.1)

  All-IsFree-suc :
      (a : Assignment) (position : ℕ) (rows : List AssignmentRow)
      → All (IsFree a position) rows
      → All (IsFree a (suc position)) rows
  All-IsFree-suc a position rows =
      All-weaken (IsFree a position) (IsFree a (suc position)) rows (IsFree-suc a position)

module _ ⦃uuid : UuidCrate⦄ ⦃sql : RusqliteCrate⦄ where
  insert_one :
      (a : Assignment) (position : ℕ) (action : Action) (db : Database)
      → any (has_id (profile_id_text a.profile_id)) db.profiles ≡ true
      → All (IsFree a position) db.assignments
      → insert_assignment (row_of a position action) (calm db) ≡ (
        ok tt,
        record db { assignments = db.assignments ++ row_of a position action ∷ []; faults = [] },
      )
  unfolding insert_assignment statement row_of profile_id_text
  insert_one a position action db owner free =
      ground (arith, not_taken a position action db.assignments free)

  -- The loop appends one row for each action, in order.
  insert_actions-rows_of :
      (a : Assignment) (position : ℕ) (actions : List Action) (db : Database)
      → any (has_id (profile_id_text a.profile_id)) db.profiles ≡ true
      → All (IsFree a position) db.assignments
      → insert_actions a position actions (calm db) ≡ (
        ok tt,
        record db { assignments = db.assignments ++ rows_of a position actions; faults = [] },
      )
  unfolding insert_actions
  insert_actions-rows_of a position [] db owner free = rw append-nil
  insert_actions-rows_of a position (action ∷ actions) db owner free =
      let db' : Database = record db {
        assignments = db.assignments ++ row_of a position action ∷ [];
      } in
      let free' =
        All-append (IsFree a (suc position)) db.assignments (row_of a position action ∷ [])
          (All-IsFree-suc a position db.assignments free) (IsFree-row a position action, tt) in
      rw (insert_one a position action db owner free)
        (rw (insert_actions-rows_of a (suc position) actions db' owner free', append_assoc) refl)

  -- The assignments after a save.
  abbrev pub saved : Assignment → List AssignmentRow → List AssignmentRow
  saved a rows = filter (λ row. not (belongs a row)) rows ++ rows_of a 0 a.actions

  IsFree-after_delete :
      (a : Assignment) (rows : List AssignmentRow)
      → All (IsFree a 0) (filter (λ row. not (belongs a row)) rows)
  IsFree-after_delete a [] = tt
  IsFree-after_delete a (row ∷ rows) = elim (Bool-cases (belongs a row)) [
    | inl e ↦ rw e (IsFree-after_delete a rows)
    | inr e ↦ rw e (IsFree-other a 0 row e, IsFree-after_delete a rows)
  ]

  -- Without failing statements a save of a known profile succeeds: the rows of its control are
  -- replaced by one row for each action, and every other row stays.
  pub save_assignment-saved :
      (a : Assignment) (db : Database)
      → any (has_id (profile_id_text a.profile_id)) db.profiles ≡ true
      → save_assignment a (calm db)
        ≡ (ok tt, record db { assignments = saved a db.assignments; faults = [] })
  unfolding save_assignment transaction profile_exists select_exists delete_assignment statement
  save_assignment-saved a db owner =
      let db' : Database = record db {
        assignments = filter (λ row. not (belongs a row)) db.assignments;
      } in
      rw owner (
        rw (insert_actions-rows_of a 0 a.actions db' owner (IsFree-after_delete a db.assignments))
          refl)
