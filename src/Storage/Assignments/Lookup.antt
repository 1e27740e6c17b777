-- ===== src/Storage/Assignments/Lookup.antt =====
-- Lookups after writes: `find_assignment`, `save_assignment` and `clear_assignment` of
-- crates/core-storage-sqlite/src/lib.rs.
use keyro_core.Common.{
  ℕ, suc, ◌≡◌, refl, ◌∙◌, sym, true, false, Bool, Bool-cases, inl, inr, eq_refl, List, [], ◌∷◌,
  append-nil, All, filter, filter-append, filter-filter-not, filter-All, filter-filter_disjoint,
  filter_none, any, arith, Option, some, none, Result, ok, err, All-weaken, false≢true, ◌↔◌, ◌&&◌,
  is_empty, if◌then◌else◌, try_map, map_err, ◌==◌,
}
use keyro_core.Common.Ordered.{sort_by, sort_by_sorted, IsSorted}
use keyro_core.Domain.Ids.{UuidCrate, UuidLaws, ProfileId, profile_id_text}
use keyro_core.Domain.Layout.{ControlId, control_eq}
use keyro_core.Domain.Layout.Ranges.{control_eq_iff}
use keyro_core.Domain.Urls.{UrlCrate}
use keyro_core.Domain.Assignments.{Action, Assignment}
use keyro_core.Storage.Database.{
  AssignmentRow, Database, RusqliteCrate, statement, to_app_error, SqlError,
}
use keyro_core.Storage.Statements.{
  has_id, has_identity, position_order, select_assignment, select_exists, delete_assignment,
}
use keyro_core.Storage.Columns.{encode_control}
use keyro_core.Storage.Columns.RoundTrip.{IsParsed, decode_action-encode_action}
use keyro_core.Storage.Rows.{action_of_row}
use keyro_core.Storage.Queries.{profile_exists, find_assignment}
use keyro_core.Storage.Repository.{row_of, save_assignment, clear_assignment}
use keyro_core.Storage.Assignments.Rows.{calm, rows_of, belongs, saved, save_assignment-saved}
use keyro_core.Storage.Assignments.Identity.{same_columns, has_identity_unique}

module _ ⦃uuid : UuidCrate⦄ ⦃url : UrlCrate⦄ where
  -- What a lookup answers from the rows of the table.
  abbrev pub answer :
      ProfileId → ControlId → Result SqlError (List Action) → Result SqlError (Option Assignment)
  answer id c (ok actions) = ok (
      if is_empty actions
      then none
      else some (record { profile_id = id; control = c; actions = actions }))
  answer id c (err e) = err e

  abbrev pub read_rows : ProfileId → ControlId → List AssignmentRow → Result SqlError (List Action)
  read_rows id c rows =
      try_map action_of_row (
        sort_by position_order (filter (has_identity (profile_id_text id) (encode_control c)) rows))

  rows_of-IsSorted :
      (a : Assignment) (position : ℕ) (actions : List Action)
      → IsSorted position_order (rows_of a position actions)
  unfolding row_of
  rows_of-IsSorted a position [] = tt
  rows_of-IsSorted a position (x ∷ []) = tt
  rows_of-IsSorted a position (x ∷ y ∷ actions) =
      (ground arith, rows_of-IsSorted a (suc position) (y ∷ actions))

  rows_of-belong :
      (a : Assignment) (position : ℕ) (actions : List Action)
      → All (λ row. belongs a row ≡ true) (rows_of a position actions)
  unfolding row_of
  rows_of-belong a position [] = tt
  rows_of-belong a position (x ∷ actions) = (
    ground (arith, eq_refl (profile_id_text a.profile_id), same_columns a.control),
    rows_of-belong a (suc position) actions,
  )

  read-rows_of :
      (a : Assignment) (position : ℕ) (actions : List Action)
      → All IsParsed actions
      → try_map action_of_row (rows_of a position actions) ≡ ok actions
  unfolding row_of action_of_row
  read-rows_of a position [] h = refl
  read-rows_of a position (x ∷ actions) h =
      rw (decode_action-encode_action x h.0, read-rows_of a (suc position) actions h.1) refl

module _ ⦃uuid : UuidCrate⦄ ⦃url : UrlCrate⦄ ⦃sql : RusqliteCrate⦄ where
  pub find_assignment_lem :
      (id : ProfileId) (c : ControlId) (db : Database)
      → find_assignment id c (calm db)
        ≡ (map_err to_app_error (answer id c (read_rows id c db.assignments)), calm db)
  unfolding find_assignment select_assignment statement
  find_assignment_lem id c db = ground arith

module _ ⦃uuid : UuidCrate⦄ where
  -- The rows of another profile or control do not belong to the assignment.
  other_rows :
      (laws : UuidLaws uuid) (a : Assignment) (id : ProfileId) (c : ControlId)
      → ¬ ((id ≡ a.profile_id) × (c ≡ a.control))
      → (row : AssignmentRow) → has_identity (profile_id_text id) (encode_control c) row ≡ true
      → belongs a row ≡ false
  other_rows laws a id c other row h = elim (Bool-cases (belongs a row)) [
    | inl e ↦ absurd (other (has_identity_unique laws id a.profile_id c a.control row h e))
    | inr e ↦ e
  ]

module _ ⦃uuid : UuidCrate⦄ ⦃url : UrlCrate⦄ ⦃sql : RusqliteCrate⦄ where
  read-saved :
      (a : Assignment) (rows : List AssignmentRow)
      → All IsParsed a.actions
      → read_rows a.profile_id a.control (saved a rows) ≡ ok a.actions
  read-saved a rows parsed =
      rw
        (
          filter-append (belongs a),
          filter-filter-not,
          filter-All (belongs a) _ (rows_of-belong a 0 a.actions),
          sort_by_sorted position_order _ (rows_of-IsSorted a 0 a.actions),
        )
        (read-rows_of a 0 a.actions parsed)

  read-saved_ne :
      (laws : UuidLaws uuid) (a : Assignment) (id : ProfileId) (c : ControlId)
      (rows : List AssignmentRow)
      → ¬ ((id ≡ a.profile_id) × (c ≡ a.control))
      → read_rows id c (saved a rows) ≡ read_rows id c rows
  read-saved_ne laws a id c rows other =
      rw
        (
          filter-append p,
          filter-filter_disjoint p (belongs a) rows (other_rows laws a id c other),
          filter_none p (rows_of a 0 a.actions) none_written,
          append-nil,
        )
        refl
    where
      p : AssignmentRow → Bool
      p = has_identity (profile_id_text id) (encode_control c)

      excluded : (row : AssignmentRow) → belongs a row ≡ true → p row ≡ false
      excluded row h = elim (Bool-cases (p row)) [
        | inl e ↦ absurd (false≢true (sym (other_rows laws a id c other row e) ∙ h))
        | inr e ↦ e
      ]

      none_written : All (λ row. p row ≡ false) (rows_of a 0 a.actions)
      none_written = All-weaken _ _ (rows_of a 0 a.actions) excluded (rows_of-belong a 0 a.actions)

  after_save :
      (a : Assignment) (id : ProfileId) (c : ControlId) (db : Database)
      → any (has_id (profile_id_text a.profile_id)) db.profiles ≡ true
      → (find_assignment id c (save_assignment a (calm db)).1).0
        ≡ map_err to_app_error (answer id c (read_rows id c (saved a db.assignments)))
  after_save a id c db owner =
      rw (save_assignment-saved a db owner)
        (rw (find_assignment_lem id c (record db { assignments = saved a db.assignments })) refl)

  same_key_iff :
      (i j : ProfileId) (c d : ControlId)
      → ((i == j && control_eq c d) ≡ true) ↔ ((i ≡ j) × (c ≡ d))
  same_key_iff i j c d =
      (λ h. ground (arith, control_eq_iff c d), λ h. ground (arith, control_eq_iff c d))

  -- When no statement fails, the profile exists, UUIDs parse back and the URLs of the actions are
  -- parsed ones, a save makes the lookup of its control answer the saved assignment, its actions in
  -- order, or nothing if it has no actions; every other lookup, of another profile or another
  -- control, answers what it did before.
  pub find_assignment-save_assignment :
      (a : Assignment) (id : ProfileId) (c : ControlId) (db : Database)
      → UuidLaws uuid
      → any (has_id (profile_id_text a.profile_id)) db.profiles ≡ true
      → All IsParsed a.actions
      → (find_assignment id c (save_assignment a (calm db)).1).0 ≡ (
          if id == a.profile_id && control_eq c a.control
          then ok (if is_empty a.actions then none else some a)
          else (find_assignment id c (calm db)).0)
  find_assignment-save_assignment a id c db laws owner parsed =
      elim (Bool-cases (id == a.profile_id && control_eq c a.control)) [
        | inl e ↦
            let (same_id, same_control) = (same_key_iff id a.profile_id c a.control).0 e in
            rw
              (
                e,
                same_id,
                same_control,
                after_save a a.profile_id a.control db owner,
                read-saved a db.assignments parsed,
              )
              refl
        | inr e ↦
            rw
              (
                e,
                after_save a id c db owner,
                find_assignment_lem id c db,
                read-saved_ne laws a id c db.assignments
                    λ same. false≢true (sym e ∙ (same_key_iff id a.profile_id c a.control).1 same),
              )
              refl
      ]

  -- An assignment with no actions: its save and a clear leave the same rows.
  abbrev pub cleared : ProfileId → ControlId → Assignment
  cleared id c = record { profile_id = id; control = c; actions = [] }

  pub clear_assignment-saved :
      (id : ProfileId) (c : ControlId) (db : Database)
      → any (has_id (profile_id_text id)) db.profiles ≡ true
      → clear_assignment id c (calm db)
        ≡ (ok tt, record db { assignments = saved (cleared id c) db.assignments; faults = [] })
  unfolding clear_assignment profile_exists select_exists delete_assignment statement
  clear_assignment-saved id c db owner = rw (owner, append-nil) refl

  -- When no statement fails, the profile exists and UUIDs parse back, a clear makes the lookup of
  -- its control answer nothing, and every other lookup answers what it did before.
  pub find_assignment-clear_assignment :
      (j : ProfileId) (d : ControlId) (id : ProfileId) (c : ControlId) (db : Database)
      → UuidLaws uuid
      → any (has_id (profile_id_text j)) db.profiles ≡ true
      → (find_assignment id c (clear_assignment j d (calm db)).1).0
        ≡ (if id == j && control_eq c d then ok none else (find_assignment id c (calm db)).0)
  find_assignment-clear_assignment j d id c db laws owner =
      rw (clear_assignment-saved j d db owner ∙ sym (save_assignment-saved (cleared j d) db owner))
        (find_assignment-save_assignment (cleared j d) id c db laws owner tt)
