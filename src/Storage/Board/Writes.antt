-- ===== src/Storage/Board/Writes.antt =====
-- Saves and clears of crates/core-storage-sqlite/src/lib.rs against the abstract board.
use keyro_core.Common.{
  ◌≡◌, refl, ap, ◌∙◌, sym, true, false, Bool, Bool-cases, inl, inr, All, any, Option, Result, ok,
  err, ◌&&◌, if◌then◌else◌, ◌==◌, map_err,
}
use keyro_core.Domain.Ids.{UuidCrate, UuidLaws, ProfileId, profile_id_text}
use keyro_core.Domain.Layout.{ControlId, control_eq}
use keyro_core.Domain.Urls.{UrlCrate}
use keyro_core.Domain.Assignments.{Assignment}
use keyro_core.App.Errors.{AppError, profile_not_found}
use keyro_core.Storage.Database.{Database, RusqliteCrate, statement, transaction, to_app_error}
use keyro_core.Storage.Statements.{has_id, select_exists}
use keyro_core.Storage.Columns.RoundTrip.{IsParsed}
use keyro_core.Storage.Queries.{find_assignment, profile_exists}
use keyro_core.Storage.Repository.{save_body, save_assignment, clear_assignment}
use keyro_core.Storage.Keeps.{On}
use keyro_core.Storage.Atomicity.{save_assignment-SameTables}
use keyro_core.Storage.Assignments.Rows.{calm, save_assignment-saved}
use keyro_core.Storage.Assignments.Lookup.{
  answer, read_rows, find_assignment_lem, find_assignment-save_assignment, clear_assignment-saved,
}
use keyro_core.Storage.Data.{IsData}
use keyro_core.Storage.Board.{Board, assign, erased, Represents}

module _ ⦃uuid : UuidCrate⦄ ⦃url : UrlCrate⦄ ⦃sql : RusqliteCrate⦄ where
  lookup_lem :
      (i : ProfileId) (c : ControlId) (db : Database)
      → (find_assignment i c (calm db)).0
        ≡ map_err to_app_error (answer i c (read_rows i c db.assignments))
  lookup_lem i c db = ap (λ r. r.0) (find_assignment_lem i c db)

  pub Represents-same :
      (board : Board) (known : ProfileId → Bool) (db db' : Database)
      → Represents board db
      → db'.assignments ≡ db.assignments
      → ((i : ProfileId) → any (has_id (profile_id_text i)) db'.profiles ≡ known i)
      → Represents (record board { known = known }) db'
  Represents-same board known db db' h rows ids = record {
    known = ids;
    assigned = λ i c.
        lookup_lem i c db'
        ∙ ap (λ rows. map_err to_app_error (answer i c (read_rows i c rows))) rows
        ∙ sym (lookup_lem i c db)
        ∙ h.assigned i c;
  }

  pub Represents-IsData :
      (board : Board) (db db' : Database)
      → Represents board db
      → On (IsData (λ id. any (has_id id) db.profiles) db.assignments) db'
      → Represents board db'
  Represents-IsData board db db' h (rows, ids) =
      Represents-same board board.known db db' h rows (λ i. ids (profile_id_text i) ∙ h.known i)

  save-unknown :
      (a : Assignment) (db : Database)
      → any (has_id (profile_id_text a.profile_id)) db.profiles ≡ false
      → (save_assignment a (calm db)).0 ≡ err profile_not_found
  unfolding save_assignment save_body transaction profile_exists select_exists statement
  save-unknown a db h = rw h refl

  if_ok :
      (b : Bool) (x y : Option Assignment) (r : Result AppError (Option Assignment))
      → r ≡ ok y
      → (if b then ok x else r) ≡ ok (if b then x else y)
  if_ok true x y r h = refl
  if_ok false x y r h = h

  pub save-Represents :
      (a : Assignment) (board : Board) (db : Database)
      → UuidLaws uuid
      → All IsParsed a.actions
      → Represents board db
      → Represents (assign a board) (save_assignment a (calm db)).1
  save-Represents a board db laws parsed h = elim (Bool-cases (board.known a.profile_id)) [
    | inl e ↦
        let owner = h.known a.profile_id ∙ e in
        rw e (record {
          known = λ i. rw (save_assignment-saved a db owner) (h.known i);
          assigned = λ i c.
              let law = find_assignment-save_assignment a i c db laws owner parsed in
              rw (save_assignment-saved a db owner) (
                (rw (save_assignment-saved a db owner) at law)
                ∙ if_ok (i == a.profile_id && control_eq c a.control) _ _ _ (h.assigned i c));
        })
    | inr e ↦
        let missing = save-unknown a db (h.known a.profile_id ∙ e) in
        let (profiles, rows) = save_assignment-SameTables a (calm db) profile_not_found missing in
        rw e (
          Represents-same board board.known db (save_assignment a (calm db)).1 h rows
            (λ i. rw profiles (h.known i)))
  ]

  clear-unknown :
      (id : ProfileId) (c : ControlId) (db : Database)
      → any (has_id (profile_id_text id)) db.profiles ≡ false
      → clear_assignment id c (calm db) ≡ (err profile_not_found, calm db)
  unfolding clear_assignment profile_exists select_exists statement
  clear-unknown id c db h = rw h refl

  pub clear-Represents :
      (j : ProfileId) (d : ControlId) (board : Board) (db : Database)
      → UuidLaws uuid
      → Represents board db
      → Represents (assign (erased j d) board) (clear_assignment j d (calm db)).1
  clear-Represents j d board db laws h = elim (Bool-cases (board.known j)) [
    | inl e ↦
        let owner = h.known j ∙ e in
        rw (clear_assignment-saved j d db owner ∙ sym (save_assignment-saved (erased j d) db owner))
          (save-Represents (erased j d) board db laws tt h)
    | inr e ↦
        rw (e, clear-unknown j d db (h.known j ∙ e))
          (Represents-same board board.known db (calm db) h refl h.known)
  ]
