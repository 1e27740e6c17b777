-- ===== src/Storage/Board/Creation.antt =====
-- The creation of a profile in crates/core-storage-sqlite/src/lib.rs against the abstract board.
use keyro_core.Common.{
  ◌≡◌, refl, suc, ◌++◌, true, false, Bool-cases, inl, inr, eq_iff, String, [], ◌∷◌, any, any_append,
  arith, Result, ok, err, ◌||◌, ◌==◌, pos,
}
use keyro_core.Domain.Ids.{UuidCrate, UuidLaws, ProfileId, profile_id_text}
use keyro_core.Domain.Urls.{UrlCrate}
use keyro_core.Domain.Profiles.{Profile, new_profile}
use keyro_core.App.Errors.{domain}
use keyro_core.Storage.Database.{
  Database, ProfileRow, RusqliteCrate, statement, to_app_error, constraint_violation,
}
use keyro_core.Domain.Errors.{DomainError}
use keyro_core.Storage.Statements.{has_id, insert_profile, profile_conflict}
use keyro_core.Storage.Repository.{create_profile}
use keyro_core.Storage.Assignments.Rows.{calm}
use keyro_core.Storage.Assignments.Identity.{text-injective}
use keyro_core.Storage.Board.{Board, add_known, Represents}
use keyro_core.Storage.Board.Writes.{Represents-same}

module _ ⦃uuid : UuidCrate⦄ ⦃url : UrlCrate⦄ ⦃sql : RusqliteCrate⦄ where
  created_row : Database → Profile → ProfileRow
  created_row db p = record {
    id = profile_id_text p.id;
    name = p.name;
    is_active = pos 0;
    created_at = db.now;
  }

  abbrev drawn_from : Database → Database
  drawn_from db = record db { faults = []; drawn = suc db.drawn }

  create-invalid :
      (name : String) (db : Database) (e : DomainError)
      → new_profile (db.entropy db.drawn) name false ≡ err e
      → create_profile name (calm db) ≡ (err (domain e), drawn_from db)
  unfolding create_profile
  create-invalid name db e h = rw h refl

  create-taken :
      (name : String) (db : Database) (p : Profile)
      → new_profile (db.entropy db.drawn) name false ≡ ok p
      → any (has_id (profile_id_text p.id)) db.profiles ≡ true
      → create_profile name (calm db) ≡ (err (to_app_error constraint_violation), drawn_from db)
  unfolding create_profile insert_profile statement profile_conflict
  create-taken name db p h taken = rw h (rw taken refl)

  create-made :
      (name : String) (db : Database) (p : Profile)
      → new_profile (db.entropy db.drawn) name false ≡ ok p
      → any (has_id (profile_id_text p.id)) db.profiles ≡ false
      → create_profile name (calm db)
        ≡ (ok p, record (drawn_from db) { profiles = db.profiles ++ created_row db p ∷ [] })
  unfolding create_profile insert_profile statement profile_conflict created_row
  create-made name db p h free = rw h (rw free refl)

  known-created :
      (p : Profile) (i : ProfileId) (db : Database)
      → UuidLaws uuid
      → any (has_id (profile_id_text i)) (db.profiles ++ created_row db p ∷ [])
        ≡ (p.id == i || any (has_id (profile_id_text i)) db.profiles)
  unfolding created_row profile_id_text
  known-created p i db laws = ground (
    arith,
    any_append (has_id (profile_id_text i)) db.profiles (created_row db p ∷ []),
    eq_iff (uuid.to_string p.id) (uuid.to_string i),
    text-injective laws p.id i,
  )

  pub create-Represents :
      (name : String) (board : Board) (db : Database)
      → UuidLaws uuid
      → Represents board db
      → Represents
          (add_known (create_profile name (calm db)).0 board)
          (create_profile name (calm db)).1
  create-Represents name board db laws h = go (new_profile (db.entropy db.drawn) name false) refl
    where
      go :
          (r : Result DomainError Profile)
          → new_profile (db.entropy db.drawn) name false ≡ r
          → Represents
              (add_known (create_profile name (calm db)).0 board)
              (create_profile name (calm db)).1
      go (err e) made =
          rw (create-invalid name db e made)
            (Represents-same board board.known db (drawn_from db) h refl h.known)
      go (ok p) made = elim (Bool-cases (any (has_id (profile_id_text p.id)) db.profiles)) [
        | inl e ↦
            rw (create-taken name db p made e)
              (Represents-same board board.known db (drawn_from db) h refl h.known)
        | inr e ↦ rw (create-made name db p made e) (
            Represents-same board (λ i. p.id == i || board.known i) db _ h refl
              (λ i. rw (known-created p i db laws, h.known i) refl))
      ]
