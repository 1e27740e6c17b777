-- ===== src/Examples/Repositories.antt =====
-- Sequences and interleavings of repository calls.
use keyro_core.Common.{refl, false, List, [], ◌∷◌, none, any}
use keyro_core.Domain.Ids.{profile_id_text}
use keyro_core.Domain.Urls.{parse_safe_url}
use keyro_core.Domain.Profiles.{Profile}
use keyro_core.Storage.Database.{statement}
use keyro_core.Storage.Statements.{has_id, select_assignment}
use keyro_core.Storage.Queries.{find_assignment}
use keyro_core.Storage.Keeps.{On}
use keyro_core.Storage.Consistency.{IsConsistent}
use keyro_core.Storage.Consistency.Methods.{Call, after}
use keyro_core.Storage.Repository.{renamed_profile, store_name}
use keyro_core.Storage.Board.{Board, Represents, run_calls, replay}
use keyro_core.Storage.Board.Refinement.{run_calls-Represents}
use keyro_core.Storage.Renames.{Shared, Reach, Step, Reach-IsConsistent}
use keyro_core.Examples.Crates.{uuids, uuids-UuidLaws, urls, sqlite}
use keyro_core.Examples.Databases.{two_profiles, two_profiles-IsConsistent, assignment, first_key}

-- Two profiles without assignments.
abbrev empty_board : Board
empty_board = record {
  known = λ i. any (has_id (profile_id_text i)) two_profiles.profiles;
  assigned = λ _ _. none;
}

empty_board-Represents : Represents empty_board two_profiles
unfolding find_assignment select_assignment statement
empty_board-Represents = record { known = λ _. refl; assigned = λ _ _. refl }

abbrev calls : List Call
calls =
    Call.create "Work"
    ∷ Call.save assignment
    ∷ Call.switch 2
    ∷ Call.rename_to 1 "Home"
    ∷ Call.clear 1 first_key
    ∷ Call.clear 9 first_key
    ∷ []

run_calls-Represents_example :
    Represents (replay calls two_profiles empty_board) (run_calls calls two_profiles)
unfolding parse_safe_url
run_calls-Represents_example =
    run_calls-Represents calls empty_board two_profiles uuids-UuidLaws
      (tt, ((refl, (refl, tt)), (tt, (tt, (tt, (tt, tt)))))) empty_board-Represents

-- A switch between the two parts of a rename.
abbrev games : Profile
games = record { id = 2; name = "Play"; is_active = false }

abbrev read_games : Shared
read_games = record {
  database = (renamed_profile 2 "Play" two_profiles).1;
  renames = (2, games) ∷ [];
}

abbrev switched : Shared
switched = record read_games { database = after read_games.database (Call.switch 2) }

abbrev renamed : Shared
renamed = record { database = (store_name 2 games switched.database).1; renames = [] }

renamed-Reach : Reach two_profiles renamed
unfolding renamed_profile keyro_core.Storage.Queries.list_profiles
    keyro_core.Storage.Statements.select_profiles statement keyro_core.Storage.Rows.profile_of_row
    keyro_core.Domain.Profiles.rename
renamed-Reach =
    Reach.later
      (Reach.later (Reach.later Reach.start (Step.read 2 "Play" refl)) (Step.call (Call.switch 2)))
      (Step.store [] [] 2 games refl)

Reach-IsConsistent_example : On IsConsistent renamed.database
Reach-IsConsistent_example = Reach-IsConsistent renamed-Reach two_profiles-IsConsistent
