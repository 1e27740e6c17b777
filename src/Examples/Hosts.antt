-- ===== src/Examples/Hosts.antt =====
-- The workers of the listener, and a connection over a stream of lines.
use keyro_core.Common.{
  ℕ, ◌≡◌, ◌↔◌, ◌<◌, refl, String, Bool, true, not, List, [], ◌∷◌, ◌++◌, none, some, ok, err, arith,
  count, Result, ◌&&◌, ◌||◌, ◌==◌,
}
use keyro_core.Common.Exec.{pure}
use keyro_core.Domain.Profiles.{Profile}
use keyro_core.Host.Workers.{DevConnections, started, accept, reap, max_dev_connections}
use keyro_core.Host.Workers.Reap.{count-reap}
use keyro_core.Host.Workers.Bounds.{IsBounded, accept-IsBounded, accept-started_iff}
use keyro_core.Host.Connection.{Ports, handle_lines}
use keyro_core.Host.Connection.Writes.{Write, write, IsStream, Transcript}
use keyro_core.Host.Connection.Transcript.{handle_lines-Transcript}
use keyro_core.Ipc.Session.{ProtocolSession, new_session}
use keyro_core.Examples.Crates.{uuids, urls, json}

-- Workers are numbers; two of the eight have finished.
abbrev is_done : ℕ → Bool
is_done w = w == 1 || w == 7

abbrev full : DevConnections ℕ
full = record { workers = 0 ∷ 1 ∷ 2 ∷ 3 ∷ 4 ∷ 5 ∷ 6 ∷ 7 ∷ []; next_id = 8 }

full-IsBounded : IsBounded full
full-IsBounded = record { few = omega arith; small = omega arith }

count-reap_example :
    count (λ w. not (is_done w)) (reap is_done full.workers)
    ≡ count (λ w. not (is_done w) && not (is_done w)) full.workers
count-reap_example = count-reap is_done (λ w. not (is_done w)) full.workers

accept-IsBounded_example : IsBounded (accept is_done some full).1
accept-IsBounded_example = accept-IsBounded is_done some full full-IsBounded

accept-started_iff_example : ((accept is_done some full).0 ≡ started 8) ↔ (
    (count (λ w. not (is_done w)) full.workers < max_dev_connections)
    × ((worker : ℕ) × (some full.next_id ≡ some worker))
    × (8 ≡ full.next_id))
accept-started_iff_example = accept-started_iff is_done some full 8

abbrev only_profile : Profile
only_profile = record { id = 1; name = "Default"; is_active = true }

-- The stream takes every line; the repository has one profile and no assignment.
abbrev ports : Ports (List Write)
ports = record {
  repository = record {
    ensure_default_profile = pure only_profile;
    create_profile = λ name. pure only_profile;
    list_profiles = pure (only_profile ∷ []);
    rename_profile = λ id name. pure only_profile;
    set_active_profile = λ id. pure tt;
    save_assignment = λ assignment. pure tt;
    clear_assignment = λ id control. pure tt;
    load_snapshot_state = pure (record { profiles = only_profile ∷ []; assignments = [] });
    find_assignment = λ id control. pure none;
  };
  url_opener = record { open_url = λ u. pure tt };
  uuids = record { new_v4 = pure 7 };
  write_line = λ text w. (ok tt, w ++ write text (ok tt) ∷ []);
}

abbrev written : List Write → List Write
written w = w

ports-IsStream : IsStream ports written
ports-IsStream = record {
  silent_create = λ name. record { at = λ w. refl };
  silent_list = record { at = λ w. refl };
  silent_rename = λ id name. record { at = λ w. refl };
  silent_switch = λ id. record { at = λ w. refl };
  silent_save = λ assignment. record { at = λ w. refl };
  silent_clear = λ id control. record { at = λ w. refl };
  silent_snapshot = record { at = λ w. refl };
  silent_find = λ id control. record { at = λ w. refl };
  silent_open = λ u. record { at = λ w. refl };
  silent_uuids = record { at = λ w. refl };
  writes = λ text. record { at = λ w. refl };
}

abbrev fresh : ProtocolSession
fresh = new_session "core-test"

abbrev lines : List (Result String String)
lines = ok "handshake" ∷ ok "press" ∷ err "invalid UTF-8" ∷ ok "press" ∷ []

handle_lines-Transcript_example :
    (xs : List Write) × ((handle_lines ports fresh lines []).1 ≡ xs)
    × Transcript ports fresh [] (handle_lines ports fresh lines []).0 lines xs
handle_lines-Transcript_example =
    handle_lines-Transcript ports written ports-IsStream fresh lines []
