-- ===== src/Examples/Processes.antt =====
-- Processes that start and end, and the rounds of a listener.
use keyro_core.Common.{
  ◌↔◌, ℕ, ◌≡◌, refl, true, false, List, [], ◌∷◌, some, none, ok, ◌==◌, is_ok, arith,
}
use keyro_core.Host.Workers.{DevConnections}
use keyro_core.Host.Workers.Bounds.{IsBounded}
use keyro_core.Host.Instance.{LockFile, acquire, close}
use keyro_core.Host.Instance.Processes.{
  Processes, Reach, Step, IsExclusive, Reach-IsExclusive, acquire-is_empty,
}
use keyro_core.Host.Listener.{Socket, listen, Round, run, serve}
use keyro_core.Host.Listener.Rounds.{AllFit, listen-present, run-serve}

-- The lock file that an earlier process has left.
abbrev pub left : LockFile
left = record { holder = none; content = "17"; opened = 4; faults = []; torn = "" }

abbrev pub first : Processes
first = record { lock = (acquire 40 left).1; guards = (record { file = 4; pid = 40 }) ∷ [] }

first-Reach : Reach first
unfolding acquire
first-Reach = Reach.onward (Reach.start left refl) (Step.acquired 40 refl)

-- A second process is refused, and the first ends.
abbrev ended : Processes
ended = record { lock = close 4 (acquire 41 first.lock).1; guards = [] }

ended-Reach : Reach ended
unfolding acquire
ended-Reach =
    Reach.onward (Reach.onward first-Reach (Step.refused 41 refl))
      (Step.dropped [] [] (record { file = 4; pid = 40 }) refl)

Reach-IsExclusive_example : IsExclusive first
Reach-IsExclusive_example = Reach-IsExclusive first-Reach

acquire-is_empty_example : is_ok (acquire 42 (record ended.lock { faults = [] })).0 ≡ true
acquire-is_empty_example = acquire-is_empty 42 ended-Reach

abbrev pub stale : Socket
stale = record { present = true; faults = [] }

listen-present_example : ((listen stale).0 ≡ ok tt) × ((listen stale).1.present ≡ true)
listen-present_example = listen-present stale refl

abbrev rounds : List (Round ℕ)
rounds =
    record {
      connected = true;
      is_finished = λ w. w == 2;
      spawn = λ id. some id;
      refused = false;
      lingering = 2;
    }
    ∷ record {
      connected = false;
      is_finished = λ _. false;
      spawn = λ _. none;
      refused = false;
      lingering = 0;
    }
    ∷ record {
      connected = true;
      is_finished = λ _. false;
      spawn = λ id. some id;
      refused = false;
      lingering = 1;
    }
    ∷ []

abbrev seven : DevConnections ℕ
seven = record { workers = 0 ∷ 1 ∷ 2 ∷ 3 ∷ 4 ∷ 5 ∷ 6 ∷ []; next_id = 7 }

run-serve_example :
    ((run rounds seven ≡ ok (serve rounds seven)) ↔ AllFit rounds seven)
    × IsBounded (serve rounds seven)
run-serve_example = run-serve rounds seven (record { few = omega arith; small = omega arith })

-- They fit, with one client that still holds its end beside seven running workers.
rounds-Fits : AllFit rounds seven
unfolding keyro_core.Host.Workers.accept keyro_core.Host.Workers.reap
    keyro_core.Host.Workers.Vectors.swap_remove
rounds-Fits = ((refl, omega arith), ((refl, omega arith), ((refl, omega arith), tt)))
