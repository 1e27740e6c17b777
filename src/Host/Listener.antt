-- ===== src/Host/Listener.antt =====
-- The listeners of the development IPC: `run_dev_ipc` of crates/keyro-core/src/main.rs, on a Unix
-- socket, and `run` of crates/keyro-core/src/windows_ipc.rs, on a named pipe. Both loops go on until
-- the process ends, so they are modelled on the rounds that have come so far.
pub mod Rounds
use keyro_core.Common.{
  ℕ, suc, ◌+◌, Bool, true, false, not, List, [], ◌∷◌, Option, none, some, Result, ok, err, count,
  leb, if◌then◌else◌,
}
use keyro_core.Common.Exec.{Exec, lift, pure, ◌>>=◌, ◌>>◌}
use keyro_core.Platform.{TargetOs, macos, windows, other_os}
use keyro_core.Host.Workers.{DevConnections, Accepted, accept, max_dev_connections}

-- The socket's path, or on Windows the pipe's name: whether it is taken, and which calls fail.
pub record Socket : Type 0 where
  pub present : Bool
  pub faults : List Bool

pub data ListenError : Type 0 where
  remove_failed bind_failed pipe_failed : ListenError

abbrev pub next_fault : List Bool → Bool
next_fault [] = false
next_fault (fault ∷ _) = fault

abbrev pub later_faults : List Bool → List Bool
later_faults [] = []
later_faults (_ ∷ rest) = rest

abbrev pub Listening : Type 0 → Type 0
Listening A = Exec Socket ListenError A

-- `std::fs::remove_file`
unfoldable pub remove_file : Listening (Unit {0})
remove_file socket =
    if next_fault socket.faults
    then (err remove_failed, record socket { faults = later_faults socket.faults })
    else (ok tt, record { present = false; faults = later_faults socket.faults })

-- `UnixListener::bind`, which fails where the path exists.
unfoldable pub bind : Listening (Unit {0})
bind socket =
    if next_fault socket.faults
    then (err bind_failed, record socket { faults = later_faults socket.faults })
    else if socket.present
    then (err bind_failed, record socket { faults = later_faults socket.faults })
    else (ok tt, record { present = true; faults = later_faults socket.faults })

-- `if socket_path.exists() { .. }`
unfoldable pub remove_stale : Listening (Unit {0})
unfolding remove_file
remove_stale socket = (if socket.present then remove_file else pure tt) socket

-- The start of `run_dev_ipc` on Unix.
unfoldable pub listen : Listening (Unit {0})
unfolding remove_stale bind
listen = do remove_stale; bind

-- `create_pipe(PIPE_PATH, true)`, which fails where the pipe has an instance.
unfoldable pub create_first_pipe : Listening (Unit {0})
create_first_pipe socket =
    if next_fault socket.faults
    then (err pipe_failed, record socket { faults = later_faults socket.faults })
    else if socket.present
    then (err pipe_failed, record socket { faults = later_faults socket.faults })
    else (ok tt, record { present = true; faults = later_faults socket.faults })

-- `run_dev_ipc` up to its loop: on Windows it is `run` of windows_ipc.rs.
unfoldable pub run_dev_ipc : TargetOs → Listening (Unit {0})
unfolding listen create_first_pipe
run_dev_ipc macos = listen
run_dev_ipc windows = create_first_pipe
run_dev_ipc other_os = listen

-- What a round of a loop meets: whether a client connects, which threads have finished, and whether
-- a new thread starts; on Windows, whether the next pipe is refused by the system, and how many
-- instances are there only because a client still holds its end, after the stream at ours has been
-- dropped.
pub record Round (Worker : Type 0) : Type 0 where
  pub connected : Bool
  pub is_finished : Worker → Bool
  pub spawn : ℕ → Option Worker
  pub refused : Bool
  pub lingering : ℕ

pub data PipeError : Type 0 where
  pipe_refused instances_exhausted : PipeError

module _ {Worker : Type 0} where
  -- What both loops do with the stream of a round; an error is logged.
  abbrev pub accept_round : Round Worker → DevConnections Worker → DevConnections Worker
  accept_round round connections =
      if round.connected then (accept round.is_finished round.spawn connections).1 else connections

  -- `for stream in listener.incoming()`
  unfoldable pub serve : List (Round Worker) → DevConnections Worker → DevConnections Worker
  serve [] connections = connections
  serve (round ∷ rounds) connections = serve rounds (accept_round round connections)

  -- The streams of the workers that run.
  abbrev pub running : Round Worker → DevConnections Worker → ℕ
  running round connections = count (λ w. not (round.is_finished w)) connections.workers

  -- `create_pipe(PIPE_PATH, false)`. The system lets a pipe have `MAX_DEV_CONNECTIONS + 2` instances,
  -- and an instance is there until the last handle to it is closed: at the renewal there are the one
  -- that has been pending, those of the workers that run, and those that clients still hold.
  unfoldable pub create_pipe : Round Worker → DevConnections Worker → Result PipeError (Unit {0})
  create_pipe round connections =
      if round.refused
      then err pipe_refused
      else if leb (max_dev_connections + 2) (suc (running round connections + round.lingering))
      then err instances_exhausted
      else ok tt

  -- `?` on the renewed pipe.
  abbrev pub renewed :
      Result PipeError (Unit {0})
      → Result PipeError (DevConnections Worker)
      → Result PipeError (DevConnections Worker)
  renewed (err e) rest = err e
  renewed (ok _) rest = rest

  -- The loop of `run`, which ends where the pipe cannot be renewed.
  unfoldable pub run :
      List (Round Worker) → DevConnections Worker → Result PipeError (DevConnections Worker)
  unfolding create_pipe
  run [] connections = ok connections
  run (round ∷ rounds) connections =
      renewed (create_pipe round connections) (run rounds (accept_round round connections))
