-- ===== src/Host/Listener/Rounds.antt =====
-- What the listeners of crates/keyro-core/src/main.rs and windows_ipc.rs do over the rounds.
use keyro_core.Common.{
  ◌≡◌, refl, sym, ◌∙◌, ◌+◌, ◌≤◌, ◌↔◌, Bool-cases, inl, inr, true, false, List, [], ◌∷◌, Result, ok,
  err, arith,
}
use keyro_core.Host.Workers.{DevConnections, max_dev_connections}
use keyro_core.Host.Workers.Bounds.{IsBounded, accept-IsBounded}
use keyro_core.Host.Listener.{
  Socket, remove_file, bind, remove_stale, listen, Round, accept_round, serve, create_pipe, run,
  running, renewed, PipeError,
}

-- Where no call fails the Unix listener starts, whether or not an earlier process has left its
-- socket, and the socket is then there.
pub listen-present :
    (socket : Socket)
    → socket.faults ≡ []
    → ((listen socket).0 ≡ ok tt) × ((listen socket).1.present ≡ true)
unfolding listen remove_stale remove_file bind
listen-present socket h = elim (Bool-cases socket.present) [
  | inl e ↦ ground (arith, e, h)
  | inr e ↦ ground (arith, e, h)
]

module _ {Worker : Type 0} where
  -- The system refuses no pipe in the round, and with the streams of the workers that run no more
  -- than eight other instances are held.
  abbrev pub Fits : Round Worker → DevConnections Worker → Type 0
  Fits round connections =
      (round.refused ≡ false) × (running round connections + round.lingering ≤ max_dev_connections)

  -- So it is in each round, with the workers of the rounds before it.
  abbrev pub AllFit : List (Round Worker) → DevConnections Worker → Type 0
  AllFit [] connections = Unit
  AllFit (round ∷ rounds) connections =
      Fits round connections × AllFit rounds (accept_round round connections)

  accept_round-IsBounded :
      (round : Round Worker) (connections : DevConnections Worker)
      → IsBounded connections
      → IsBounded (accept_round round connections)
  accept_round-IsBounded round connections h = elim (Bool-cases round.connected) [
    | inl e ↦ rw e (accept-IsBounded round.is_finished round.spawn connections h)
    | inr e ↦ rw e h
  ]

  create_pipe-ok :
      (round : Round Worker) (connections : DevConnections Worker)
      → Fits round connections
      → create_pipe round connections ≡ ok tt
  unfolding create_pipe
  create_pipe-ok round connections (allowed, few) = ground (arith, allowed, few)

  create_pipe-Fits :
      (round : Round Worker) (connections : DevConnections Worker) (e : PipeError)
      → create_pipe round connections ≡ err e
      → ¬ Fits round connections
  create_pipe-Fits round connections e h fits =
      ground (arith, h, create_pipe-ok round connections fits)

  ok-Fits :
      (round : Round Worker) (connections : DevConnections Worker)
      → create_pipe round connections ≡ ok tt
      → Fits round connections
  unfolding create_pipe
  ok-Fits round connections h = (ground (arith, h), ground (arith, h))

  run_nil : (connections : DevConnections Worker) → run [] connections ≡ ok connections
  unfolding run
  run_nil connections = refl

  run_round :
      (round : Round Worker) (rounds : List (Round Worker)) (connections : DevConnections Worker)
      → run (round ∷ rounds) connections
        ≡ renewed (create_pipe round connections) (run rounds (accept_round round connections))
  unfolding run
  run_round round rounds connections = refl

  renewed-ok :
      (r : Result PipeError (Unit {0})) (rest : Result PipeError (DevConnections Worker))
      (connections : DevConnections Worker)
      → renewed r rest ≡ ok connections
      → (r ≡ ok tt) × (rest ≡ ok connections)
  renewed-ok (err e) rest connections h = absurd (ground arith)
  renewed-ok (ok u) rest connections h = (refl, h)

  serve-IsBounded :
      (rounds : List (Round Worker)) (connections : DevConnections Worker)
      → IsBounded connections
      → IsBounded (serve rounds connections)
  unfolding serve
  serve-IsBounded [] connections h = h
  serve-IsBounded (round ∷ rounds) connections h =
      serve-IsBounded rounds (accept_round round connections)
        (accept_round-IsBounded round connections h)

  run_iff :
      (rounds : List (Round Worker)) (connections : DevConnections Worker)
      → (run rounds connections ≡ ok (serve rounds connections)) ↔ AllFit rounds connections
  unfolding serve
  run_iff [] connections = (λ h. tt, λ h. run_nil connections)
  run_iff (round ∷ rounds) connections =
      let next = accept_round round connections in
      let (there, back) = run_iff rounds next in
      (
        λ h.
            let (created, same) =
              renewed-ok (create_pipe round connections) (run rounds next) (serve rounds next)
                (sym (run_round round rounds connections) ∙ h) in
            (ok-Fits round connections created, there same),
        λ (fits, rest).
            run_round round rounds connections
            ∙ rw (create_pipe-ok round connections fits) (back rest),
      )

  -- From bounded connections, the Windows loop goes on over the rounds, and then has served exactly
  -- as the Unix loop does, if and only if in each round the system refuses no pipe and no more than
  -- eight instances are held by the running workers and by clients whose streams are closed at this
  -- end; and there are never more than eight workers.
  pub run-serve :
      (rounds : List (Round Worker)) (connections : DevConnections Worker)
      → IsBounded connections
      → ((run rounds connections ≡ ok (serve rounds connections)) ↔ AllFit rounds connections)
        × IsBounded (serve rounds connections)
  run-serve rounds connections h =
      (run_iff rounds connections, serve-IsBounded rounds connections h)
