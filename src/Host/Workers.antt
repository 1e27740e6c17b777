-- ===== src/Host/Workers.antt =====
-- `DevConnections` of crates/keyro-core/src/main.rs: the workers of the development IPC listener.
-- A worker stands for its join handle; whether it has finished is the thread's affair, as is
-- whether a new thread can be started.
pub mod Vectors
pub mod Reap
pub mod Bounds
use keyro_core.Common.{
  ℕ, zero, suc, ◌+◌, ◌^◌, ◌%◌, Bool, List, [], ◌∷◌, ◌++◌, Option, none, some, leb, length,
  if◌then◌else◌,
}
use keyro_core.Host.Workers.Vectors.{get_elem?, swap_remove}

abbrev pub max_dev_connections : ℕ
max_dev_connections = 8

-- `next_id` is a `u64`.
pub record DevConnections (Worker : Type 0) : Type 0 where
  pub workers : List Worker
  pub next_id : ℕ

-- What became of the new stream: closed at the limit, a failed thread start, or a worker with its
-- connection id.
pub data Accepted : Type 0 where
  limit_reached spawn_failed : Accepted
  started : ℕ → Accepted

module _ {Worker : Type 0} where
  -- One turn of the `while` loop, on the index and the vector.
  unfoldable pub reap_turn : (Worker → Bool) → ℕ → List Worker → Worker → ℕ × List Worker
  reap_turn is_finished index workers worker =
      if is_finished worker then (index, swap_remove index workers) else (suc index, workers)

  -- The `while` loop; each turn takes one unit of fuel.
  unfoldable pub reap_from : ℕ → (Worker → Bool) → ℕ → List Worker → List Worker
  unfolding reap_turn
  reap_from zero is_finished index workers = workers
  reap_from (suc fuel) is_finished index workers = elim (get_elem? workers index) [
    | none ↦ workers
    | some worker ↦
        let (index', workers') = reap_turn is_finished index workers worker in
        reap_from fuel is_finished index' workers'
  ]

  -- The vector after the loop.
  unfoldable pub reap : (Worker → Bool) → List Worker → List Worker
  unfolding reap_from
  reap is_finished workers = reap_from (length workers) is_finished 0 workers

  -- The end of `accept`: the answer of `Builder::spawn`, and the push.
  spawned : DevConnections Worker → ℕ → Option Worker → Accepted × DevConnections Worker
  spawned connections id none = (spawn_failed, connections)
  spawned connections id (some worker) =
      (started id, record connections { workers = connections.workers ++ worker ∷ [] })

  -- `DevConnections::accept`: the argument `spawn` says what starting the thread of a connection
  -- answers.
  unfoldable pub accept :
      (Worker → Bool)
      → (ℕ → Option Worker)
      → DevConnections Worker
      → Accepted × DevConnections Worker
  unfolding spawned
  accept is_finished spawn connections =
      let workers = reap is_finished connections.workers in
      let id = connections.next_id in
      if leb max_dev_connections (length workers)
      then (limit_reached, record connections { workers = workers })
      else spawned (record { workers = workers; next_id = (id + 1) % 2 ^ 64 }) id (spawn id)
