-- ===== src/Host/Workers/Bounds.antt =====
-- The connection limit of `DevConnections::accept` in crates/keyro-core/src/main.rs.
use keyro_core.Common.{
  ℕ, ◌<◌, ◌≤◌, ◌^◌, ◌≡◌, ◌↔◌, refl, ◌∙◌, Bool, true, not, List, [], ◌∷◌, Option, some, Option-cases,
  inl, inr, arith, length, count, length-append, sym,
}
use keyro_core.Host.Workers.{DevConnections, started, accept, reap, max_dev_connections}
use keyro_core.Host.Workers.Reap.{count-reap}

module _ {Worker : Type 0} where
  -- At most eight workers, and a connection id of 64 bits.
  pub record IsBounded (connections : DevConnections Worker) : Type 0 where
    pub few : length connections.workers ≤ max_dev_connections
    pub small : connections.next_id < 2 ^ 64

module _ {Worker : Type 0} (is_finished : Worker → Bool) where
  count-all : (workers : List Worker) → count (λ _. true) workers ≡ length workers
  count-all [] = refl
  count-all (w ∷ ws) = ground (arith, count-all ws)

  length-reap :
      (workers : List Worker)
      → length (reap is_finished workers) ≡ count (λ w. not (is_finished w)) workers
  length-reap workers =
      sym (count-all (reap is_finished workers)) ∙ count-reap is_finished (λ _. true) workers

  pub count-length : (p : Worker → Bool) (workers : List Worker) → count p workers ≤ length workers
  count-length p [] = omega arith
  count-length p (w ∷ ws) = ground (arith, count-length p ws)

module _ {Worker : Type 0} where
  -- Whatever threads have finished and whether a new one starts, `accept` never leaves more than
  -- eight workers, and its connection ids stay 64 bits wide.
  pub accept-IsBounded :
      (is_finished : Worker → Bool) (spawn : ℕ → Option Worker)
      (connections : DevConnections Worker)
      → IsBounded connections
      → IsBounded (accept is_finished spawn connections).1
  unfolding accept
  accept-IsBounded is_finished spawn connections h =
      let workers = reap is_finished connections.workers in
      elim (Option-cases (spawn connections.next_id)) [
        | inl e ↦ record { few = ground (arith, h.few, shorter); small = ground (arith, h.small) }
        | inr (w, e) ↦ record {
          few = ground (arith, h.few, shorter, length-append workers (w ∷ []));
          small = ground (arith, h.small);
        }
      ]
    where
      shorter : length (reap is_finished connections.workers) ≤ length connections.workers
      shorter =
          rw (length-reap is_finished connections.workers)
            (count-length is_finished _ connections.workers)

  -- A stream gets a worker exactly when fewer than eight workers are running, finished ones not
  -- counted, and its thread starts; the connection id is the next one.
  pub accept-started_iff :
      (is_finished : Worker → Bool) (spawn : ℕ → Option Worker)
      (connections : DevConnections Worker) (id : ℕ)
      → ((accept is_finished spawn connections).0 ≡ started id) ↔ (
          (count (λ w. not (is_finished w)) connections.workers < max_dev_connections)
          × ((worker : Worker) × (spawn connections.next_id ≡ some worker))
          × (id ≡ connections.next_id))
  unfolding accept
  accept-started_iff is_finished spawn connections id = (
    λ h. elim (Option-cases (spawn connections.next_id)) [
      | inl e ↦ absurd (ground arith)
      | inr (w, e) ↦
          (ground (arith, length-reap is_finished connections.workers), (w, e), ground arith)
    ],
    λ (few, (w, e), same). ground (arith, length-reap is_finished connections.workers),
  )
