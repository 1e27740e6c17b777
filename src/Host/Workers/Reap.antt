-- ===== src/Host/Workers/Reap.antt =====
-- The reaping loop of `DevConnections::accept` in crates/keyro-core/src/main.rs.
use keyro_core.Common.{
  ℕ, zero, suc, ◌+◌, ◌<◌, ◌==◌, ◌≤◌, ◌≡◌, refl, Bool, true, false, not, ◌&&◌, List, [], ◌∷◌, none,
  some, arith, length, count, Bool-cases, Option-cases, sym, ◌∙◌, inl, inr,
}
use keyro_core.Host.Workers.{reap_turn, reap_from, reap}
use keyro_core.Host.Workers.Vectors.{
  get_elem?, swap_remove, count-swap_remove, length-swap_remove, get_elem?-swap_remove,
  get_elem?-length, length-get_elem?-none,
}

module _ {Worker : Type 0} (is_finished : Worker → Bool) where
  -- The workers before the index run.
  abbrev IsReaped : ℕ → List Worker → Type 0
  IsReaped index workers =
      (j : ℕ) (w : Worker) → j < index → get_elem? workers j ≡ some w → is_finished w ≡ false

  -- Workers of a kind that the loop keeps.
  abbrev running : (Worker → Bool) → Worker → Bool
  running p w = p w && not (is_finished w)

module _ {Worker : Type 0} (is_finished : Worker → Bool) where
  reap_none :
      (fuel index : ℕ) (workers : List Worker)
      → get_elem? workers index ≡ none
      → reap_from (suc fuel) is_finished index workers ≡ workers
  unfolding reap_from
  reap_none fuel index workers e = ground arith

  reap_finished :
      (fuel index : ℕ) (workers : List Worker) (w : Worker)
      → get_elem? workers index ≡ some w
      → is_finished w ≡ true
      → reap_from (suc fuel) is_finished index workers
        ≡ reap_from fuel is_finished index (swap_remove index workers)
  unfolding reap_from reap_turn
  reap_finished fuel index workers w e f = ground arith

  reap_running :
      (fuel index : ℕ) (workers : List Worker) (w : Worker)
      → get_elem? workers index ≡ some w
      → is_finished w ≡ false
      → reap_from (suc fuel) is_finished index workers
        ≡ reap_from fuel is_finished (suc index) workers
  unfolding reap_from reap_turn
  reap_running fuel index workers w e f = ground arith

  -- A running worker is never removed.
  count-reap_from :
      (p : Worker → Bool) (fuel index : ℕ) (workers : List Worker)
      → count (running is_finished p) (reap_from fuel is_finished index workers)
        ≡ count (running is_finished p) workers
  unfolding reap_from
  count-reap_from p zero index workers = refl
  count-reap_from p (suc fuel) index workers = elim (Option-cases (get_elem? workers index)) [
    | inl e ↦ rw (reap_none fuel index workers e) refl
    | inr (w, e) ↦ elim (Bool-cases (is_finished w)) [
      | inl f ↦ rw (reap_finished fuel index workers w e f) (
          ground (
            arith,
            count-reap_from p fuel index (swap_remove index workers),
            count-swap_remove (running is_finished p) index w workers e,
          ))
      | inr f ↦
          rw (reap_running fuel index workers w e f) (count-reap_from p fuel (suc index) workers)
    ]
  ]

  IsReaped-swap_remove :
      (index : ℕ) (workers : List Worker) (w : Worker)
      → get_elem? workers index ≡ some w
      → IsReaped is_finished index workers
      → IsReaped is_finished index (swap_remove index workers)
  IsReaped-swap_remove index workers w e h j v less found = h j v less (
      sym (get_elem?-swap_remove j index v workers less (get_elem?-length index w workers e))
      ∙ found)

  IsReaped-suc :
      (index : ℕ) (workers : List Worker) (w : Worker)
      → get_elem? workers index ≡ some w
      → is_finished w ≡ false
      → IsReaped is_finished index workers
      → IsReaped is_finished (suc index) workers
  IsReaped-suc index workers w e f h j v less found = elim (Bool-cases (j == index)) [
    | inl same ↦ ground arith
    | inr other ↦ h j v (ground arith) found
  ]

  none_finished :
      (index : ℕ) (workers : List Worker)
      → length workers ≤ index
      → IsReaped is_finished index workers
      → count is_finished workers ≡ 0
  none_finished index [] le h = refl
  none_finished zero (w ∷ ws) le h = absurd (omega arith)
  none_finished (suc index) (w ∷ ws) le h = ground (
    arith,
    h 0 w (omega arith) refl,
    none_finished index ws (omega arith) (λ j v less found. h (suc j) v (omega arith) found),
  )

  -- With fuel for each worker from the index on, no finished worker is left.
  reap_from-finished :
      (fuel index : ℕ) (workers : List Worker)
      → length workers ≤ index + fuel
      → IsReaped is_finished index workers
      → count is_finished (reap_from fuel is_finished index workers) ≡ 0
  unfolding reap_from
  reap_from-finished zero index workers le h = none_finished index workers (omega arith) h
  reap_from-finished (suc fuel) index workers le h = elim (Option-cases (get_elem? workers index)) [
    | inl e ↦
        rw (reap_none fuel index workers e)
          (none_finished index workers (length-get_elem?-none index workers e) h)
    | inr (w, e) ↦ elim (Bool-cases (is_finished w)) [
      | inl f ↦
          let shorter = length-swap_remove index w workers e in
          rw (reap_finished fuel index workers w e f) (
            reap_from-finished fuel index (swap_remove index workers) (omega arith)
              (IsReaped-swap_remove index workers w e h))
      | inr f ↦ rw (reap_running fuel index workers w e f) (
          reap_from-finished fuel (suc index) workers (omega arith)
            (IsReaped-suc index workers w e f h))
    ]
  ]

  count-running :
      (p : Worker → Bool) (workers : List Worker)
      → count is_finished workers ≡ 0
      → count p workers ≡ count (running is_finished p) workers
  count-running p [] h = refl
  count-running p (w ∷ ws) h = ground (arith, count-running p ws)

  -- The loop removes the finished workers and no other: of each kind of worker, as many remain as
  -- were running.
  pub count-reap :
      (p : Worker → Bool) (workers : List Worker)
      → count p (reap is_finished workers) ≡ count (λ w. p w && not (is_finished w)) workers
  unfolding reap
  count-reap p workers =
      count-running p (reap is_finished workers) (
        reap_from-finished (length workers) 0 workers (omega arith)
          (λ j v less. absurd (omega arith)))
      ∙ count-reap_from p (length workers) 0 workers
