-- ===== src/Host/Instance/Taking.antt =====
-- An attempt to take the free lock of crates/keyro-core/src/single_instance.rs.
use keyro_core.Common.{
  ℕ, ◌≡◌, refl, ◌<◌, ◌⊎◌, inl, inr, String, Option, none, some, Result, ok, err, arith,
}
use keyro_core.Common.Decimal.{decimal}
use keyro_core.Common.Outcomes.{Returns, Returns-bind}
use keyro_core.Host.Instance.{
  LockFile, AcquireError, SingleInstanceGuard, create_dir_all, open_lock, take_lock,
  try_lock_exclusive, set_len, overwritten, write_all, close, closed_on_error, locked, acquire,
}
use keyro_core.Host.Instance.Exclusion.{IsSteady, system_call-Returns, IsHeld, IsFree}

-- Nobody holds the lock: an attempt takes it, or fails and leaves it free.
IsFree-IsSteady : IsSteady IsFree
IsFree-IsSteady lock faults h = record { holder = h.holder }

abbrev pub Takes : ℕ → Result AcquireError SingleInstanceGuard → LockFile → Type 0
Takes pid (ok g) lock = (g.pid ≡ pid) × IsHeld g lock
Takes pid (err _) lock = IsFree lock

-- The open file is the next to the last, and owns the lock.
record IsOwned (file : ℕ) (lock : LockFile) : Type 0 where
  pub holder : lock.holder ≡ some file
  pub older : file < lock.opened

overwritten_empty : (text : String) → overwritten text "" ≡ text
unfolding overwritten
overwritten_empty String.[] = refl
overwritten_empty (String.◌∷◌ c text) = refl

module _ (file : ℕ) where
  IsOwned-IsSteady : IsSteady (IsOwned file)
  IsOwned-IsSteady lock faults h = record { holder = h.holder; older = h.older }

  abbrev IsFreeBefore : LockFile → Type 0
  IsFreeBefore lock = IsFree lock × (file < lock.opened)

  abbrev Locks : Result AcquireError (Unit {0}) → LockFile → Type 0
  Locks (ok _) lock = IsOwned file lock
  Locks (err _) lock = IsFree lock

  try_lock_exclusive-IsFree : Returns IsFreeBefore (try_lock_exclusive file) Locks
  unfolding try_lock_exclusive
  try_lock_exclusive-IsFree =
      system_call-Returns IsFreeBefore _ _ Locks
        (λ lock faults (h, less). (IsFree-IsSteady lock faults h, less))
        (record { at = λ lock (h, less). h })
        (record { at = λ lock (h, less). go lock lock.holder h.holder less })
    where
      go :
          (lock : LockFile) (o : Option ℕ)
          → o ≡ none
          → file < lock.opened
          → Locks (take_lock file o lock).0 (take_lock file o lock).1
      go lock none e less = record { holder = refl; older = less }
      go lock (some _) e less = absurd (ground arith)

  abbrev Writes : String → Result AcquireError (Unit {0}) → LockFile → Type 0
  Writes text (ok _) lock = IsOwned file lock × (lock.content ≡ text)
  Writes text (err _) lock = IsOwned file lock

  -- The file after it has been truncated.
  abbrev IsOwnedEmpty : LockFile → Type 0
  IsOwnedEmpty lock = IsOwned file lock × (lock.content ≡ "")

  set_len-IsOwned : Returns (IsOwned file) set_len (Writes "")
  unfolding set_len
  set_len-IsOwned =
      system_call-Returns (IsOwned file) _ _ (Writes "") IsOwned-IsSteady
        (record { at = λ lock h. h })
        (record { at = λ lock h. (record { holder = h.holder; older = h.older }, refl) })

  write_all-IsOwned : (text : String) → Returns IsOwnedEmpty (write_all text) (Writes text)
  unfolding write_all
  write_all-IsOwned text =
      system_call-Returns IsOwnedEmpty _ _ (Writes text)
        (λ lock faults (h, e). (IsOwned-IsSteady lock faults h, e))
        (record { at = λ lock (h, e). record { holder = h.holder; older = h.older } })
        (record {
          at = λ lock (h, e).
              (record { holder = h.holder; older = h.older }, rw e (overwritten_empty text));
        })

  -- Before the file is dropped on an error.
  abbrev Leaves : ℕ → Result AcquireError SingleInstanceGuard → LockFile → Type 0
  Leaves pid (ok g) lock = (g.pid ≡ pid) × IsHeld g lock
  Leaves pid (err _) lock = IsFree lock ⊎ IsOwned file lock

  locked-IsFree : (pid : ℕ) → Returns IsFreeBefore (locked pid file) (Leaves pid)
  unfolding locked
  locked-IsFree pid =
      Returns-bind IsFreeBefore Locks (Leaves pid) (try_lock_exclusive file) _
        try_lock_exclusive-IsFree
        (λ _.
          Returns-bind (IsOwned file) (Writes "") (Leaves pid) set_len _ set_len-IsOwned
            (λ _.
              Returns-bind IsOwnedEmpty (Writes (decimal pid)) (Leaves pid)
                (write_all (decimal pid)) _ (write_all-IsOwned (decimal pid))
                (λ _. record {
                  at = λ lock (h, content).
                      (refl, record { holder = h.holder; content = content; older = h.older });
                })
                (λ e lock h. inr h))
            (λ e lock h. inr h))
        (λ e lock h. inl h)

  closed_on_error-IsFree :
      (pid : ℕ) (r : Result AcquireError SingleInstanceGuard) (lock : LockFile)
      → Leaves pid r lock
      → Takes pid (closed_on_error file (r, lock)).0 (closed_on_error file (r, lock)).1
  unfolding close
  closed_on_error-IsFree pid (ok g) lock h = h
  closed_on_error-IsFree pid (err e) lock (inl h) = record { holder = ground (arith, h.holder) }
  closed_on_error-IsFree pid (err e) lock (inr h) = record { holder = ground (arith, h.holder) }

abbrev OpensFree : Result AcquireError ℕ → LockFile → Type 0
OpensFree (ok file) lock = IsFreeBefore file lock
OpensFree (err _) lock = IsFree lock

pub create_dir_all-IsFree : Returns IsFree create_dir_all (λ _. IsFree)
unfolding create_dir_all
create_dir_all-IsFree =
    system_call-Returns IsFree _ _ _ IsFree-IsSteady (record { at = λ lock h. h })
      (record { at = λ lock h. h })

pub acquire-IsFree : (pid : ℕ) → Returns IsFree (acquire pid) (Takes pid)
unfolding acquire open_lock
acquire-IsFree pid =
    Returns-bind IsFree (λ _. IsFree) (Takes pid) create_dir_all _ create_dir_all-IsFree
      (λ _.
        Returns-bind IsFree OpensFree (Takes pid) open_lock _
          (system_call-Returns IsFree _ _ OpensFree IsFree-IsSteady (record { at = λ lock h. h })
            (record { at = λ lock h. (record { holder = h.holder }, omega arith) }))
          (λ file. record {
            at = λ lock h.
                closed_on_error-IsFree file pid (locked pid file lock).0 (locked pid file lock).1
                  ((locked-IsFree file pid).at lock h);
          })
          (λ e lock h. h))
      (λ e lock h. h)
