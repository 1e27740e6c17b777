-- ===== src/Host/Instance/Exclusion.antt =====
-- Mutual exclusion by the lock of crates/keyro-core/src/single_instance.rs.
use keyro_core.Common.{
  ℕ, ◌≡◌, refl, ◌<◌, Bool, true, false, List, [], ◌∷◌, Option, none, some, Result, ok, err, is_ok,
  arith,
}
use keyro_core.Common.Decimal.{decimal}
use keyro_core.Common.Outcomes.{Returns, Returns-bind}
use keyro_core.Host.Instance.{
  LockFile, AcquireError, SingleInstanceGuard, Locking, unless_failed, system_call, create_dir_all,
  open_lock, take_lock, try_lock_exclusive, close, closed_on_error, locked, acquire,
}

abbrev pub IsSteady : (LockFile → Type 0) → Type 0
IsSteady P = (lock : LockFile) (faults : List Bool) → P lock → P (record lock { faults = faults })

pub system_call-Returns :
    {A : Type 0}
    → (P : LockFile → Type 0) (failed call : Locking A)
      (Q : Result AcquireError A → LockFile → Type 0)
    → IsSteady P
    → Returns P failed Q
    → Returns P call Q
    → Returns P (system_call failed call) Q
system_call-Returns {A} P failed call Q steady h k = record { at = λ lock p. go lock lock.faults p }
  where
    go :
        (lock : LockFile) (faults : List Bool)
        → P lock
        → Q (unless_failed faults failed call lock).0 (unless_failed faults failed call lock).1
    go lock [] p = k.at lock p
    go lock (false ∷ rest) p = k.at (record lock { faults = rest }) (steady lock rest p)
    go lock (true ∷ rest) p = h.at (record lock { faults = rest }) (steady lock rest p)

-- The lock belongs to the open file of a guard, whose process the file names.
pub record IsHeld (g : SingleInstanceGuard) (lock : LockFile) : Type 0 where
  pub holder : lock.holder ≡ some g.file
  pub content : lock.content ≡ decimal g.pid
  pub older : g.file < lock.opened

-- The lock is free.
pub record IsFree (lock : LockFile) : Type 0 where
  pub holder : lock.holder ≡ none

IsHeld-IsSteady : (g : SingleInstanceGuard) → IsSteady (IsHeld g)
IsHeld-IsSteady g lock faults h = record { holder = h.holder; content = h.content; older = h.older }

-- Another guard holds the lock: an attempt fails and leaves it to the other.
module _ (g : SingleInstanceGuard) where
  abbrev pub StaysHeld : {A : Type 0} → Result AcquireError A → LockFile → Type 0
  StaysHeld r lock = (is_ok r ≡ false) × IsHeld g lock

  -- The other file is older than the one that has just been opened.
  abbrev IsHeldBefore : ℕ → LockFile → Type 0
  IsHeldBefore file lock = IsHeld g lock × (g.file < file)

  abbrev Opens : Result AcquireError ℕ → LockFile → Type 0
  Opens (ok file) lock = IsHeldBefore file lock
  Opens (err _) lock = IsHeld g lock

  pub create_dir_all-IsHeld : Returns (IsHeld g) create_dir_all (λ _. IsHeld g)
  unfolding create_dir_all
  create_dir_all-IsHeld =
      system_call-Returns (IsHeld g) _ _ _ (IsHeld-IsSteady g) (record { at = λ lock h. h })
        (record { at = λ lock h. h })

  open_lock-IsHeld : Returns (IsHeld g) open_lock Opens
  unfolding open_lock
  open_lock-IsHeld =
      system_call-Returns (IsHeld g) _ _ Opens (IsHeld-IsSteady g) (record { at = λ lock h. h })
        (record {
          at = λ lock h. (
            record { holder = h.holder; content = h.content; older = omega (arith, h.older) },
            h.older,
          );
        })

  try_lock_exclusive-IsHeld : (file : ℕ) → Returns (IsHeld g) (try_lock_exclusive file) StaysHeld
  unfolding try_lock_exclusive
  try_lock_exclusive-IsHeld file =
      system_call-Returns (IsHeld g) _ _ StaysHeld (IsHeld-IsSteady g)
        (record { at = λ lock h. (refl, h) })
        (record { at = λ lock h. go lock lock.holder h h.holder })
    where
      go :
          (lock : LockFile) (o : Option ℕ)
          → IsHeld g lock
          → o ≡ some g.file
          → StaysHeld (take_lock file o lock).0 (take_lock file o lock).1
      go lock none h e = absurd (ground arith)
      go lock (some _) h e = (refl, h)

  locked-IsHeld : (pid file : ℕ) → Returns (IsHeld g) (locked pid file) StaysHeld
  unfolding locked
  locked-IsHeld pid file =
      Returns-bind (IsHeld g) StaysHeld StaysHeld (try_lock_exclusive file) _
        (try_lock_exclusive-IsHeld file)
        (λ _. record { at = λ lock h. absurd (ground (arith, h.0)) }) (λ e lock h. (refl, h.1))

  closed_on_error-IsHeld :
      (file : ℕ) (r : Result AcquireError SingleInstanceGuard) (lock : LockFile)
      → g.file < file
      → StaysHeld r lock
      → StaysHeld (closed_on_error file (r, lock)).0 (closed_on_error file (r, lock)).1
  unfolding close
  closed_on_error-IsHeld file (ok _) lock less (fail, h) = absurd (ground (arith, fail))
  closed_on_error-IsHeld file (err e) lock less (fail, h) =
      (refl, record { holder = ground (arith, h.holder); content = h.content; older = h.older })

  pub acquire-IsHeld : (pid : ℕ) → Returns (IsHeld g) (acquire pid) StaysHeld
  unfolding acquire
  acquire-IsHeld pid =
      Returns-bind (IsHeld g) (λ _. IsHeld g) StaysHeld create_dir_all _ create_dir_all-IsHeld
        (λ _.
          Returns-bind (IsHeld g) Opens StaysHeld open_lock _ open_lock-IsHeld
            (λ file. record {
              at = λ lock (h, less).
                  closed_on_error-IsHeld file (locked pid file lock).0 (locked pid file lock).1 less
                    ((locked-IsHeld pid file).at lock h);
            })
            (λ e lock h. (refl, h)))
        (λ e lock h. (refl, h))
