-- ===== src/Host/Instance/Processes.antt =====
-- The processes that start and end around the lock of crates/keyro-core/src/single_instance.rs.
use keyro_core.Common.{
  ℕ, ◌≡◌, refl, sym, ◌∙◌, subst, is_none, ◌⊎◌, inl, inr, List, [], ◌∷◌, ◌++◌, Option, none, some,
  ok, err, is_ok, is_empty, arith,
}
use keyro_core.Host.Instance.{
  LockFile, AcquireError, SingleInstanceGuard, acquire, close, create_dir_all, open_lock, locked,
  try_lock_exclusive, set_len, write_all,
}
use keyro_core.Host.Instance.Exclusion.{IsHeld, IsFree, acquire-IsHeld}
use keyro_core.Host.Instance.Taking.{Takes, acquire-IsFree}

-- The lock file, and the guards that are alive.
pub record Processes : Type 0 where
  pub lock : LockFile
  pub guards : List SingleInstanceGuard

pub data Step (s : Processes) : Processes → Type 0 where
  acquired :
      (pid : ℕ) {g : SingleInstanceGuard}
      → (acquire pid s.lock).0 ≡ ok g
      → Step s (record { lock = (acquire pid s.lock).1; guards = g ∷ s.guards })
  refused :
      (pid : ℕ) {e : AcquireError}
      → (acquire pid s.lock).0 ≡ err e
      → Step s (record s { lock = (acquire pid s.lock).1 })
  -- The drop of a guard, or the end of its process, at which the system closes the file.
  dropped :
      (before later : List SingleInstanceGuard) (g : SingleInstanceGuard)
      → s.guards ≡ before ++ g ∷ later
      → Step s (record { lock = close g.file s.lock; guards = before ++ later })

-- From a lock that nobody holds.
pub data Reach : Processes → Type 0 where
  start : (lock : LockFile) → lock.holder ≡ none → Reach (record { lock = lock; guards = [] })
  onward : {s t : Processes} → Reach s → Step s t → Reach t

-- No guard and a free lock, or one guard, which holds it.
abbrev pub IsExclusive : Processes → Type 0
IsExclusive s =
    ((s.guards ≡ []) × IsFree s.lock)
    ⊎ ((g : SingleInstanceGuard) × (s.guards ≡ g ∷ []) × IsHeld g s.lock)

split_one :
    (before later : List SingleInstanceGuard) (g h : SingleInstanceGuard)
    → h ∷ [] ≡ before ++ g ∷ later
    → (before ++ later ≡ []) × (h ≡ g)
split_one [] later g h e = (ground arith, ground arith)
split_one (x ∷ []) later g h e = absurd (ground arith)
split_one (x ∷ y ∷ before) later g h e = absurd (ground arith)

none_dropped :
    (before later : List SingleInstanceGuard) (g : SingleInstanceGuard)
    → ¬ ([] ≡ before ++ g ∷ later)
none_dropped [] later g e = ground arith
none_dropped (x ∷ before) later g e = ground arith

close-IsFree :
    (g : SingleInstanceGuard) (lock : LockFile) → IsHeld g lock → IsFree (close g.file lock)
unfolding close
close-IsFree g lock h = record { holder = ground (arith, h.holder) }

Step-IsExclusive : {s t : Processes} → Step s t → IsExclusive s → IsExclusive t
Step-IsExclusive {s} (acquired pid {g} e) (inl (empty, free)) =
    let taken = (acquire-IsFree pid).at s.lock free in
    let held : Takes pid (ok g) (acquire pid s.lock).1 =
      subst (λ r. Takes pid r (acquire pid s.lock).1) e taken in
    inr (g, rw empty refl, held.1)
Step-IsExclusive {s} (acquired pid e) (inr (h, one, held)) =
    absurd (ground (arith, e, ((acquire-IsHeld h pid).at s.lock held).0))
Step-IsExclusive {s} (refused pid {e} r) (inl (empty, free)) =
    inl (
      empty,
      subst (λ r. Takes pid r (acquire pid s.lock).1) r ((acquire-IsFree pid).at s.lock free),
    )
Step-IsExclusive {s} (refused pid e) (inr (h, one, held)) =
    inr (h, one, ((acquire-IsHeld h pid).at s.lock held).1)
Step-IsExclusive {s} (dropped before later g e) (inl (empty, free)) =
    absurd (none_dropped before later g (sym empty ∙ e))
Step-IsExclusive {s} (dropped before later g e) (inr (h, one, held)) =
    let (rest, same) = split_one before later g h (sym one ∙ e) in
    inl (rest, close-IsFree g s.lock (subst (λ k. IsHeld k s.lock) same held))

-- From a free lock, whatever processes start and end, in any order, and whatever calls fail: at
-- most one guard is alive, and while it is, it holds the lock and the lock file names its process;
-- while none is, the lock is free.
pub Reach-IsExclusive : {s : Processes} → Reach s → IsExclusive s
Reach-IsExclusive (start lock free) = inl (refl, record { holder = free })
Reach-IsExclusive (onward reach step) = Step-IsExclusive step (Reach-IsExclusive reach)

acquire-take_lock :
    (pid : ℕ) (lock : LockFile)
    → is_ok (acquire pid (record lock { faults = [] })).0 ≡ is_none lock.holder
unfolding acquire create_dir_all open_lock locked try_lock_exclusive set_len write_all
acquire-take_lock pid lock = go lock.holder refl
  where
    go :
        (o : Option ℕ)
        → lock.holder ≡ o
        → is_ok (acquire pid (record lock { faults = [] })).0 ≡ is_none lock.holder
    go none e = ground (arith, e)
    go (some h) e = ground (arith, e)

-- In every reachable state, where no call fails, an attempt to start succeeds exactly when no guard
-- is alive: no lock outlives its process.
pub acquire-is_empty :
    {s : Processes}
    → (pid : ℕ) → Reach s
    → is_ok (acquire pid (record s.lock { faults = [] })).0 ≡ is_empty s.guards
acquire-is_empty {s} pid reach = acquire-take_lock pid s.lock ∙ go (Reach-IsExclusive reach)
  where
    go : IsExclusive s → is_none s.lock.holder ≡ is_empty s.guards
    go (inl (empty, free)) = ground (arith, free.holder, empty)
    go (inr (g, one, held)) = ground (arith, held.holder, one)
