-- ===== src/Host/Logs/Calm.antt =====
-- The calls of crates/keyro-core/src/logging.rs where none of them fails.
use keyro_core.Common.{
  ℕ, ◌-◌, ◌≡◌, refl, ◌≤◌, String, Bool-cases, inl, inr, true, List, [], ◌∷◌, Option, none, some, ok,
  find, arith, leb, length,
}
use keyro_core.Common.Ensures.{Preserves}
use keyro_core.Common.Outcomes.{Runs}
use keyro_core.Host.Logs.Disk.{
  Disk, LogEntry, Io, unless_failed, taken, system_call, harmless, exists, remove_file, rename_file,
  read_dir, listed, open_append, create_or, file_write,
}
use keyro_core.Host.Logs.Retention.{LogRetention, retention_cutoff, if_exists}
use keyro_core.Host.Logs.Keeping.{
  harmless-Preserves, read_dir-Preserves, retention_cutoff-Preserves,
}
use keyro_core.Host.Logs.Rotating.{if_exists-Preserves}
use keyro_core.Host.Logs.Ownership.{IsDirectory-IsCleanable, IsDirectory-IsRotatable}
use keyro_core.Host.Logs.Directory.{
  has_name, IsDirectory, remove_file-IsDirectory, open_append-IsDirectory, file_write-IsDirectory,
  IsDirectory-IsSteady,
}
use keyro_core.Host.Logs.Renaming.{rename_file-IsDirectory}

-- No call fails, and the clock is past the age that the retention allows.
pub record IsQuiet (max_age : ℕ) (disk : Disk) : Type 0 where
  pub faults : disk.faults ≡ []
  pub late : (n : ℕ) → max_age ≤ disk.clock n

pub system_call-Runs :
    {A : Type 0}
    → (P : Disk → Type 0) (call : Io A) (Q : A → Disk → Type 0)
    → ((disk : Disk) → P disk → disk.faults ≡ [])
    → Runs P call Q
    → Runs P (system_call call) Q
system_call-Runs {A} P call Q quiet h = record {
  at = λ disk p. go disk disk.faults (quiet disk p) p;
}
  where
    go :
        (disk : Disk) (faults : List (Option String))
        → faults ≡ []
        → P disk
        → (a : A) × ((unless_failed faults call disk).0 ≡ ok a)
          × Q a (unless_failed faults call disk).1
    go disk [] e p = h.at disk p
    go disk (_ ∷ _) e p = absurd (ground arith)

module _ (max_age : ℕ) where
  abbrev Quiet : Disk → Type 0
  Quiet = IsQuiet max_age

  pub Quiet-faults : (disk : Disk) → Quiet disk → disk.faults ≡ []
  Quiet-faults disk h = h.faults

  -- The directory as it is between calls, in quiet times.
  abbrev pub IsCalm : Disk → Type 0
  IsCalm disk = IsDirectory disk × Quiet disk

  -- A call that runs in quiet times and keeps the directory.
  pub Runs-IsCalm :
      {A : Type 0}
      → (m : Io A) → Preserves IsDirectory m
      → Runs Quiet m (λ _. Quiet)
      → Runs IsCalm m (λ _. IsCalm)
  Runs-IsCalm m keep h = record {
    at = λ disk (p, q). let (a, e, q') = h.at disk q in (a, e, (keep.at disk p, q'));
  }

  harmless-Quiet : Runs Quiet harmless (λ _. Quiet)
  unfolding harmless
  harmless-Quiet = system_call-Runs Quiet _ _ Quiet-faults (record { at = λ disk q. (tt, refl, q) })

  pub harmless-IsCalm : Runs IsCalm harmless (λ _. IsCalm)
  harmless-IsCalm =
      Runs-IsCalm harmless (harmless-Preserves IsDirectory IsDirectory-IsSteady) harmless-Quiet

  read_dir-Quiet : Runs Quiet read_dir (λ _. Quiet)
  unfolding read_dir
  read_dir-Quiet =
      system_call-Runs Quiet _ _ Quiet-faults
        (record { at = λ disk q. (listed disk.entries, refl, q) })

  pub read_dir-IsCalm : Runs IsCalm read_dir (λ _. IsCalm)
  read_dir-IsCalm =
      Runs-IsCalm read_dir (read_dir-Preserves IsDirectory IsDirectory-IsSteady) read_dir-Quiet

  abbrev Exists : String → Disk → Type 0
  Exists path disk = Quiet disk × (exists path disk ≡ true)

  remove_file-Quiet : (path : String) → Runs (Exists path) (remove_file path) (λ _. Quiet)
  unfolding remove_file
  remove_file-Quiet path =
      system_call-Runs (Exists path) _ _ (λ disk h. h.0.faults)
        (record {
          at = λ disk (q, e). rw e (tt, refl, record { faults = q.faults; late = q.late });
        })

  pub remove_file-IsCalm :
      (path : String)
      → Runs (λ disk. IsCalm disk × (exists path disk ≡ true)) (remove_file path) (λ _. IsCalm)
  remove_file-IsCalm path = record {
    at = λ disk ((p, q), e).
        let (a, r, q') = (remove_file-Quiet path).at disk (q, e) in
        (a, r, ((remove_file-IsDirectory path).at disk p, q'));
  }

  rename_file-Quiet :
      (source target : String) → Runs (Exists source) (rename_file source target) (λ _. Quiet)
  unfolding rename_file
  rename_file-Quiet source target =
      system_call-Runs (Exists source) _ _ (λ disk h. h.0.faults)
        (record {
          at = λ disk (q, e). rw e (tt, refl, record { faults = q.faults; late = q.late });
        })

  if_exists-Quiet :
      (path : String) (call : Io (Unit {0}))
      → Runs (Exists path) call (λ _. Quiet)
      → Runs Quiet (if_exists path call) (λ _. Quiet)
  unfolding if_exists
  if_exists-Quiet path call h = record {
    at = λ disk q. elim (Bool-cases (exists path disk)) [
      | inl e ↦ rw e (h.at disk (q, e))
      | inr e ↦ rw e (tt, refl, q)
    ];
  }

  pub removing-IsCalm :
      (path : String) → Runs IsCalm (if_exists path (remove_file path)) (λ _. IsCalm)
  removing-IsCalm path =
      Runs-IsCalm (if_exists path (remove_file path))
        (if_exists-Preserves IsDirectory IsDirectory-IsRotatable path (remove_file path)
          (remove_file-IsDirectory path))
        (if_exists-Quiet path (remove_file path) (remove_file-Quiet path))

  pub renaming-IsCalm :
      (source target : String)
      → Runs IsCalm (if_exists source (rename_file source target)) (λ _. IsCalm)
  renaming-IsCalm source target =
      Runs-IsCalm (if_exists source (rename_file source target))
        (if_exists-Preserves IsDirectory IsDirectory-IsRotatable source (rename_file source target)
          (rename_file-IsDirectory source target))
        (if_exists-Quiet source (rename_file source target) (rename_file-Quiet source target))

  create_or-Quiet :
      (path : String) (disk : Disk) (o : Option LogEntry)
      → Quiet disk
      → (file : ℕ) × ((create_or path o disk).0 ≡ ok file) × Quiet (create_or path o disk).1
  unfolding create_or
  create_or-Quiet path disk none q =
      (disk.next_inode, refl, record { faults = q.faults; late = q.late })
  create_or-Quiet path disk (some e) q = (e.inode, refl, q)

  open_append-Quiet : (path : String) → Runs Quiet (open_append path) (λ _. Quiet)
  unfolding open_append
  open_append-Quiet path =
      system_call-Runs Quiet _ _ Quiet-faults
        (record { at = λ disk q. create_or-Quiet path disk (find (has_name path) disk.entries) q })

  pub open_append-IsCalm : (path : String) → Runs IsCalm (open_append path) (λ _. IsCalm)
  open_append-IsCalm path =
      Runs-IsCalm (open_append path) (open_append-IsDirectory path) (open_append-Quiet path)

  file_write-Quiet : (file : ℕ) (bytes : List ℕ) → Runs Quiet (file_write file bytes) (λ _. Quiet)
  unfolding file_write
  file_write-Quiet file bytes = system_call-Runs Quiet _ _ Quiet-faults (record {
    at = λ disk q.
        (taken disk.caps (length bytes), refl, record { faults = q.faults; late = q.late });
  })

  pub file_write-IsCalm :
      (file : ℕ) (bytes : List ℕ) → Runs IsCalm (file_write file bytes) (λ _. IsCalm)
  file_write-IsCalm file bytes =
      Runs-IsCalm (file_write file bytes) (file_write-IsDirectory file bytes)
        (file_write-Quiet file bytes)

-- A retention's age is what the clock is past.
module _ (retention : LogRetention) where
  retention_cutoff-Quiet :
      Runs (IsQuiet retention.max_age) (retention_cutoff retention) (λ _. IsQuiet retention.max_age)
  unfolding retention_cutoff
  retention_cutoff-Quiet = record {
    at = λ disk q.
        let h : leb retention.max_age (disk.clock disk.reads) ≡ true =
          ground (arith, q.late disk.reads) in
        rw h (
          disk.clock disk.reads - retention.max_age,
          refl,
          record { faults = q.faults; late = q.late },
        );
  }

  pub retention_cutoff-IsCalm :
      Runs (IsCalm retention.max_age) (retention_cutoff retention) (λ _. IsCalm retention.max_age)
  retention_cutoff-IsCalm =
      Runs-IsCalm retention.max_age (retention_cutoff retention)
        (retention_cutoff-Preserves IsDirectory IsDirectory-IsCleanable retention)
        retention_cutoff-Quiet
