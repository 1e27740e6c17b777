-- ===== src/Host/Logs/Limits.antt =====
-- The limits that `cleanup_logs` of crates/keyro-core/src/logging.rs leaves the directory within, and
-- the files that it leaves alone.
use keyro_core.Common.{
  ℕ, zero, suc, ◌-◌, ◌≤◌, ◌<◌, ◌≡◌, refl, ◌∙◌, sym, subst, String, List, [], ◌∷◌, Option, none,
  some, ok, arith, append-nil, is_none, position, if◌then◌else◌,
}
use keyro_core.Common.Exec.{◌>>=◌}
use keyro_core.Common.Ensures.{Ensures, Ensures-bind, Ensures-weaken}
use keyro_core.Common.Ordered.{sort_by}
use keyro_core.Common.Totals.{marks, total-sort_by}
use keyro_core.Host.Logs.Disk.{Disk, DirEntry, Io, read_dir, listed, unless_failed}
use keyro_core.Host.Logs.Retention.{
  LogRetention, LogFile, max_u64, is_expired, enforce_limits, size_at, is_current_log, newest_first,
  validate_retention, retention_cutoff, cleanup_logs, scan,
}
use keyro_core.Host.Logs.Contents.{disk_logs, logs_of, has_path, AreDistinct}
use keyro_core.Host.Logs.Scan.{expired, IsScanned, scan-Ensures}
use keyro_core.Host.Logs.Current.{owed-one, owed_size}
use keyro_core.Host.Logs.Enforce.{IsEnforced, IsWithinLimits, enforce-Ensures}

-- A retention that `validate_retention` accepts, with a total that a `u64` sum can exceed.
pub record IsUsable (retention : LogRetention) : Type 0 where
  pub valid : validate_retention retention ≡ ok tt
  pub large : retention.max_total_bytes < max_u64

module _ (retention : LogRetention) (usable : IsUsable retention) where
  pub limits_positive :
      (1 ≤ retention.max_files) × (retention.max_file_bytes ≤ retention.max_total_bytes)
  unfolding validate_retention
  limits_positive = (ground (arith, usable.valid), ground (arith, usable.valid))

  size_at_fresh :
      (cutoff : ℕ) (files : List LogFile) (o : Option ℕ)
      → expired retention cutoff files ≡ 0
      → size_at files o ≤ retention.max_file_bytes
  size_at_fresh cutoff files none h = omega arith
  size_at_fresh cutoff [] (some i) h = omega arith
  size_at_fresh cutoff (f ∷ files) (some zero) h = ground arith
  size_at_fresh cutoff (f ∷ files) (some (suc i)) h =
      size_at_fresh cutoff files (some i) (ground arith)

  enforce_limits-Ensures :
      (cutoff : ℕ) (retained : List LogFile)
      → Ensures
          (IsScanned retention cutoff retained [])
          (enforce_limits retention retained)
          (λ _ disk. IsWithinLimits retention cutoff disk)
  unfolding enforce_limits
  enforce_limits-Ensures cutoff retained =
      Ensures-weaken _
        (IsEnforced retention cutoff current 0 (if is_none current then 0 else 1)
          (size_at files current) [] files)
        _ _ _ started (λ _ disk h. h)
        (enforce-Ensures retention cutoff files current 0 (if is_none current then 0 else 1)
          (size_at files current) [] usable.large)
    where
      files : List LogFile
      files = sort_by newest_first retained

      current : Option ℕ
      current = position is_current_log files

      started :
          (disk : Disk)
          → IsScanned retention cutoff retained [] disk
          → IsEnforced retention cutoff current 0
              (if is_none current then 0 else 1)
              (size_at files current)
              []
              files
              disk
      started disk h =
          let fresh : expired retention cutoff files ≡ 0 =
            total-sort_by newest_first (marks (is_expired retention cutoff)) retained ∙ h.fresh in
          let (one_file, fits) = limits_positive in
          record {
            same = λ w. (rw append-nil at h.same) w ∙ sym (total-sort_by newest_first w retained);
            distinct = λ path. omega (
              arith,
              (rw append-nil at h.distinct) path,
              total-sort_by newest_first (marks (has_path path)) retained,
            );
            fresh = fresh;
            counted = ground (arith, owed-one is_current_log files);
            summed = omega (arith, owed_size is_current_log files);
            few = ground arith;
            small = omega (arith, fits, size_at_fresh cutoff files current fresh);
          }

  -- The clock and the directory as a cleanup finds them.
  abbrev Starts : ℕ → Disk → Type 0
  Starts now disk = (disk.clock disk.reads ≡ now) × AreDistinct (disk_logs disk)

  cutoff-Ensures :
      (now : ℕ)
      → Ensures
          (Starts now)
          (retention_cutoff retention)
          (λ cutoff disk. (cutoff ≡ now - retention.max_age) × AreDistinct (disk_logs disk))
  unfolding retention_cutoff
  cutoff-Ensures now = record { at = λ disk (clock, distinct) cutoff e. (ground arith, distinct) }

  pub read_dir-Ensures :
      (cutoff : ℕ)
      → Ensures
          (λ disk. AreDistinct (disk_logs disk))
          read_dir
          (λ entries disk. IsScanned retention cutoff [] (logs_of entries) disk)
  unfolding read_dir
  read_dir-Ensures cutoff = record {
    at = λ disk distinct entries e. go disk disk.faults distinct entries e;
  }
    where
      seen :
          (disk : Disk)
          → AreDistinct (disk_logs disk)
          → IsScanned retention cutoff [] (logs_of (listed disk.entries)) disk
      seen disk distinct = record { same = λ w. refl; distinct = distinct; fresh = refl }

      look : Io (List DirEntry)
      look = λ disk. (ok (listed disk.entries), disk)

      go :
          (disk : Disk) (faults : List (Option String))
          → AreDistinct (disk_logs disk)
          → (entries : List DirEntry) → (unless_failed faults look disk).0 ≡ ok entries
          → IsScanned retention cutoff [] (logs_of entries) (unless_failed faults look disk).1
      go disk [] distinct entries e =
          let same : listed disk.entries ≡ entries = ground arith in
          rw (← same) (seen disk distinct)
      go disk (none ∷ rest) distinct entries e =
          let same : listed disk.entries ≡ entries = ground arith in
          rw (← same) (seen (record disk { faults = rest }) distinct)
      go disk (some text ∷ rest) distinct entries e = absurd (ground arith)

  rest-Ensures :
      (cutoff : ℕ)
      → Ensures
          (λ disk. AreDistinct (disk_logs disk))
          (read_dir >>= λ entries.
            scan retention cutoff [] entries >>= λ retained. enforce_limits retention retained)
          (λ _ disk. IsWithinLimits retention cutoff disk)
  rest-Ensures cutoff = Ensures-bind _ _ _ read_dir _ (read_dir-Ensures cutoff) λ entries.
      Ensures-bind _ _ _ (scan retention cutoff [] entries) _
        (scan-Ensures retention cutoff entries []) (enforce_limits-Ensures cutoff)

  -- With a retention that `validate_retention` accepts and a total below the largest `u64`, after a
  -- cleanup that succeeds, on a directory where no two log files have the same name: the log files
  -- that can be dated are `max_files` at most, hold `max_total_bytes` at most, and none of them is
  -- larger than `max_file_bytes` or older than the cutoff.
  pub cleanup_logs-IsWithinLimits :
      (disk : Disk)
      → AreDistinct (disk_logs disk)
      → (cleanup_logs retention disk).0 ≡ ok tt
      → IsWithinLimits retention
          (disk.clock disk.reads - retention.max_age)
          (cleanup_logs retention disk).1
  unfolding cleanup_logs
  cleanup_logs-IsWithinLimits disk distinct done = whole.at disk (refl, distinct) tt done
    where
      now : ℕ
      now = disk.clock disk.reads

      cutoff : ℕ
      cutoff = now - retention.max_age

      rest : ℕ → Io (Unit {0})
      rest cutoff = read_dir >>= λ entries.
          scan retention cutoff [] entries >>= λ retained. enforce_limits retention retained

      whole :
          Ensures
            (Starts now)
            (cleanup_logs retention)
            (λ _ disk. IsWithinLimits retention cutoff disk)
      whole =
          Ensures-bind (Starts now) (λ a disk. (a ≡ cutoff) × AreDistinct (disk_logs disk))
            (λ _ disk. IsWithinLimits retention cutoff disk) (retention_cutoff retention) rest
            (cutoff-Ensures now)
            λ a. record {
              at = λ disk (same, distinct) r e.
                  subst (λ c. IsWithinLimits retention c (rest a disk).1) same
                    ((rest-Ensures a).at disk distinct r e);
            }
