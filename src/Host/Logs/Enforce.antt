-- ===== src/Host/Logs/Enforce.antt =====
-- The loop of `cleanup_logs` over the sorted files in crates/keyro-core/src/logging.rs: it keeps the
-- current log and, newest first, what the limits still allow.
use keyro_core.Common.{
  ℕ, suc, ◌+◌, ◌≤◌, ◌<◌, ◌≡◌, ◌∙◌, Bool-cases, inl, inr, true, false, List, [], ◌∷◌, ◌++◌, Option,
  none, some, total, arith, append_assoc, append-nil,
}
use keyro_core.Common.Exec.{◌>>◌}
use keyro_core.Common.Ensures.{Ensures, Ensures-bind, Ensures-pure, Ensures-weaken}
use keyro_core.Common.Totals.{SameElements, marks, total-append}
use keyro_core.Host.Logs.Disk.{Disk, remove_file}
use keyro_core.Host.Logs.Retention.{
  LogRetention, LogFile, max_u64, saturating_add, is_expired, is_index, is_over, enforce,
}
use keyro_core.Host.Logs.Contents.{disk_logs, AreDistinct, remove_file-Ensures}
use keyro_core.Host.Logs.Current.{one, size, owed, owed_past}
use keyro_core.Host.Logs.Scan.{expired, less_distinct}

module _ (retention : LogRetention) where
  pub enforce_current :
      (current : Option ℕ) (index kept_files total_bytes : ℕ) (f : LogFile) (files : List LogFile)
      → is_index current index ≡ true
      → enforce retention current index kept_files total_bytes (f ∷ files)
        ≡ enforce retention current (suc index) kept_files total_bytes files
  unfolding enforce
  enforce_current current index kept_files total_bytes f files e = ground arith

  pub enforce_over :
      (current : Option ℕ) (index kept_files total_bytes : ℕ) (f : LogFile) (files : List LogFile)
      → is_index current index ≡ false
      → is_over retention kept_files total_bytes f ≡ true
      → enforce retention current index kept_files total_bytes (f ∷ files)
        ≡ remove_file f.path >> enforce retention current (suc index) kept_files total_bytes files
  unfolding enforce
  enforce_over current index kept_files total_bytes f files e over = ground arith

  pub enforce_kept :
      (current : Option ℕ) (index kept_files total_bytes : ℕ) (f : LogFile) (files : List LogFile)
      → is_index current index ≡ false
      → is_over retention kept_files total_bytes f ≡ false
      → enforce retention current index kept_files total_bytes (f ∷ files)
        ≡ enforce retention current
            (suc index)
            (suc kept_files)
            (saturating_add total_bytes f.size)
            files
  unfolding enforce
  enforce_kept current index kept_files total_bytes f files e over = ground arith

module _ (retention : LogRetention) (cutoff : ℕ) where
  -- What the kept files and the files to come hold, and what the loop has counted.
  pub record IsEnforced (current : Option ℕ) (index kept_files total_bytes : ℕ)
      (kept files : List LogFile) (disk : Disk) : Type 0 where
    pub same : SameElements (disk_logs disk) (kept ++ files)
    pub distinct : AreDistinct (kept ++ files)
    pub fresh : expired retention cutoff (kept ++ files) ≡ 0
    pub counted : kept_files ≡ total one kept + owed one current index files
    pub summed : total_bytes ≡ total size kept + owed size current index files
    pub few : kept_files ≤ retention.max_files
    pub small : total_bytes ≤ retention.max_total_bytes

  -- The log files are within the limits.
  pub record IsWithinLimits (disk : Disk) : Type 0 where
    pub few : total one (disk_logs disk) ≤ retention.max_files
    pub small : total size (disk_logs disk) ≤ retention.max_total_bytes
    pub fresh : expired retention cutoff (disk_logs disk) ≡ 0

  at_end :
      (current : Option ℕ) (index kept_files total_bytes : ℕ) (kept : List LogFile) (disk : Disk)
      → IsEnforced current index kept_files total_bytes kept [] disk
      → IsWithinLimits disk
  at_end current index kept_files total_bytes kept disk h =
      let same : SameElements (disk_logs disk) kept = rw append-nil at h.same in
      record {
        few = omega (arith, h.few, h.counted, same one);
        small = omega (arith, h.small, h.summed, same size);
        fresh = same (marks (is_expired retention cutoff)) ∙ rw append-nil at h.fresh;
      }

  passed :
      (current : Option ℕ) (index kept_files total_bytes : ℕ) (kept : List LogFile) (f : LogFile)
      (files : List LogFile) (disk : Disk)
      → is_index current index ≡ true
      → IsEnforced current index kept_files total_bytes kept (f ∷ files) disk
      → IsEnforced current (suc index) kept_files total_bytes (kept ++ f ∷ []) files disk
  passed none index kept_files total_bytes kept f files disk e h = absurd (ground arith)
  passed (some i) index kept_files total_bytes kept f files disk e h = record {
    same = rw append_assoc h.same;
    distinct = rw append_assoc h.distinct;
    fresh = rw append_assoc h.fresh;
    counted =
        ground
          (arith, h.counted, total-append one kept (f ∷ []), owed_past one i (suc index) files);
    summed =
        ground
          (arith, h.summed, total-append size kept (f ∷ []), owed_past size i (suc index) files);
    few = h.few;
    small = h.small;
  }

  dropped :
      (current : Option ℕ) (index kept_files total_bytes : ℕ) (kept : List LogFile) (f : LogFile)
      (files : List LogFile)
      → is_index current index ≡ false
      → Ensures
          (IsEnforced current index kept_files total_bytes kept (f ∷ files))
          (remove_file f.path)
          (λ _ disk. IsEnforced current (suc index) kept_files total_bytes kept files disk)
  dropped current index kept_files total_bytes kept f files e = record {
    at = λ disk h _ done. record {
      same = (remove_file-Ensures kept f files h.distinct).at disk h.same tt done;
      distinct = less_distinct retention cutoff kept f files h.distinct;
      fresh = omega (
        arith,
        h.fresh,
        total-append (marks (is_expired retention cutoff)) kept (f ∷ files),
        total-append (marks (is_expired retention cutoff)) kept files,
      );
      counted = ground (arith, h.counted);
      summed = ground (arith, h.summed);
      few = h.few;
      small = h.small;
    };
  }

  admitted :
      (current : Option ℕ) (index kept_files total_bytes : ℕ) (kept : List LogFile) (f : LogFile)
      (files : List LogFile) (disk : Disk)
      → retention.max_total_bytes < max_u64
      → is_index current index ≡ false
      → is_over retention kept_files total_bytes f ≡ false
      → IsEnforced current index kept_files total_bytes kept (f ∷ files) disk
      → IsEnforced current
          (suc index)
          (suc kept_files)
          (saturating_add total_bytes f.size)
          (kept ++ f ∷ [])
          files
          disk
  admitted current index kept_files total_bytes kept f files disk large e over h = record {
    same = rw append_assoc h.same;
    distinct = rw append_assoc h.distinct;
    fresh = rw append_assoc h.fresh;
    counted = ground (arith, h.counted, total-append one kept (f ∷ []));
    summed = ground (arith, h.summed, total-append size kept (f ∷ []));
    few = ground arith;
    small = ground arith;
  }

  pub enforce-Ensures :
      (files : List LogFile) (current : Option ℕ) (index kept_files total_bytes : ℕ)
      (kept : List LogFile)
      → retention.max_total_bytes < max_u64
      → Ensures
          (IsEnforced current index kept_files total_bytes kept files)
          (enforce retention current index kept_files total_bytes files)
          (λ _ disk. IsWithinLimits disk)
  unfolding enforce
  enforce-Ensures [] current index kept_files total_bytes kept large =
      Ensures-pure _ _ tt (at_end current index kept_files total_bytes kept)
  enforce-Ensures (f ∷ files) current index kept_files total_bytes kept large =
      elim (Bool-cases (is_index current index)) [
        | inl e ↦ rw (enforce_current retention current index kept_files total_bytes f files e) (
            Ensures-weaken _ _ _ _ _
              (λ disk. passed current index kept_files total_bytes kept f files disk e)
              (λ _ disk h. h)
              (enforce-Ensures files current (suc index) kept_files total_bytes (kept ++ f ∷ [])
                large))
        | inr e ↦ elim (Bool-cases (is_over retention kept_files total_bytes f)) [
          | inl over ↦
              rw (enforce_over retention current index kept_files total_bytes f files e over) (
                Ensures-bind _ _ _ (remove_file f.path) _
                  (dropped current index kept_files total_bytes kept f files e)
                  (λ _.
                    enforce-Ensures files current (suc index) kept_files total_bytes kept large))
          | inr over ↦
              rw (enforce_kept retention current index kept_files total_bytes f files e over) (
                Ensures-weaken _ _ _ _ _
                  (λ disk.
                    admitted current index kept_files total_bytes kept f files disk large e over)
                  (λ _ disk h. h)
                  (enforce-Ensures files current (suc index) (suc kept_files)
                    (saturating_add total_bytes f.size) (kept ++ f ∷ []) large))
        ]
      ]
