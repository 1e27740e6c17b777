-- ===== src/Host/Logs/Cleaning.antt =====
-- `cleanup_logs` of crates/keyro-core/src/logging.rs succeeds where no call fails.
use keyro_core.Common.{
  ℕ, suc, ◌∙◌, sym, Bool-cases, inl, inr, List, [], ◌∷◌, ◌++◌, append_assoc, append-nil, Option,
  position, is_none, arith, if◌then◌else◌,
}
use keyro_core.Common.Ensures.{Ensures-weaken}
use keyro_core.Common.Ordered.{sort_by}
use keyro_core.Common.Outcomes.{Runs, Runs-bind, Runs-pure, Runs-and, Runs-weaken}
use keyro_core.Common.Totals.{SameElements, marks, total-sort_by}
use keyro_core.Host.Logs.Disk.{Disk, remove_file, read_dir}
use keyro_core.Host.Logs.Retention.{
  LogRetention, LogFile, scan, is_index, is_over, enforce, enforce_limits, newest_first, size_at,
  is_current_log, cleanup_logs, retention_cutoff, saturating_add,
}
use keyro_core.Host.Logs.Contents.{logs_of, disk_logs, has_path, AreDistinct, remove_file-Ensures}
use keyro_core.Host.Logs.Scan.{IsScanned, less_distinct}
use keyro_core.Host.Logs.Enforce.{enforce_current, enforce_over, enforce_kept}
use keyro_core.Host.Logs.Limits.{IsUsable, read_dir-Ensures}
use keyro_core.Host.Logs.Handle.{IsDirectory-AreDistinct}
use keyro_core.Host.Logs.Calm.{IsCalm, read_dir-IsCalm, remove_file-IsCalm, retention_cutoff-IsCalm}
use keyro_core.Host.Logs.Scanning.{exists_of_logs, Scanned, scan-IsCalm}

module _ (retention : LogRetention) where
  abbrev Calm : Disk → Type 0
  Calm = IsCalm retention.max_age

  -- The directory holds the files of both lists.
  abbrev Holds : List LogFile → List LogFile → Disk → Type 0
  Holds before files disk =
      Calm disk × SameElements (disk_logs disk) (before ++ files) × AreDistinct (before ++ files)

  passed :
      (before : List LogFile) (f : LogFile) (files : List LogFile) (disk : Disk)
      → Holds before (f ∷ files) disk
      → Holds (before ++ f ∷ []) files disk
  passed before f files disk (calm, same, distinct) =
      (calm, rw append_assoc same, rw append_assoc distinct)

  removed :
      (before : List LogFile) (f : LogFile) (files : List LogFile)
      → Runs (Holds before (f ∷ files)) (remove_file f.path) (λ _. Holds before files)
  removed before f files = record {
    at = λ disk (calm, same, distinct).
        let (a, e, calm') =
          (remove_file-IsCalm retention.max_age f.path).at disk
            (calm, exists_of_logs before f files disk same) in
        (
          a,
          e,
          (
            calm',
            (remove_file-Ensures before f files distinct).at disk same a e,
            less_distinct retention 0 before f files distinct,
          ),
        );
  }

  enforce-IsCalm :
      (files : List LogFile) (current : Option ℕ) (index kept_files total_bytes : ℕ)
      (before : List LogFile)
      → Runs
          (Holds before files)
          (enforce retention current index kept_files total_bytes files)
          (λ _. Calm)
  unfolding enforce
  enforce-IsCalm [] current index kept_files total_bytes before = Runs-pure _ _ tt (λ disk h. h.0)
  enforce-IsCalm (f ∷ files) current index kept_files total_bytes before =
      let H = Holds before (f ∷ files) in
      let H' = Holds (before ++ f ∷ []) files in
      elim (Bool-cases (is_index current index)) [
        | inl e ↦ rw (enforce_current retention current index kept_files total_bytes f files e) (
            Runs-weaken H H' _ (λ _. Calm) (λ _. Calm) (passed before f files) (λ _ disk h. h)
              (enforce-IsCalm files current (suc index) kept_files total_bytes (before ++ f ∷ [])))
        | inr e ↦ elim (Bool-cases (is_over retention kept_files total_bytes f)) [
          | inl over ↦
              rw (enforce_over retention current index kept_files total_bytes f files e over) (
                Runs-bind H (λ _. Holds before files) (λ _. Calm) (remove_file f.path) _
                  (removed before f files)
                  (λ _. enforce-IsCalm files current (suc index) kept_files total_bytes before))
          | inr over ↦
              rw (enforce_kept retention current index kept_files total_bytes f files e over) (
                Runs-weaken H H' _ (λ _. Calm) (λ _. Calm) (passed before f files) (λ _ disk h. h)
                  (enforce-IsCalm files current (suc index) (suc kept_files)
                    (saturating_add total_bytes f.size) (before ++ f ∷ [])))
        ]
      ]

  module _ (usable : IsUsable retention) where
    enforce_limits-IsCalm :
        (cutoff : ℕ) (retained : List LogFile)
        → Runs
            (Scanned retention cutoff retained [])
            (enforce_limits retention retained)
            (λ _. Calm)
    unfolding enforce_limits
    enforce_limits-IsCalm cutoff retained =
        let files = sort_by newest_first retained in
        let current = position is_current_log files in
        Runs-weaken (Scanned retention cutoff retained []) (Holds [] files) _ (λ _. Calm)
          (λ _. Calm)
          (λ disk (calm, s). (
            calm,
            (λ w. (rw append-nil at s.same) w ∙ sym (total-sort_by newest_first w retained)),
            (λ path. omega (
              arith,
              (rw append-nil at s.distinct) path,
              total-sort_by newest_first (marks (has_path path)) retained,
            )),
          ))
          (λ _ disk h. h)
          (enforce-IsCalm files current 0 (if is_none current then 0 else 1) (size_at files current)
            [])

    read_dir-Scanned :
        (cutoff : ℕ) → Runs Calm read_dir (λ entries. Scanned retention cutoff [] (logs_of entries))
    read_dir-Scanned cutoff =
        Runs-and Calm read_dir (λ _. Calm)
          (λ entries. IsScanned retention cutoff [] (logs_of entries))
          (read_dir-IsCalm retention.max_age)
          (Ensures-weaken Calm (λ disk. AreDistinct (disk_logs disk)) _ _ read_dir
            (λ disk h. IsDirectory-AreDistinct disk h.0) (λ _ disk h. h)
            (read_dir-Ensures retention usable cutoff))

    pub cleanup_logs-IsCalm : Runs Calm (cleanup_logs retention) (λ _. Calm)
    unfolding cleanup_logs
    cleanup_logs-IsCalm =
        Runs-bind Calm (λ _. Calm) (λ _. Calm) (retention_cutoff retention) _
          (retention_cutoff-IsCalm retention)
          λ cutoff.
            Runs-bind Calm (λ entries. Scanned retention cutoff [] (logs_of entries)) (λ _. Calm)
              read_dir _ (read_dir-Scanned cutoff)
              λ entries.
                Runs-bind (Scanned retention cutoff [] (logs_of entries))
                  (λ files. Scanned retention cutoff files []) (λ _. Calm)
                  (scan retention cutoff [] entries) _ (scan-IsCalm retention cutoff entries [])
                  (enforce_limits-IsCalm cutoff)
