-- ===== src/Host/Logs/Progress.antt =====
-- What `LogState::write` of crates/keyro-core/src/logging.rs promises to the code that logs.
use keyro_core.Common.{ℕ, ◌-◌, ◌≡◌, refl, ◌∙◌, ◌≤◌, ◌<◌, false, List, ok, length, arith, is_empty}
use keyro_core.Common.Exec.{pure}
use keyro_core.Common.Ensures.{
  Ensures, Ensures-bind, Ensures-pure, Ensures-Preserves, Preserves, Preserves-both, Ensures-both,
}
use keyro_core.Host.Logs.Disk.{Disk, Io, file_metadata, taken}
use keyro_core.Host.Logs.Retention.{LogRetention, cleanup_logs}
use keyro_core.Host.Logs.Writer.{
  with_file, rotate_if, write_what_fits, write_some, write, cleanup_retention,
  current_log_needs_rotation,
}
use keyro_core.Host.Logs.Enforce.{IsWithinLimits}
use keyro_core.Host.Logs.Directory.{IsDirectory}
use keyro_core.Host.Logs.Keeping.{cleanup_logs-Preserves}
use keyro_core.Host.Logs.Rotating.{
  IsRotatable, metadata-Preserves, rotate_if-Preserves, current_log_needs_rotation-Preserves,
}
use keyro_core.Host.Logs.Ownership.{IsDirectory-IsCleanable, IsDirectory-IsRotatable}
use keyro_core.Host.Logs.Elapsed.{
  Since, Since-IsRotatable, cleanup_logs-Since, write_what_fits-Since,
}
use keyro_core.Host.Logs.Limits.{IsUsable, cleanup_logs-IsWithinLimits}
use keyro_core.Host.Logs.Handle.{Finds, IsDirectory-AreDistinct, metadata-Ensures, Takes}
use keyro_core.Host.Logs.Room.{HasRoom, rotate_if-Ensures, write_what_fits-Ensures}

module _ (retention : LogRetention) (usable : IsUsable retention) where
  -- No two files have the same name, and the log files are within the limits, none of them older
  -- than the age that the retention allows at a time that the clock has shown since the start.
  pub record IsLimited (start : ℕ) (disk : Disk) : Type 0 where
    pub directory : IsDirectory disk
    pub read : ℕ
    pub since : start ≤ read
    pub until : read < disk.reads
    pub limits : IsWithinLimits retention (disk.clock read - retention.max_age) disk

  module _ (start : ℕ) (clock : ℕ → ℕ) where
    abbrev IsUnderWay : Disk → Type 0
    IsUnderWay disk = Since start clock disk × IsDirectory disk

    cleanup_logs-IsLimited :
        Ensures IsUnderWay
          (cleanup_logs retention)
          (λ _ disk. (disk.clock ≡ clock) × IsLimited start disk)
    cleanup_logs-IsLimited = record {
      at = λ disk (begun, p) _ r.
          let after = cleanup_logs-Since retention disk r in
          (
            after.same ∙ begun.same,
            record {
              directory =
                  (cleanup_logs-Preserves IsDirectory IsDirectory-IsCleanable retention).at disk p;
              read = disk.reads;
              since = begun.started;
              until = after.started;
              limits = rw after.same (
                  cleanup_logs-IsWithinLimits retention usable disk (IsDirectory-AreDistinct disk p)
                    r);
            },
          );
    }

    keeping :
        {A : Type 0}
        → (call : Io A) → ((P : Disk → Type 0) → IsRotatable P → Preserves P call)
        → Ensures IsUnderWay call (λ _. IsUnderWay)
    keeping call keep = Ensures-Preserves IsUnderWay call (
        Preserves-both (Since start clock) IsDirectory call
          (keep (Since start clock) (Since-IsRotatable start clock))
          (keep IsDirectory IsDirectory-IsRotatable))

    cleanup_retention-IsLimited :
        Ensures IsUnderWay
          (cleanup_retention retention)
          (λ _ disk. (disk.clock ≡ clock) × IsLimited start disk)
    unfolding cleanup_retention
    cleanup_retention-IsLimited =
        Ensures-bind IsUnderWay (λ _. IsUnderWay) _ (current_log_needs_rotation retention) _
          (keeping (current_log_needs_rotation retention)
            (λ P keep. current_log_needs_rotation-Preserves P keep retention))
          λ needed.
            Ensures-bind IsUnderWay (λ _. IsUnderWay) _ (rotate_if retention needed) _
              (keeping (rotate_if retention needed)
                (λ P keep. rotate_if-Preserves P keep retention needed))
              λ _. cleanup_logs-IsLimited

    -- A condition on the way, beside the time that has passed.
    abbrev Then : (Disk → Type 0) → Disk → Type 0
    Then P disk = Since start clock disk × P disk

    abbrev Room : Disk → Type 0
    Room = HasRoom retention usable

    write-Ensures :
        (buf : List ℕ)
        → is_empty buf ≡ false
        → Ensures IsUnderWay
            (write_some retention buf)
            (λ written disk. ((disk.clock ≡ clock) × IsLimited start disk) × Takes buf written)
    unfolding write_some
    write-Ensures buf some_bytes =
        Ensures-bind IsUnderWay (λ e. Then (Finds e)) _ (with_file file_metadata) _
          (Ensures-both IsDirectory (Since start clock) Finds _
            (metadata-Preserves _ (Since-IsRotatable start clock) retention) metadata-Ensures)
          λ e.
            Ensures-bind (Then (Finds e)) (λ _. Then Room) _ _ _
              (Ensures-both (Finds e) (Since start clock) (λ _. Room) _
                (rotate_if-Preserves _ (Since-IsRotatable start clock) retention _)
                (rotate_if-Ensures retention usable e (length buf)))
              λ _.
                Ensures-bind (Then Room)
                  (λ written. Then (λ disk. IsDirectory disk × Takes buf written)) _
                  (write_what_fits retention buf) _
                  (Ensures-both Room (Since start clock) _ _
                    (write_what_fits-Since start clock retention buf)
                    (write_what_fits-Ensures retention usable buf some_bytes))
                  λ written.
                    Ensures-bind _
                      (λ _ disk. ((disk.clock ≡ clock) × IsLimited start disk) × Takes buf written)
                      _ (cleanup_retention retention) (λ _. pure written)
                      (record {
                        at = λ disk (begun, (p, taken)) _ r.
                            (cleanup_retention-IsLimited.at disk (begun, p) tt r, taken);
                      })
                      λ _. Ensures-pure _ _ written (λ disk h. h)

  -- After a write that succeeds, on a directory where no two files have the same name and with a
  -- retention that `validate_retention` accepts and a total below the largest `u64`: of a buffer
  -- with bytes the writer has taken at least one, and no more than there are, so that a caller that
  -- goes on with the rest ends; the clock is the same; the log files are within the limits of count,
  -- total and size, and none is older than `max_age` at a time that the clock has shown during the
  -- write; and no two files have the same name.
  pub write-IsLimited :
      (disk : Disk) (buf : List ℕ) (written : ℕ)
      → IsDirectory disk
      → is_empty buf ≡ false
      → (write retention buf disk).0 ≡ ok written
      → Takes buf written
        × ((write retention buf disk).1.clock ≡ disk.clock)
        × IsLimited disk.reads (write retention buf disk).1
  unfolding write
  write-IsLimited disk buf written p some_bytes r =
      let h =
        (write-Ensures disk.reads disk.clock buf some_bytes).at disk
          (record { started = omega arith; same = refl }, p) written (rw some_bytes at r) in
      rw some_bytes (h.1, h.0.0, h.0.1)
