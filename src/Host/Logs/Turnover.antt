-- ===== src/Host/Logs/Turnover.antt =====
-- A rotation of crates/keyro-core/src/logging.rs succeeds where no call fails.
use keyro_core.Common.{ℕ, zero, suc, ◌-◌, refl, Bool, true, false}
use keyro_core.Common.Outcomes.{Runs, Runs-bind, Runs-pure}
use keyro_core.Host.Logs.Disk.{Disk, harmless, remove_file, rename_file}
use keyro_core.Host.Logs.Retention as Retention
use keyro_core.Host.Logs.Retention.{
  LogRetention, log_file_name, rotated_log_path, if_exists, shift_logs, cleanup_logs, rotate_logs,
  retention_cutoff,
}
use keyro_core.Host.Logs.Writer.{open_current_log, set_file, rotate, rotate_if}
use keyro_core.Host.Logs.Limits.{IsUsable}
use keyro_core.Host.Logs.Calm.{
  IsCalm, harmless-IsCalm, removing-IsCalm, renaming-IsCalm, open_append-IsCalm,
}
use keyro_core.Host.Logs.Cleaning.{cleanup_logs-IsCalm}

module _ (retention : LogRetention) (usable : IsUsable retention) where
  abbrev Calm : Disk → Type 0
  Calm = IsCalm retention.max_age

  shift_logs-IsCalm : (rounds : ℕ) → Runs Calm (shift_logs rounds) (λ _. Calm)
  unfolding shift_logs
  shift_logs-IsCalm zero = Runs-pure Calm _ tt (λ disk h. h)
  shift_logs-IsCalm (suc index) =
      let path = rotated_log_path in
      Runs-bind Calm (λ _. Calm) (λ _. Calm)
        (if_exists (path index) (rename_file (path index) (path (suc index)))) _
        (renaming-IsCalm retention.max_age (path index) (path (suc index)))
        (λ _. shift_logs-IsCalm index)

  rotating-IsCalm :
      (max_rotated_files : ℕ) → Runs Calm (Retention.rotate retention max_rotated_files) (λ _. Calm)
  unfolding Retention.rotate
  rotating-IsCalm zero = removing-IsCalm retention.max_age log_file_name
  rotating-IsCalm (suc last) =
      let path = rotated_log_path last in
      Runs-bind Calm (λ _. Calm) (λ _. Calm) (if_exists path (remove_file path)) _
        (removing-IsCalm retention.max_age path)
        λ _.
          Runs-bind Calm (λ _. Calm) (λ _. Calm) (shift_logs last) _ (shift_logs-IsCalm last)
            λ _.
              Runs-bind Calm (λ _. Calm) (λ _. Calm)
                (if_exists log_file_name (rename_file log_file_name (rotated_log_path 0))) _
                (renaming-IsCalm retention.max_age log_file_name (rotated_log_path 0))
                λ _. cleanup_logs-IsCalm retention usable

  set_file-IsCalm : (file : ℕ) → Runs Calm (set_file file) (λ _. Calm)
  set_file-IsCalm file = record {
    at = λ disk (p, q). (
      tt,
      refl,
      (record { names = p.names; inodes = p.inodes }, record { faults = q.faults; late = q.late }),
    );
  }

  pub rotate_if-IsCalm : (needed : Bool) → Runs Calm (rotate_if retention needed) (λ _. Calm)
  unfolding rotate_if rotate rotate_logs
  rotate_if-IsCalm false = Runs-pure Calm _ tt (λ disk h. h)
  rotate_if-IsCalm true =
      Runs-bind Calm (λ _. Calm) (λ _. Calm) harmless _ (harmless-IsCalm retention.max_age)
        λ _.
          Runs-bind Calm (λ _. Calm) (λ _. Calm) (rotate_logs retention) _
            (rotating-IsCalm (retention.max_files - 1))
            λ _.
              Runs-bind Calm (λ _. Calm) (λ _. Calm) open_current_log set_file
                (open_append-IsCalm retention.max_age log_file_name) set_file-IsCalm
