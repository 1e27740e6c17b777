-- ===== src/Host/Logs/Rotating.antt =====
-- What the rotation and the maintenance of crates/keyro-core/src/logging.rs keep.
use keyro_core.Common.{
  ℕ, zero, suc, ◌≡◌, refl, String, Bool, true, false, ok, leb, length, ◌-◌, Bool-cases, inl, inr,
}
use keyro_core.Common.Exec.{lift, ◌>>=◌}
use keyro_core.Common.Ensures.{Preserves, Preserves-bind, Preserves-lift}
use keyro_core.Host.Logs.Disk.{
  Disk, LogEntry, Io, harmless, exists, remove_file, rename_file, file_metadata,
}
use keyro_core.Host.Logs.Retention.{
  LogRetention, is_keyro_log, rotated_log_path, log_file_name, if_exists, shift_logs, cleanup_logs,
  rotate_logs, validate_retention,
}
use keyro_core.Host.Logs.Retention as Retention
use keyro_core.Host.Logs.Retention.{retention_cutoff}
use keyro_core.Host.Logs.Writer.{
  open_current_log, set_file, with_file, rotate, rotate_if, needs_rotation,
  current_log_needs_rotation, cleanup_retention, new_writer, is_before,
}
use keyro_core.Host.Logs.Keeping.{
  IsSteady, IsCleanable, cleanup_logs-Preserves, retention_cutoff-Preserves,
  file_metadata-Preserves,
}
use keyro_core.Host.Logs.Foreign.{rotated_log_path-is_keyro_log}

-- A condition that the calls of a rotation keep too.
pub record IsRotatable (P : Disk → Type 0) : Type 0 where
  pub steady : IsSteady P
  pub cleaning : IsCleanable P
  pub renaming :
      (source target : String)
      → is_keyro_log source ≡ true
      → is_keyro_log target ≡ true
      → Preserves P (rename_file source target)
  pub opening : Preserves P open_current_log
  pub setting : (file : ℕ) → Preserves P (set_file file)

pub log_file_name-is_keyro_log : is_keyro_log log_file_name ≡ true
unfolding is_keyro_log
log_file_name-is_keyro_log = refl

module _ (P : Disk → Type 0) (keep : IsRotatable P) where
  pub if_exists-Preserves :
      (path : String) (call : Io (Unit {0})) → Preserves P call → Preserves P (if_exists path call)
  unfolding if_exists
  if_exists-Preserves path call h = record {
    at = λ disk p. elim (Bool-cases (exists path disk)) [
      | inl e ↦ rw e (h.at disk p)
      | inr e ↦ rw e p
    ];
  }

  pub shift_logs-Preserves : (rounds : ℕ) → Preserves P (shift_logs rounds)
  unfolding shift_logs
  shift_logs-Preserves zero = Preserves-lift P (ok tt)
  shift_logs-Preserves (suc index) =
      let path = rotated_log_path in
      let log = rotated_log_path-is_keyro_log in
      Preserves-bind P (if_exists (path index) (rename_file (path index) (path (suc index)))) _
        (if_exists-Preserves (path index) _
          (keep.renaming (path index) (path (suc index)) (log index) (log (suc index))))
        (λ _. shift_logs-Preserves index)

  pub removing :
      (path : String) → is_keyro_log path ≡ true → Preserves P (if_exists path (remove_file path))
  removing path log = if_exists-Preserves path (remove_file path) (keep.cleaning.removal path log)

  module _ (retention : LogRetention) where
    rotate-Preserves :
        (max_rotated_files : ℕ) → Preserves P (Retention.rotate retention max_rotated_files)
    unfolding Retention.rotate
    rotate-Preserves zero = removing log_file_name log_file_name-is_keyro_log
    rotate-Preserves (suc last) =
        Preserves-bind P (if_exists (rotated_log_path last) (remove_file (rotated_log_path last))) _
          (removing (rotated_log_path last) (rotated_log_path-is_keyro_log last))
          λ _. Preserves-bind P (shift_logs last) _ (shift_logs-Preserves last) λ _.
            Preserves-bind P
              (if_exists log_file_name (rename_file log_file_name (rotated_log_path 0))) _
              (if_exists-Preserves log_file_name _ (
                keep.renaming log_file_name (rotated_log_path 0) log_file_name-is_keyro_log
                  (rotated_log_path-is_keyro_log 0)))
              λ _. cleanup_logs-Preserves P keep.cleaning retention

    reopening-Preserves : Preserves P (open_current_log >>= set_file)
    reopening-Preserves = Preserves-bind P open_current_log set_file keep.opening keep.setting

    pub rotation-Preserves : Preserves P (rotate retention)
    unfolding rotate rotate_logs
    rotation-Preserves = Preserves-bind P harmless _ keep.cleaning.idle λ _.
        Preserves-bind P (rotate_logs retention) _ (rotate-Preserves (retention.max_files - 1))
          λ _. reopening-Preserves

    pub rotate_if-Preserves : (needed : Bool) → Preserves P (rotate_if retention needed)
    unfolding rotate_if
    rotate_if-Preserves true = rotation-Preserves
    rotate_if-Preserves false = Preserves-lift P (ok tt)

    pub metadata-Preserves : Preserves P (with_file file_metadata)
    metadata-Preserves = record {
      at = λ disk p. (file_metadata-Preserves P keep.steady disk.file).at disk p;
    }

    pub needs_rotation-Preserves :
        (metadata : LogEntry) → Preserves P (needs_rotation retention metadata)
    unfolding needs_rotation
    needs_rotation-Preserves metadata =
        elim (Bool-cases (leb retention.max_file_bytes (length metadata.content))) [
          | inl e ↦ rw e (Preserves-lift P (ok true))
          | inr e ↦ rw e (
              Preserves-bind P (retention_cutoff retention) _
                (retention_cutoff-Preserves P keep.cleaning retention)
                λ cutoff. Preserves-lift P (ok (is_before retention cutoff metadata.modified)))
        ]

    pub current_log_needs_rotation-Preserves : Preserves P (current_log_needs_rotation retention)
    unfolding current_log_needs_rotation
    current_log_needs_rotation-Preserves =
        Preserves-bind P (with_file file_metadata) _ metadata-Preserves needs_rotation-Preserves

    pub cleanup_retention-Preserves : Preserves P (cleanup_retention retention)
    unfolding cleanup_retention
    cleanup_retention-Preserves =
        Preserves-bind P (current_log_needs_rotation retention) _
          current_log_needs_rotation-Preserves
          λ needed.
            Preserves-bind P (rotate_if retention needed) _ (rotate_if-Preserves needed)
              λ _. cleanup_logs-Preserves P keep.cleaning retention

    pub new_writer-Preserves : Preserves P (new_writer retention)
    unfolding new_writer
    new_writer-Preserves =
        Preserves-bind P (lift (validate_retention retention)) _
          (Preserves-lift P (validate_retention retention))
          λ _. Preserves-bind P harmless _ keep.cleaning.idle λ _.
            Preserves-bind P (cleanup_logs retention) _
              (cleanup_logs-Preserves P keep.cleaning retention) λ _. reopening-Preserves
