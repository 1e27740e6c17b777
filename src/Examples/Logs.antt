-- ===== src/Examples/Logs.antt =====
-- A directory of logs, over its limits.
use keyro_core.Common.{
  ℕ, ◌+◌, ◌-◌, ◌≡◌, refl, String, List, [], ◌∷◌, some, none, ok, arith, eq_iff, count, ◌≤◌, str_eq,
  false,
}
use keyro_core.Host.Logs.Disk.{Disk, LogEntry}
use keyro_core.Host.Logs.Retention.{LogRetention, is_keyro_log, validate_retention, cleanup_logs}
use keyro_core.Host.Logs.Writer.{write, new_writer, cleanup_retention}
use keyro_core.Host.Logs.Enforce.{IsWithinLimits}
use keyro_core.Host.Logs.Limits.{IsUsable, cleanup_logs-IsWithinLimits}
use keyro_core.Host.Logs.Directory.{IsDirectory, has_name}
use keyro_core.Host.Logs.Handle.{Takes, IsDirectory-AreDistinct}
use keyro_core.Host.Logs.Calm.{IsCalm}
use keyro_core.Host.Logs.Success.{write-IsCalm}
use keyro_core.Host.Logs.Progress.{IsLimited, write-IsLimited}
use keyro_core.Host.Logs.Ownership.{cleanup_retention-files_named}
use keyro_core.Host.Logs.Foreign.{files_named}

abbrev retention : LogRetention
retention = record { max_file_bytes = 4; max_total_bytes = 6; max_files = 2; max_age = 10 }

retention-IsUsable : IsUsable retention
unfolding validate_retention
retention-IsUsable = record { valid = refl; large = omega arith }

abbrev entry : ℕ → String → List ℕ → ℕ → LogEntry
entry inode name content modified = record {
  inode = inode;
  name = some name;
  content = content;
  modified = some modified;
}

abbrev pub full : Disk
full = record {
  file = 1;
  entries =
      entry 1 "keyro-core.log" (10 ∷ 11 ∷ 12 ∷ []) 98
      ∷ entry 2 "keyro-core.0.log" (20 ∷ 21 ∷ []) 95
      ∷ entry 3 "notes.log" (30 ∷ []) 5
      ∷ [];
  next_inode = 4;
  faults = [];
  caps = 0 ∷ [];
  clock = λ n. 100 + n;
  reads = 0;
}

distinct_names :
    (a b c path : String)
    → str_eq a b ≡ false
    → str_eq a c ≡ false
    → str_eq b c ≡ false
    → count (has_name path) (
        entry 1 a (10 ∷ 11 ∷ 12 ∷ []) 98 ∷ entry 2 b (20 ∷ 21 ∷ []) 95 ∷ entry 3 c (30 ∷ []) 5 ∷ [])
      ≤ 1
distinct_names a b c path ab ac bc =
    ground (arith, eq_iff a path, eq_iff b path, eq_iff c path, eq_iff a b, eq_iff a c, eq_iff b c)

full-IsDirectory : IsDirectory full
full-IsDirectory = record {
  names =
      λ path. distinct_names "keyro-core.log" "keyro-core.0.log" "notes.log" path refl refl refl;
  inodes = (omega arith, (omega arith, (omega arith, tt)));
}

cleanup_logs-IsWithinLimits_example :
    IsWithinLimits retention (100 - 10) (cleanup_logs retention full).1
unfolding cleanup_logs keyro_core.Host.Logs.Disk.read_dir keyro_core.Host.Logs.Disk.harmless
    is_keyro_log keyro_core.Host.Logs.Retention.enforce
cleanup_logs-IsWithinLimits_example =
    cleanup_logs-IsWithinLimits retention retention-IsUsable full
      (IsDirectory-AreDistinct full full-IsDirectory) refl

cleanup_retention-files_named_example :
    (files_named "notes.log" (new_writer retention full).1 ≡ entry 3 "notes.log" (30 ∷ []) 5 ∷ [])
    × (files_named "notes.log" (cleanup_retention retention full).1
        ≡ entry 3 "notes.log" (30 ∷ []) 5 ∷ [])
unfolding is_keyro_log
cleanup_retention-files_named_example =
    cleanup_retention-files_named retention "notes.log" refl full

write-IsLimited_example :
    Takes (1 ∷ 2 ∷ []) 1
    × ((write retention (1 ∷ 2 ∷ []) full).1.clock ≡ full.clock)
    × IsLimited retention retention-IsUsable full.reads (write retention (1 ∷ 2 ∷ []) full).1
unfolding write keyro_core.Host.Logs.Disk.file_metadata keyro_core.Host.Logs.Disk.harmless
    keyro_core.Host.Logs.Retention.rotate_logs keyro_core.Host.Logs.Retention.rotated_log_path
    keyro_core.Common.Decimal.decimal keyro_core.Host.Logs.Disk.remove_file
    keyro_core.Host.Logs.Retention.shift_logs keyro_core.Host.Logs.Disk.rename_file cleanup_logs
    keyro_core.Host.Logs.Disk.read_dir is_keyro_log keyro_core.Host.Logs.Retention.enforce
    keyro_core.Host.Logs.Disk.open_append keyro_core.Host.Logs.Disk.file_write
write-IsLimited_example =
    write-IsLimited retention retention-IsUsable full (1 ∷ 2 ∷ []) 1 full-IsDirectory refl refl

full-IsCalm : IsCalm retention.max_age full
full-IsCalm = (full-IsDirectory, record { faults = refl; late = λ n. omega arith })

write-IsCalm_example :
    (written : ℕ) × ((write retention (1 ∷ 2 ∷ []) full).0 ≡ ok written)
    × Takes (1 ∷ 2 ∷ []) written
    × ((write retention (1 ∷ 2 ∷ []) full).1.clock ≡ full.clock)
    × IsLimited retention retention-IsUsable full.reads (write retention (1 ∷ 2 ∷ []) full).1
write-IsCalm_example =
    write-IsCalm retention retention-IsUsable full (1 ∷ 2 ∷ []) full-IsCalm
      (record { entry = entry 1 "keyro-core.log" (10 ∷ 11 ∷ 12 ∷ []) 98; found = refl }) refl
