-- ===== src/Host/Logs/Retention.antt =====
-- Retention in crates/keyro-core/src/logging.rs: `LogRetention`, `cleanup_logs` and `rotate_logs`.
-- Sizes are `u64`, whose saturating addition is written out; times are counted from the epoch.
use Prim.Native.String.{◌++◌ as ◌<>◌}
use text.Mathlib.Text.{starts_with}
use keyro_core.Common.{
  ℕ, zero, suc, ◌+◌, ◌-◌, ◌*◌, ◌^◌, String, str_eq, Bool, true, false, ◌&&◌, ◌||◌, List, [], ◌∷◌,
  ◌++◌, Option, none, some, Result, ok, err, ltb, leb, ◌==◌, if◌then◌else◌, min, position, is_none,
}
use keyro_core.Common.Decimal.{decimal}
use keyro_core.Common.Exec.{lift, pure, ◌>>=◌, ◌>>◌}
use keyro_core.Common.Ordered.{sort_by}
use keyro_core.Host.Logs.Disk.{
  Io, DirEntry, system_time, harmless, exists, remove_file, rename_file, read_dir,
}

abbrev pub log_file_name : String
log_file_name = "keyro-core.log"

pub record LogRetention : Type 0 where
  pub max_file_bytes : ℕ
  pub max_total_bytes : ℕ
  pub max_files : ℕ
  pub max_age : ℕ

-- A second, as `SystemTime` counts.
abbrev second : ℕ
second = 10 ^ 9

-- `LogRetention::default`
abbrev pub default_retention : LogRetention
default_retention = record {
  max_file_bytes = 5 * 1024 * 1024;
  max_total_bytes = 50 * 1024 * 1024;
  max_files = 10;
  max_age = 14 * 24 * 60 * 60 * second;
}

unfoldable pub validate_retention : LogRetention → Result String (Unit {0})
validate_retention retention =
    if retention.max_file_bytes == 0
    then err "log max_file_bytes must be greater than zero"
    else if retention.max_total_bytes == 0
    then err "log max_total_bytes must be greater than zero"
    else if retention.max_files == 0
    then err "log max_files must be greater than zero"
    else if ltb retention.max_total_bytes retention.max_file_bytes
    then err "log max_total_bytes must be at least max_file_bytes"
    else ok tt

abbrev pub max_u64 : ℕ
max_u64 = 2 ^ 64 - 1

-- `u64::saturating_add`
abbrev pub saturating_add : ℕ → ℕ → ℕ
saturating_add a b = min (a + b) max_u64

unfoldable pub ends_with : String → String → Bool
ends_with String.[] suffix = str_eq String.[] suffix
ends_with (String.◌∷◌ c s) suffix = str_eq (String.◌∷◌ c s) suffix || ends_with s suffix

-- `is_keyro_log`, on the file name.
unfoldable pub is_keyro_log : String → Bool
unfolding ends_with
is_keyro_log name =
    str_eq name log_file_name || (starts_with name "keyro-core." && ends_with name ".log")

unfoldable pub rotated_log_path : ℕ → String
rotated_log_path index = "keyro-core." <> decimal index <> ".log"

-- `SystemTime::now().checked_sub(retention.max_age)`
unfoldable pub retention_cutoff : LogRetention → Io ℕ
retention_cutoff retention = do
  now ← system_time
  lift (
      if leb retention.max_age now
      then ok (now - retention.max_age)
      else err "invalid log retention age")

pub record LogFile : Type 0 where
  pub is_current : Bool
  pub path : String
  pub modified : ℕ
  pub size : ℕ

abbrev pub log_file : DirEntry → ℕ → LogFile
log_file entry modified = record {
  is_current = str_eq entry.path log_file_name;
  path = entry.path;
  modified = modified;
  size = entry.len;
}

-- `modified < cutoff || metadata.len() > retention.max_file_bytes`
abbrev pub is_expired : LogRetention → ℕ → LogFile → Bool
is_expired retention cutoff f = ltb f.modified cutoff || ltb retention.max_file_bytes f.size

-- The log files among the entries that can be dated.
abbrev pub dated : DirEntry → Option ℕ → Option LogFile
dated entry none = none
dated entry (some modified) =
    if is_keyro_log entry.path then some (log_file entry modified) else none

-- One turn of the loop over the directory, on the files retained so far.
unfoldable pub retain : LogRetention → ℕ → List LogFile → Option LogFile → Io (List LogFile)
retain retention cutoff retained none = pure retained
retain retention cutoff retained (some f) =
    if is_expired retention cutoff f
    then remove_file f.path >> pure retained
    else pure (retained ++ f ∷ [])

unfoldable pub scan : LogRetention → ℕ → List LogFile → List DirEntry → Io (List LogFile)
unfolding retain
scan retention cutoff retained [] = pure retained
scan retention cutoff retained (entry ∷ entries) = do
  harmless
  retained ← retain retention cutoff retained (dated entry entry.modified)
  scan retention cutoff retained entries

-- `Some(index) == current_index`
abbrev pub is_index : Option ℕ → ℕ → Bool
is_index none index = false
is_index (some i) index = i == index

abbrev pub is_over : LogRetention → ℕ → ℕ → LogFile → Bool
is_over retention kept_files total_bytes f =
    leb retention.max_files kept_files
    || ltb retention.max_total_bytes (saturating_add total_bytes f.size)

-- The loop over the sorted files, from an index on.
unfoldable pub enforce : LogRetention → Option ℕ → ℕ → ℕ → ℕ → List LogFile → Io (Unit {0})
enforce retention current index kept_files total_bytes [] = pure tt
enforce retention current index kept_files total_bytes (f ∷ files) = elim (is_index current index) [
  | true ↦ enforce retention current (suc index) kept_files total_bytes files
  | false ↦ elim (is_over retention kept_files total_bytes f) [
    | true ↦
        remove_file f.path >> enforce retention current (suc index) kept_files total_bytes files
    | false ↦
        enforce retention current (suc index) (suc kept_files) (saturating_add total_bytes f.size)
          files
  ]
]

-- `sort_by_key(|log_file| Reverse(log_file.modified))`
abbrev pub newest_first : LogFile → LogFile → Bool
newest_first a b = leb b.modified a.modified

abbrev pub size_at : List LogFile → Option ℕ → ℕ
size_at files none = 0
size_at [] (some i) = 0
size_at (f ∷ files) (some zero) = f.size
size_at (f ∷ files) (some (suc i)) = size_at files (some i)

abbrev pub is_current_log : LogFile → Bool
is_current_log f = f.is_current

-- The part of `cleanup_logs` after the scan.
unfoldable pub enforce_limits : LogRetention → List LogFile → Io (Unit {0})
enforce_limits retention retained =
    let files = sort_by newest_first retained in
    let current = position is_current_log files in
    enforce retention current 0 (if is_none current then 0 else 1) (size_at files current) files

unfoldable pub cleanup_logs : LogRetention → Io (Unit {0})
unfolding retention_cutoff scan enforce_limits
cleanup_logs retention = do
  cutoff ← retention_cutoff retention
  entries ← read_dir
  retained ← scan retention cutoff [] entries
  enforce_limits retention retained

-- `if path.exists() { .. }`
unfoldable pub if_exists : String → Io (Unit {0}) → Io (Unit {0})
if_exists path call disk = (if exists path disk then call else pure tt) disk

-- `for index in (1..max_rotated_files).rev()`, down from the number of rounds left.
unfoldable pub shift_logs : ℕ → Io (Unit {0})
unfolding if_exists
shift_logs zero = pure tt
shift_logs (suc index) = do
  if_exists (rotated_log_path index)
      (rename_file (rotated_log_path index) (rotated_log_path (suc index)))
  shift_logs index

-- `rotate_logs`, by `max_rotated_files`.
unfoldable pub rotate : LogRetention → ℕ → Io (Unit {0})
unfolding if_exists
rotate retention zero = if_exists log_file_name (remove_file log_file_name)
rotate retention (suc last) = do
  if_exists (rotated_log_path last) (remove_file (rotated_log_path last))
  shift_logs last
  if_exists log_file_name (rename_file log_file_name (rotated_log_path 0))
  cleanup_logs retention

unfoldable pub rotate_logs : LogRetention → Io (Unit {0})
unfolding rotate
rotate_logs retention = rotate retention (retention.max_files - 1)
