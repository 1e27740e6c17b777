-- ===== src/Host/Logs/Writer.antt =====
-- `RotatingLogWriter` and `LogState` of crates/keyro-core/src/logging.rs. Each call holds the lock,
-- so it is one step; so is each round of the maintenance thread.
use keyro_core.Common.{
  ℕ, ◌-◌, Bool, true, false, ◌&&◌, ◌||◌, List, Option, none, some, ok, ltb, leb, length, take, min,
  is_empty, if◌then◌else◌,
}
use keyro_core.Common.Exec.{lift, pure, ◌>>=◌, ◌>>◌}
use keyro_core.Host.Logs.Disk.{Io, LogEntry, harmless, open_append, file_metadata, file_write}
use keyro_core.Host.Logs.Retention.{
  LogRetention, log_file_name, validate_retention, saturating_add, retention_cutoff, cleanup_logs,
  rotate_logs,
}

-- `open_current_log`
abbrev pub open_current_log : Io ℕ
open_current_log = open_append log_file_name

-- `self.file = ..`
abbrev pub set_file : ℕ → Io (Unit {0})
set_file file disk = (ok tt, record disk { file = file })

-- A method of the file of the state.
abbrev pub with_file : {A : Type 0} → (ℕ → Io A) → Io A
with_file method disk = method disk.file disk

module _ (retention : LogRetention) where
  -- `LogState::rotate`; an error before the file is open leaves the old one.
  unfoldable pub rotate : Io (Unit {0})
  rotate = do harmless; rotate_logs retention; file ← open_current_log; set_file file

  abbrev pub is_before : ℕ → Option ℕ → Bool
  is_before cutoff none = false
  is_before cutoff (some modified) = ltb modified cutoff

  unfoldable pub needs_rotation : LogEntry → Io Bool
  needs_rotation metadata =
      if leb retention.max_file_bytes (length metadata.content)
      then pure true
      else retention_cutoff retention >>= λ cutoff. pure (is_before cutoff metadata.modified)

  unfoldable pub current_log_needs_rotation : Io Bool
  unfolding needs_rotation
  current_log_needs_rotation = do metadata ← with_file file_metadata; needs_rotation metadata

  unfoldable pub rotate_if : Bool → Io (Unit {0})
  unfolding rotate
  rotate_if needed = if needed then rotate else pure tt

  -- `LogState::cleanup_retention`, which the maintenance thread calls too.
  unfoldable pub cleanup_retention : Io (Unit {0})
  unfolding current_log_needs_rotation rotate_if
  cleanup_retention = do
    needed ← current_log_needs_rotation
    rotate_if needed
    cleanup_logs retention

  -- `current_size >= max_file_bytes || current_size > 0 && current_size + buf.len() > ..`
  abbrev pub is_full : ℕ → ℕ → Bool
  is_full current_size buf_len =
      leb retention.max_file_bytes current_size
      || (ltb 0 current_size && ltb retention.max_file_bytes (saturating_add current_size buf_len))

  -- The write of what fits into the file.
  unfoldable pub write_what_fits : List ℕ → Io ℕ
  write_what_fits buf = do
    metadata ← with_file file_metadata
    let available_bytes = retention.max_file_bytes - length metadata.content
    let write_len = min available_bytes (length buf)
    with_file (λ file. file_write file (take write_len buf))

  unfoldable pub write_some : List ℕ → Io ℕ
  unfolding rotate_if write_what_fits cleanup_retention
  write_some buf = do
    metadata ← with_file file_metadata
    rotate_if (is_full (length metadata.content) (length buf))
    written ← write_what_fits buf
    cleanup_retention
    pure written

  -- `LogState::write`
  unfoldable pub write : List ℕ → Io ℕ
  unfolding write_some
  write buf = if is_empty buf then pure 0 else write_some buf

  -- `RotatingLogWriter::new`, after which the maintenance thread starts.
  unfoldable pub new_writer : Io (Unit {0})
  new_writer = do
    lift (validate_retention retention)
    harmless
    cleanup_logs retention
    file ← open_current_log
    set_file file
