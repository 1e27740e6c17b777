-- ===== src/Host/Logs/Room.antt =====
-- The room that the rotation of `LogState::write` of crates/keyro-core/src/logging.rs makes in the
-- current log, and what is written to it.
use keyro_core.Common.{
  ℕ, ◌-◌, ◌≡◌, ◌≤◌, ◌<◌, subst, Bool-cases, inl, inr, false, List, length, take, min, arith,
  is_empty,
}
use keyro_core.Common.Ensures.{Ensures, Ensures-bind, Ensures-pure, Ensures-weaken}
use keyro_core.Host.Logs.Disk.{Disk, LogEntry, file_metadata}
use keyro_core.Host.Logs.Retention.{LogRetention, validate_retention}
use keyro_core.Host.Logs.Writer.{with_file, is_full, rotate, rotate_if, write_what_fits}
use keyro_core.Host.Logs.Directory.{IsDirectory, IsDirectory-IsSteady}
use keyro_core.Host.Logs.Keeping.{IsSteady, file_metadata-Preserves}
use keyro_core.Host.Logs.Ready.{IsReady, rotation-Ensures}
use keyro_core.Host.Logs.Limits.{IsUsable}
use keyro_core.Host.Logs.Handle.{Finds, metadata-Ensures, length-take, Takes, file_write-Ensures}

module _ (retention : LogRetention) (usable : IsUsable retention) where
  max_file_bytes_positive : 1 ≤ retention.max_file_bytes
  unfolding validate_retention
  max_file_bytes_positive = ground (arith, usable.valid)

  -- The current log has room for a byte.
  pub record HasRoom (disk : Disk) : Type 0 where
    pub entry : LogEntry
    pub finds : Finds entry disk
    pub room : length entry.content < retention.max_file_bytes

  pub rotate_if-Ensures :
      (e : LogEntry) (buf_len : ℕ)
      → Ensures
          (Finds e)
          (rotate_if retention (is_full retention (length e.content) buf_len))
          (λ _. HasRoom)
  unfolding rotate_if
  rotate_if-Ensures e buf_len = elim (Bool-cases (is_full retention (length e.content) buf_len)) [
    | inl full ↦ rw full (
        Ensures-weaken (Finds e) IsDirectory (λ _. HasRoom)
          (λ _ disk. IsDirectory disk × IsReady disk.file disk) (rotate retention)
          (λ disk h. h.directory)
          (λ _ disk (p, ready). record {
            entry = ready.entry;
            finds = record { directory = p; found = ready.found };
            room = ground (arith, ready.empty, max_file_bytes_positive);
          })
          (rotation-Ensures retention))
    | inr free ↦ rw free (
        Ensures-pure (Finds e) (λ _. HasRoom) tt
          (λ disk h. record { entry = e; finds = h; room = ground arith }))
  ]

  HasRoom-IsSteady : IsSteady HasRoom
  HasRoom-IsSteady disk faults h = record {
    entry = h.entry;
    finds = record {
      directory = IsDirectory-IsSteady disk faults h.finds.directory;
      found = h.finds.found;
    };
    room = h.room;
  }

  metadata-HasRoom :
      Ensures HasRoom
        (with_file file_metadata)
        (λ e disk. IsDirectory disk × (length e.content < retention.max_file_bytes))
  metadata-HasRoom = record {
    at = λ disk h e r.
        let after = (file_metadata-Preserves HasRoom HasRoom-IsSteady disk.file).at disk h in
        let here = metadata-Ensures.at disk h.finds.directory e r in
        let same : after.entry ≡ e = ground (arith, after.finds.found, here.found) in
        (
          here.directory,
          subst (λ (x : LogEntry). length x.content < retention.max_file_bytes) same after.room,
        );
  }

  pub write_what_fits-Ensures :
      (buf : List ℕ)
      → is_empty buf ≡ false
      → Ensures HasRoom
          (write_what_fits retention buf)
          (λ written disk. IsDirectory disk × Takes buf written)
  unfolding write_what_fits
  write_what_fits-Ensures buf some_bytes =
      Ensures-bind HasRoom
        (λ e disk. IsDirectory disk × (length e.content < retention.max_file_bytes)) _
        (with_file file_metadata) _ metadata-HasRoom
        λ e.
          let part = take (min (retention.max_file_bytes - length e.content) (length buf)) buf in
          record {
            at = λ disk (p, room) written r.
                let size =
                  length-take (min (retention.max_file_bytes - length e.content) (length buf))
                    buf in
                let (p', (few, most)) =
                  (file_write-Ensures disk.file part (ground (arith, size))).at disk p written r in
                (p', (few, omega (arith, most, size)));
          }
