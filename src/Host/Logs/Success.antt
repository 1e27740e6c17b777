-- ===== src/Host/Logs/Success.antt =====
-- `LogState::write` of crates/keyro-core/src/logging.rs succeeds where no call fails.
use keyro_core.Common.{
  ℕ, ◌-◌, ◌≡◌, refl, Bool-cases, inl, inr, true, false, List, [], ◌∷◌, some, ok, find, map, arith,
  length, take, min, leb, is_empty,
}
use keyro_core.Common.Ensures.{Ensures-weaken, Preserves}
use keyro_core.Common.Outcomes.{Runs, Runs-bind, Runs-pure, Runs-and, Runs-weaken}
use keyro_core.Host.Logs.Disk.{
  Disk, LogEntry, file_metadata, found_or, is_inode, file_write, append_to, taken,
}
use keyro_core.Host.Logs.Retention.{LogRetention, retention_cutoff}
use keyro_core.Host.Logs.Writer.{
  with_file, rotate_if, is_full, is_before, needs_rotation, current_log_needs_rotation,
  cleanup_retention, write_what_fits, write_some, write,
}
use keyro_core.Host.Logs.Limits.{IsUsable}
use keyro_core.Host.Logs.Keeping.{system_call-Preserves}
use keyro_core.Host.Logs.Handle.{Finds, Takes}
use keyro_core.Host.Logs.Calm.{IsCalm, system_call-Runs, file_write-IsCalm, retention_cutoff-IsCalm}
use keyro_core.Host.Logs.Cleaning.{cleanup_logs-IsCalm}
use keyro_core.Host.Logs.Room.{HasRoom, rotate_if-Ensures}
use keyro_core.Host.Logs.Progress.{IsLimited, write-IsLimited}
use keyro_core.Host.Logs.Turnover.{rotate_if-IsCalm}

-- The file of the writer is a file of the directory, under a name or unlinked.
pub record IsOpen (disk : Disk) : Type 0 where
  pub entry : LogEntry
  pub found : find (is_inode disk.file) disk.entries ≡ some entry

find-map :
    (handle : ℕ) (f : LogEntry → LogEntry) (entries : List LogEntry) (e : LogEntry)
    → ((x : LogEntry) → (f x).inode ≡ x.inode)
    → find (is_inode handle) entries ≡ some e
    → find (is_inode handle) (map f entries) ≡ some (f e)
find-map handle f [] e same h = absurd (ground arith)
find-map handle f (x ∷ entries) e same h = ground (arith, same x, find-map handle f entries e same)

file_write-IsOpen : (handle : ℕ) (bytes : List ℕ) → Preserves IsOpen (file_write handle bytes)
unfolding file_write append_to
file_write-IsOpen handle bytes =
    system_call-Preserves IsOpen _ (λ disk faults h. record { entry = h.entry; found = h.found })
      (record {
        at = λ disk h. record {
          entry = f disk h.entry;
          found = find-map disk.file (f disk) disk.entries h.entry (λ x. ground arith) h.found;
        };
      })
  where
    f : Disk → LogEntry → LogEntry
    f disk = append_to handle (take (taken disk.caps (length bytes)) bytes) (disk.clock disk.reads)

module _ (retention : LogRetention) (usable : IsUsable retention) where
  abbrev Calm : Disk → Type 0
  Calm = IsCalm retention.max_age

  abbrev CalmOpen : Disk → Type 0
  CalmOpen disk = Calm disk × IsOpen disk

  -- The state of a disk whose file is the handle, for its entry.
  abbrev At : ℕ → LogEntry → Disk → Type 0
  At file e disk = Calm disk × (disk.file ≡ file) × (find (is_inode file) disk.entries ≡ some e)

  abbrev CalmFinds : LogEntry → Disk → Type 0
  CalmFinds e disk = Calm disk × Finds e disk

  file_metadata-IsCalm : (file : ℕ) (e : LogEntry) → Runs (At file e) (file_metadata file) CalmFinds
  unfolding file_metadata found_or
  file_metadata-IsCalm file e =
      system_call-Runs (At file e) _ _ (λ disk h. h.0.1.faults)
        (record {
          at = λ disk (calm, same, found).
              rw found (e, refl, (calm, record { directory = calm.0; found = rw same found }));
        })

  metadata-IsCalm : Runs CalmOpen (with_file file_metadata) CalmFinds
  metadata-IsCalm = record {
    at = λ disk (calm, open_file).
        (file_metadata-IsCalm disk.file open_file.entry).at disk (calm, refl, open_file.found);
  }

  abbrev Room : Disk → Type 0
  Room disk = Calm disk × HasRoom retention usable disk

  writing-IsCalm :
      (bytes : List ℕ) → Runs CalmOpen (with_file (λ file. file_write file bytes)) (λ _. CalmOpen)
  writing-IsCalm bytes = record {
    at = λ disk (calm, open_file).
        let (n, e, calm') = (file_write-IsCalm retention.max_age disk.file bytes).at disk calm in
        (n, e, (calm', (file_write-IsOpen disk.file bytes).at disk open_file));
  }

  write_what_fits-IsCalm :
      (buf : List ℕ) → Runs Room (write_what_fits retention buf) (λ _. CalmOpen)
  unfolding write_what_fits
  write_what_fits-IsCalm buf =
      Runs-bind Room CalmFinds (λ _. CalmOpen) (with_file file_metadata) _
        (Runs-weaken Room CalmOpen (with_file file_metadata) CalmFinds CalmFinds
          (λ disk (calm, h). (calm, record { entry = h.entry; found = h.finds.found }))
          (λ e disk h. h) metadata-IsCalm)
        λ e.
          let part = take (min (retention.max_file_bytes - length e.content) (length buf)) buf in
          Runs-weaken (CalmFinds e) CalmOpen (with_file (λ file. file_write file part))
            (λ _. CalmOpen) (λ _. CalmOpen)
            (λ disk (calm, finds). (calm, record { entry = e; found = finds.found }))
            (λ n disk h. h) (writing-IsCalm part)

  needs_rotation-IsCalm :
      (metadata : LogEntry) → Runs Calm (needs_rotation retention metadata) (λ _. Calm)
  unfolding needs_rotation
  needs_rotation-IsCalm metadata =
      elim (Bool-cases (leb retention.max_file_bytes (length metadata.content))) [
        | inl e ↦ rw e (Runs-pure Calm _ true (λ disk h. h))
        | inr e ↦ rw e (
            Runs-bind Calm (λ _. Calm) (λ _. Calm) (retention_cutoff retention) _
              (retention_cutoff-IsCalm retention)
              λ cutoff.
                Runs-pure Calm _ (is_before retention cutoff metadata.modified) (λ disk h. h))
      ]

  cleanup_retention-IsCalm : Runs CalmOpen (cleanup_retention retention) (λ _. Calm)
  unfolding cleanup_retention current_log_needs_rotation
  cleanup_retention-IsCalm =
      Runs-bind CalmOpen (λ _. Calm) (λ _. Calm) (current_log_needs_rotation retention) _
        (Runs-bind CalmOpen CalmFinds (λ _. Calm) (with_file file_metadata) _ metadata-IsCalm
          λ e.
            Runs-weaken (CalmFinds e) Calm (needs_rotation retention e) (λ _. Calm) (λ _. Calm)
              (λ disk h. h.0) (λ _ disk h. h) (needs_rotation-IsCalm e))
        λ needed.
          Runs-bind Calm (λ _. Calm) (λ _. Calm) (rotate_if retention needed) _
            (rotate_if-IsCalm retention usable needed) (λ _. cleanup_logs-IsCalm retention usable)

  write_some-IsCalm : (buf : List ℕ) → Runs CalmOpen (write_some retention buf) (λ _. Calm)
  unfolding write_some
  write_some-IsCalm buf =
      Runs-bind CalmOpen CalmFinds (λ _. Calm) (with_file file_metadata) _ metadata-IsCalm
        λ e.
          Runs-bind (CalmFinds e) (λ _. Room) (λ _. Calm)
            (rotate_if retention (is_full retention (length e.content) (length buf))) _
            (Runs-and (CalmFinds e) _ (λ _. Calm) (λ _. HasRoom retention usable)
              (Runs-weaken (CalmFinds e) Calm _ (λ _. Calm) (λ _. Calm) (λ disk h. h.0)
                (λ _ disk h. h)
                (rotate_if-IsCalm retention usable
                  (is_full retention (length e.content) (length buf))))
              (Ensures-weaken (CalmFinds e) (Finds e) _ _ _ (λ disk h. h.1) (λ _ disk h. h)
                (rotate_if-Ensures retention usable e (length buf))))
            λ _.
              Runs-bind Room (λ _. CalmOpen) (λ _. Calm) (write_what_fits retention buf) _
                (write_what_fits-IsCalm buf)
                λ written.
                  Runs-bind CalmOpen (λ _. Calm) (λ _. Calm) (cleanup_retention retention) _
                    cleanup_retention-IsCalm (λ _. Runs-pure Calm _ written (λ disk h. h))

  -- Where no call fails, the clock is past the age that the retention allows, the file of the writer
  -- is open and no two files have the same name, with a retention that `validate_retention` accepts
  -- and a total below the largest `u64`: a write of a buffer with bytes succeeds, takes at least one
  -- of them, keeps the clock, and leaves the log files within the limits of count, total and size,
  -- none of them older than `max_age` at a time that the clock has shown during the write.
  pub write-IsCalm :
      (disk : Disk) (buf : List ℕ)
      → IsCalm retention.max_age disk
      → IsOpen disk
      → is_empty buf ≡ false
      → (written : ℕ) × ((write retention buf disk).0 ≡ ok written)
        × Takes buf written
        × ((write retention buf disk).1.clock ≡ disk.clock)
        × IsLimited retention usable disk.reads (write retention buf disk).1
  unfolding write
  write-IsCalm disk buf calm open_file some_bytes =
      let (n, e, _) = (write_some-IsCalm buf).at disk (calm, open_file) in
      let done : (write retention buf disk).0 ≡ ok n = rw some_bytes e in
      let (takes, same, limited) =
        write-IsLimited retention usable disk buf n calm.0 some_bytes done in
      (n, done, takes, same, limited)
