-- ===== src/Host/Logs/Elapsed.antt =====
-- The time that passes in the maintenance of crates/keyro-core/src/logging.rs: the clock is read on
-- and on.
use keyro_core.Common.{
  ℕ, suc, ◌≡◌, refl, ◌≤◌, ◌-◌, List, [], String, Bool-cases, inl, inr, Option, none, some, Result,
  ok, err, find, arith, leb, if◌then◌else◌,
}
use keyro_core.Common.Exec.{lift, ◌>>=◌}
use keyro_core.Common.Ensures.{Preserves, Preserves-bind}
use keyro_core.Host.Logs.Disk.{
  Disk, LogEntry, Io, system_time, remove_file, rename_file, exists, open_append, create_or,
  file_write, file_metadata, read_dir, is_named,
}
use keyro_core.Host.Logs.Retention.{
  LogRetention, log_file_name, retention_cutoff, cleanup_logs, scan, enforce_limits,
}
use keyro_core.Host.Logs.Writer.{with_file, write_what_fits}
use keyro_core.Host.Logs.Keeping.{
  IsSteady, IsCleanable, system_call-Preserves, harmless-Preserves, read_dir-Preserves,
  after_cutoff-Preserves,
}
use keyro_core.Host.Logs.Rotating.{IsRotatable, metadata-Preserves}

-- The disk has this clock, which has been read this many times at least.
pub record Since (start : ℕ) (clock : ℕ → ℕ) (disk : Disk) : Type 0 where
  pub started : start ≤ disk.reads
  pub same : disk.clock ≡ clock

module _ (start : ℕ) (clock : ℕ → ℕ) where
  Since-IsSteady : IsSteady (Since start clock)
  Since-IsSteady disk faults h = record { started = h.started; same = h.same }

  remove_file-Since : (path : String) → Preserves (Since start clock) (remove_file path)
  unfolding remove_file
  remove_file-Since path = system_call-Preserves (Since start clock) _ Since-IsSteady (record {
    at = λ disk h. elim (Bool-cases (exists path disk)) [
      | inl e ↦ rw e (record { started = h.started; same = h.same })
      | inr e ↦ rw e h
    ];
  })

  rename_file-Since :
      (source target : String) → Preserves (Since start clock) (rename_file source target)
  unfolding rename_file
  rename_file-Since source target =
      system_call-Preserves (Since start clock) _ Since-IsSteady (record {
        at = λ disk h. elim (Bool-cases (exists source disk)) [
          | inl e ↦ rw e (record { started = h.started; same = h.same })
          | inr e ↦ rw e h
        ];
      })

  open_append-Since : (path : String) → Preserves (Since start clock) (open_append path)
  unfolding open_append create_or
  open_append-Since path = system_call-Preserves (Since start clock) _ Since-IsSteady (record {
    at = λ disk h. go disk (find (λ (e : LogEntry). is_named path e.name) disk.entries) h;
  })
    where
      go :
          (disk : Disk) (o : Option LogEntry)
          → Since start clock disk
          → Since start clock (create_or path o disk).1
      go disk (some e) h = h
      go disk none h = record { started = omega (arith, h.started); same = h.same }

  file_write-Since :
      (handle : ℕ) (bytes : List ℕ) → Preserves (Since start clock) (file_write handle bytes)
  unfolding file_write
  file_write-Since handle bytes =
      system_call-Preserves (Since start clock) _ Since-IsSteady
        (record { at = λ disk h. record { started = omega (arith, h.started); same = h.same } })

  Since-IsCleanable : IsCleanable (Since start clock)
  Since-IsCleanable = record {
    time = record { at = λ disk h. record { started = omega (arith, h.started); same = h.same } };
    idle = harmless-Preserves (Since start clock) Since-IsSteady;
    listing = read_dir-Preserves (Since start clock) Since-IsSteady;
    removal = λ path _. remove_file-Since path;
  }

  pub Since-IsRotatable : IsRotatable (Since start clock)
  Since-IsRotatable = record {
    steady = Since-IsSteady;
    cleaning = Since-IsCleanable;
    renaming = λ source target _ _. rename_file-Since source target;
    opening = open_append-Since log_file_name;
    setting = λ file. record { at = λ disk h. record { started = h.started; same = h.same } };
  }

  pub write_what_fits-Since :
      (retention : LogRetention) (buf : List ℕ)
      → Preserves (Since start clock) (write_what_fits retention buf)
  unfolding write_what_fits
  write_what_fits-Since retention buf =
      Preserves-bind (Since start clock) (with_file file_metadata) _
        (metadata-Preserves (Since start clock) Since-IsRotatable retention)
        λ e. record { at = λ disk h. (file_write-Since disk.file _).at disk h }

-- A cleanup that succeeds has read the clock.
pub cleanup_logs-Since :
    (retention : LogRetention) (disk : Disk)
    → (cleanup_logs retention disk).0 ≡ ok tt
    → Since (suc disk.reads) disk.clock (cleanup_logs retention disk).1
unfolding cleanup_logs retention_cutoff
cleanup_logs-Since retention disk done =
    go
      (if leb retention.max_age (disk.clock disk.reads)
        then ok (disk.clock disk.reads - retention.max_age)
        else err "invalid log retention age")
      done
  where
    later_disk : Disk
    later_disk = (system_time disk).1

    rest : ℕ → Io (Unit {0})
    rest cutoff = read_dir >>= λ entries.
        scan retention cutoff [] entries >>= λ retained. enforce_limits retention retained

    go :
        (r : Result String ℕ)
        → ((lift r >>= rest) later_disk).0 ≡ ok tt
        → Since (suc disk.reads) disk.clock ((lift r >>= rest) later_disk).1
    go (ok cutoff) e =
        (after_cutoff-Preserves (Since (suc disk.reads) disk.clock)
            (Since-IsCleanable (suc disk.reads) disk.clock) retention cutoff).at
          later_disk (record { started = omega arith; same = refl })
    go (err x) e = absurd (ground arith)
