-- ===== src/Host/Logs/Ready.antt =====
-- What a rotation of crates/keyro-core/src/logging.rs ends with: a new, empty current log.
use keyro_core.Common.{
  ℕ, ◌-◌, ◌≡◌, refl, String, List, [], ◌∷◌, ◌++◌, Option, none, some, ok, count, All, subst, find,
  arith,
}
use keyro_core.Common.Ensures.{Ensures, Ensures-bind, Ensures-Preserves}
use keyro_core.Host.Logs.Disk.{
  Disk, LogEntry, harmless, open_append, create_or, new_entry, is_inode,
}
use keyro_core.Host.Logs.Retention.{LogRetention, log_file_name, rotate_logs}
use keyro_core.Host.Logs.Writer.{open_current_log, set_file, rotate}
use keyro_core.Host.Logs.Directory.{
  open_append-IsDirectory, IsDirectory, IsDirectory-IsSteady, IsBelow, has_name,
}
use keyro_core.Host.Logs.Keeping.{harmless-Preserves}
use keyro_core.Host.Logs.Cleared.{system_call-Ensures, IsCleared, rotate-Clears}

-- The handle is of a file with no content.
pub record IsReady (file : ℕ) (disk : Disk) : Type 0 where
  pub entry : LogEntry
  pub found : find (is_inode file) disk.entries ≡ some entry
  pub empty : entry.content ≡ []

find-absent :
    (path : String) (entries : List LogEntry)
    → count (has_name path) entries ≡ 0
    → find (has_name path) entries ≡ none
find-absent path [] h = refl
find-absent path (e ∷ entries) h = ground (arith, find-absent path entries)

find-created :
    (bound : ℕ) (entries : List LogEntry) (e : LogEntry)
    → e.inode ≡ bound
    → All (IsBelow bound) entries
    → find (is_inode bound) (entries ++ e ∷ []) ≡ some e
find-created bound [] e h small = ground (arith)
find-created bound (x ∷ entries) e h small =
    ground (arith, small.0, find-created bound entries e h small.1)

module _ (retention : LogRetention) where
  opening-Ensures :
      Ensures IsCleared open_current_log (λ file disk. IsDirectory disk × IsReady file disk)
  unfolding open_append create_or
  opening-Ensures = record {
    at = λ disk p file r.
        ((open_append-IsDirectory log_file_name).at disk p.0, ready.at disk p file r);
  }
    where
      go :
          (disk : Disk)
          → IsCleared disk
          → (file : ℕ) → (o : Option LogEntry) → find (has_name log_file_name) disk.entries ≡ o
          → (create_or log_file_name o disk).0 ≡ ok file
          → IsReady file (create_or log_file_name o disk).1
      go disk (p, absent) file (some e) h r =
          absurd (ground (arith, h, find-absent log_file_name disk.entries absent.none_named))
      go disk (p, absent) file none h r =
          let same : disk.next_inode ≡ file = ground arith in
          subst (λ f. IsReady f (create_or log_file_name none disk).1) same
            (record {
              entry = new_entry disk log_file_name;
              found =
                  find-created disk.next_inode disk.entries (new_entry disk log_file_name) refl
                    p.inodes;
              empty = refl;
            })

      ready : Ensures IsCleared open_current_log IsReady
      ready =
          system_call-Ensures IsCleared _ IsReady
            (λ disk faults (p, absent).
              (IsDirectory-IsSteady disk faults p, record { none_named = absent.none_named }))
            (record {
              at = λ disk p file r.
                  go disk p file (find (has_name log_file_name) disk.entries) refl r;
            })

  -- After a rotation that succeeds the file of the writer is empty.
  pub rotation-Ensures :
      Ensures IsDirectory (rotate retention) (λ _ disk. IsDirectory disk × IsReady disk.file disk)
  unfolding rotate rotate_logs
  rotation-Ensures =
      Ensures-bind IsDirectory (λ _. IsDirectory) _ harmless _
        (Ensures-Preserves IsDirectory harmless
          (harmless-Preserves IsDirectory IsDirectory-IsSteady))
        λ _.
          Ensures-bind IsDirectory (λ _. IsCleared) _ (rotate_logs retention) _
            (rotate-Clears retention (retention.max_files - 1))
            λ _.
              Ensures-bind IsCleared (λ file disk. IsDirectory disk × IsReady file disk) _
                open_current_log set_file opening-Ensures
                λ file. record {
                  at = λ disk (p, ready) _ _. (
                    record { names = p.names; inodes = p.inodes },
                    record { entry = ready.entry; found = ready.found; empty = ready.empty },
                  );
                }
