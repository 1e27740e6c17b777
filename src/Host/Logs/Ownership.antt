-- ===== src/Host/Logs/Ownership.antt =====
-- The files that the maintenance of crates/keyro-core/src/logging.rs owns: those named as its logs.
use keyro_core.Common.{
  ◌≡◌, refl, ◌∙◌, String, false, List, [], ◌∷◌, ◌++◌, Option, none, some, filter, find, arith,
}
use keyro_core.Common.Ensures.{Preserves}
use keyro_core.Host.Logs.Disk.{Disk, LogEntry, open_append, create_or, new_entry}
use keyro_core.Host.Logs.Retention.{LogRetention, is_keyro_log, log_file_name}
use keyro_core.Host.Logs.Writer.{open_current_log, cleanup_retention, new_writer}
use keyro_core.Host.Logs.Directory.{
  IsDirectory, IsDirectory-IsSteady, system_time-IsDirectory, remove_file-IsDirectory,
  open_append-IsDirectory, has_name,
}
use keyro_core.Host.Logs.Renaming.{rename_file-IsDirectory}
use keyro_core.Host.Logs.Keeping.{
  IsCleanable, system_call-Preserves, harmless-Preserves, read_dir-Preserves,
}
use keyro_core.Host.Logs.Foreign.{
  files_named, Holds, Holds-IsSteady, Holds-IsCleanable, rename_file-Holds, differs,
}
use keyro_core.Host.Logs.Rotating.{
  IsRotatable, log_file_name-is_keyro_log, cleanup_retention-Preserves, new_writer-Preserves,
}

pub IsDirectory-IsCleanable : IsCleanable IsDirectory
IsDirectory-IsCleanable = record {
  time = system_time-IsDirectory;
  idle = harmless-Preserves IsDirectory IsDirectory-IsSteady;
  listing = read_dir-Preserves IsDirectory IsDirectory-IsSteady;
  removal = λ path _. remove_file-IsDirectory path;
}

pub IsDirectory-IsRotatable : IsRotatable IsDirectory
IsDirectory-IsRotatable = record {
  steady = IsDirectory-IsSteady;
  cleaning = IsDirectory-IsCleanable;
  renaming = λ source target _ _. rename_file-IsDirectory source target;
  opening = open_append-IsDirectory log_file_name;
  setting = λ file. record { at = λ disk p. record { names = p.names; inodes = p.inodes } };
}

filter-append_off :
    (path : String) (entries : List LogEntry) (e : LogEntry)
    → has_name path e ≡ false
    → filter (has_name path) (entries ++ e ∷ []) ≡ filter (has_name path) entries
filter-append_off path [] e h = ground arith
filter-append_off path (x ∷ entries) e h = ground (arith, filter-append_off path entries e h)

module _ (path : String) (foreign : is_keyro_log path ≡ false) where
  opening-Holds : (files : List LogEntry) → Preserves (Holds path files) open_current_log
  unfolding open_append create_or
  opening-Holds files =
      system_call-Preserves (Holds path files) _ (Holds-IsSteady path foreign files)
        (record { at = λ disk p. go disk p (find (has_name log_file_name) disk.entries) })
    where
      go :
          (disk : Disk)
          → Holds path files disk
          → (o : Option LogEntry) → Holds path files (create_or log_file_name o disk).1
      go disk p (some e) = p
      go disk p none =
          filter-append_off path disk.entries (new_entry disk log_file_name)
            (differs path log_file_name foreign log_file_name-is_keyro_log)
          ∙ p

  Holds-IsRotatable : (files : List LogEntry) → IsRotatable (Holds path files)
  Holds-IsRotatable files = record {
    steady = Holds-IsSteady path foreign files;
    cleaning = Holds-IsCleanable path foreign files;
    renaming = rename_file-Holds path foreign files;
    opening = opening-Holds files;
    setting = λ file. record { at = λ disk p. p };
  }

-- The start of the writer and the maintenance change no file that is not named as a log of this
-- program: its name, its inode, its content and its time stay, whichever calls fail, whatever the
-- retention and the directory.
pub cleanup_retention-files_named :
    (retention : LogRetention) (path : String)
    → is_keyro_log path ≡ false
    → (disk : Disk)
    → (files_named path (new_writer retention disk).1 ≡ files_named path disk)
      × (files_named path (cleanup_retention retention disk).1 ≡ files_named path disk)
cleanup_retention-files_named retention path foreign disk =
    let keep = Holds-IsRotatable path foreign (files_named path disk) in
    (
      (new_writer-Preserves (Holds path (files_named path disk)) keep retention).at disk refl,
      (cleanup_retention-Preserves (Holds path (files_named path disk)) keep retention).at disk
          refl,
    )
