-- ===== src/Host/Logs/Contents.antt =====
-- The dated log files of a directory of crates/keyro-core/src/logging.rs, and what a removal does to
-- them.
use keyro_core.Common.{
  ◌≤◌, ◌≡◌, refl, String, str_eq, eq_refl, Bool, List, [], ◌∷◌, ◌++◌, Option, none, some, ok, err,
  filter, map, not, total, arith, if◌then◌else◌,
}
use keyro_core.Common.Ensures.{Ensures}
use keyro_core.Common.Totals.{SameElements, marks, filter-SameElements}
use keyro_core.Host.Logs.Disk.{
  Disk, LogEntry, DirEntry, Io, unless_failed, with_entry, listed, unlink, exists, remove_file,
}
use keyro_core.Host.Logs.Retention.{LogFile, dated}

abbrev pub add_dated : Option LogFile → List LogFile → List LogFile
add_dated none files = files
add_dated (some f) files = f ∷ files

abbrev pub logs_of : List DirEntry → List LogFile
logs_of [] = []
logs_of (entry ∷ entries) = add_dated (dated entry entry.modified) (logs_of entries)

-- The log files that have a name and a date.
abbrev pub disk_logs : Disk → List LogFile
disk_logs disk = logs_of (listed disk.entries)

abbrev pub has_path : String → LogFile → Bool
has_path path f = str_eq f.path path

-- No two of the files have the same path.
abbrev pub AreDistinct : List LogFile → Type 0
AreDistinct files = (path : String) → total (marks (has_path path)) files ≤ 1

abbrev others : String → LogFile → Bool
others path f = not (has_path path f)

logs-unlink :
    (path : String) (e : LogEntry) (name : Option String) (rest rest' : List DirEntry)
    → e.name ≡ name
    → logs_of rest' ≡ filter (others path) (logs_of rest)
    → logs_of (with_entry (unlink path e) (unlink path e).name rest')
      ≡ filter (others path) (logs_of (with_entry e e.name rest))
logs-unlink path e none rest rest' named h = ground arith
logs-unlink path e (some name) rest rest' named h = ground arith

logs-map-unlink :
    (path : String) (entries : List LogEntry)
    → logs_of (listed (map (unlink path) entries)) ≡ filter (others path) (logs_of (listed entries))
logs-map-unlink path [] = refl
logs-map-unlink path (e ∷ entries) =
    logs-unlink path e e.name (listed entries) (listed (map (unlink path) entries)) refl
      (logs-map-unlink path entries)

remove_file-entries :
    (path : String) (disk : Disk)
    → (remove_file path disk).0 ≡ ok tt
    → (remove_file path disk).1.entries ≡ map (unlink path) disk.entries
unfolding remove_file
remove_file-entries path disk h = go disk.faults h
  where
    call : Io (Unit {0})
    call = λ disk.
        if exists path disk
        then (ok tt, record disk { entries = map (unlink path) disk.entries })
        else (err "entity not found", disk)

    go :
        (faults : List (Option String))
        → (unless_failed faults call disk).0 ≡ ok tt
        → (unless_failed faults call disk).1.entries ≡ map (unlink path) disk.entries
    go [] h = ground arith
    go (none ∷ rest) h = ground arith
    go (some text ∷ rest) h = absurd (ground arith)

-- A removal that succeeds takes its file out, and no other.
pub remove_file-Ensures :
    (before : List LogFile) (f : LogFile) (after : List LogFile)
    → AreDistinct (before ++ f ∷ after)
    → Ensures
        (λ disk. SameElements (disk_logs disk) (before ++ f ∷ after))
        (remove_file f.path)
        (λ _ disk. SameElements (disk_logs disk) (before ++ after))
remove_file-Ensures before f after distinct = record {
  at = λ disk same _ e.
      rw (remove_file-entries f.path disk e, logs-map-unlink f.path disk.entries)
        (filter-SameElements (has_path f.path) (others f.path) before f after (disk_logs disk)
          (λ g. ground arith) (eq_refl f.path) (distinct f.path) same);
}
