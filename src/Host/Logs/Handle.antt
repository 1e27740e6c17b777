-- ===== src/Host/Logs/Handle.antt =====
-- The methods of the file that the writer of crates/keyro-core/src/logging.rs has open, on success.
use keyro_core.Common.{
  ℕ, zero, suc, ◌+◌, ◌≡◌, refl, ◌≤◌, subst, sym, String, List, [], ◌∷◌, Option, none, some, ok,
  count, find, total, length, take, min, arith, if◌then◌else◌,
}
use keyro_core.Common.Ensures.{Ensures}
use keyro_core.Common.Totals.{marks}
use keyro_core.Host.Logs.Disk.{
  Disk, LogEntry, DirEntry, with_entry, listed, file_metadata, found_or, is_inode, file_write,
  taken,
}
use keyro_core.Host.Logs.Writer.{with_file}
use keyro_core.Host.Logs.Contents.{logs_of, disk_logs, has_path, AreDistinct}
use keyro_core.Host.Logs.Directory.{
  IsDirectory, IsDirectory-IsSteady, has_name, file_write-IsDirectory,
}
use keyro_core.Host.Logs.Cleared.{system_call-Ensures}

total-with_entry :
    (path : String) (e : LogEntry) (name : Option String) (rest : List DirEntry)
    → e.name ≡ name
    → total (marks (has_path path)) (logs_of (with_entry e e.name rest))
      ≤ (if has_name path e then 1 else 0) + total (marks (has_path path)) (logs_of rest)
total-with_entry path e none rest here = ground (arith, here)
total-with_entry path e (some n) rest here = ground (arith, here)

pub total-logs_of :
    (path : String) (entries : List LogEntry)
    → total (marks (has_path path)) (logs_of (listed entries)) ≤ count (has_name path) entries
total-logs_of path [] = omega arith
total-logs_of path (e ∷ entries) =
    ground (arith, total-with_entry path e e.name (listed entries) refl, total-logs_of path entries)

pub IsDirectory-AreDistinct : (disk : Disk) → IsDirectory disk → AreDistinct (disk_logs disk)
IsDirectory-AreDistinct disk p path = omega (arith, p.names path, total-logs_of path disk.entries)

-- The file of the handle.
pub record Finds (e : LogEntry) (disk : Disk) : Type 0 where
  pub directory : IsDirectory disk
  pub found : find (is_inode disk.file) disk.entries ≡ some e

abbrev Opens : ℕ → Disk → Type 0
Opens file disk = IsDirectory disk × (disk.file ≡ file)

found_or-Finds :
    (file : ℕ) (disk : Disk)
    → Opens file disk
    → (o : Option LogEntry) → find (is_inode file) disk.entries ≡ o
    → (e : LogEntry) → (found_or o disk).0 ≡ ok e
    → Finds e (found_or o disk).1
unfolding found_or
found_or-Finds file disk (p, same) none h e r = absurd (ground arith)
found_or-Finds file disk (p, same) (some x) h e r =
    let this : x ≡ e = ground arith in
    record {
      directory = p;
      found =
          subst (λ y. find (is_inode disk.file) disk.entries ≡ some y) this
            (subst (λ f. find (is_inode f) disk.entries ≡ some x) (sym same) h);
    }

file_metadata-Ensures : (file : ℕ) → Ensures (Opens file) (file_metadata file) Finds
unfolding file_metadata
file_metadata-Ensures file =
    system_call-Ensures (Opens file) _ Finds
      (λ disk faults (p, same). (IsDirectory-IsSteady disk faults p, same))
      (record {
        at = λ disk p e r. found_or-Finds file disk p (find (is_inode file) disk.entries) refl e r;
      })

pub metadata-Ensures : Ensures IsDirectory (with_file file_metadata) Finds
metadata-Ensures = record {
  at = λ disk p e r. (file_metadata-Ensures disk.file).at disk (p, refl) e r;
}

pub length-take : (n : ℕ) (xs : List ℕ) → length (take n xs) ≡ min n (length xs)
length-take zero xs = ground arith
length-take (suc n) [] = ground arith
length-take (suc n) (x ∷ xs) = ground (arith, length-take n xs)

-- What a write of some bytes returns.
abbrev pub Takes : List ℕ → ℕ → Type 0
Takes buf written = (1 ≤ written) × (written ≤ length buf)

pub file_write-Ensures :
    (file : ℕ) (bytes : List ℕ)
    → 1 ≤ length bytes
    → Ensures IsDirectory
        (file_write file bytes)
        (λ written disk. IsDirectory disk × Takes bytes written)
unfolding file_write
file_write-Ensures file bytes some_bytes = record {
  at = λ disk p n r. ((file_write-IsDirectory file bytes).at disk p, written.at disk p n r);
}
  where
    go : (disk : Disk) (caps : List ℕ) (n : ℕ) → taken caps (length bytes) ≡ n → Takes bytes n
    go disk [] n r = (omega arith, omega arith)
    go disk (cap ∷ rest) n r = (ground arith, ground arith)

    written : Ensures IsDirectory (file_write file bytes) (λ written _. Takes bytes written)
    written =
        system_call-Ensures IsDirectory _ _ IsDirectory-IsSteady
          (record { at = λ disk p n r. go disk disk.caps n (ground arith) })
