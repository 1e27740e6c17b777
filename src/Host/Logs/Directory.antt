-- ===== src/Host/Logs/Directory.antt =====
-- What the directory of crates/keyro-core/src/logging.rs is between calls, whatever calls fail: no two
-- files have the same name, and the inodes are taken in order.
use keyro_core.Common.{
  ℕ, suc, ◌+◌, ◌≤◌, ◌<◌, ◌≡◌, refl, String, str_eq, eq_iff, Bool, Bool-cases, inl, inr, true, List,
  [], ◌∷◌, ◌++◌, Option, none, some, map, count, count-append, All, All-append, All-map, All-weaken,
  length, take, find, arith, if◌then◌else◌,
}
use keyro_core.Common.Ensures.{Preserves}
use keyro_core.Host.Logs.Keeping.{IsSteady, system_call-Preserves}
use keyro_core.Host.Logs.Disk.{
  Disk, LogEntry, is_named, unlink, exists, system_time, remove_file, open_append, create_or,
  file_write, append_to, taken, new_entry,
}

abbrev pub has_name : String → LogEntry → Bool
has_name path e = is_named path e.name

abbrev pub IsBelow : ℕ → LogEntry → Type 0
IsBelow bound e = e.inode < bound

pub record IsDirectory (disk : Disk) : Type 0 where
  pub names : (path : String) → count (has_name path) disk.entries ≤ 1
  pub inodes : All (IsBelow disk.next_inode) disk.entries

pub IsDirectory-IsSteady : IsSteady IsDirectory
IsDirectory-IsSteady disk faults p = record { names = p.names; inodes = p.inodes }

pub system_time-IsDirectory : Preserves IsDirectory system_time
system_time-IsDirectory = record { at = λ disk p. record { names = p.names; inodes = p.inodes } }

pub count-map_le :
    (p : LogEntry → Bool) (f : LogEntry → LogEntry) (entries : List LogEntry)
    → ((e : LogEntry) → p (f e) ≡ true → p e ≡ true)
    → count p (map f entries) ≤ count p entries
count-map_le p f [] h = omega arith
count-map_le p f (e ∷ entries) h = ground (arith, h e, count-map_le p f entries h)

pub has_name-unlink :
    (path removed : String) (e : LogEntry)
    → has_name path (unlink removed e) ≡ true
    → has_name path e ≡ true
has_name-unlink path removed e h = ground arith

pub inodes-map :
    (f : LogEntry → LogEntry) (bound : ℕ) (entries : List LogEntry)
    → ((e : LogEntry) → (f e).inode ≡ e.inode)
    → All (IsBelow bound) entries
    → All (IsBelow bound) (map f entries)
inodes-map f bound entries h = All-map (IsBelow bound) f entries (λ e small. omega (arith, h e))

pub remove_file-IsDirectory : (path : String) → Preserves IsDirectory (remove_file path)
unfolding remove_file
remove_file-IsDirectory path = system_call-Preserves IsDirectory _ IsDirectory-IsSteady (record {
  at = λ disk p. elim (Bool-cases (exists path disk)) [
    | inl e ↦ rw e (record {
      names = λ other. omega (
        arith,
        p.names other,
        count-map_le (has_name other) (unlink path) disk.entries (has_name-unlink other path),
      );
      inodes = inodes-map (unlink path) disk.next_inode disk.entries (λ e. ground arith) p.inodes;
    })
    | inr e ↦ rw e p
  ];
})

find-count :
    (path : String) (entries : List LogEntry)
    → find (has_name path) entries ≡ none
    → count (has_name path) entries ≡ 0
find-count path [] h = refl
find-count path (e ∷ entries) h = ground (arith, find-count path entries)

count_created :
    (path other : String) (disk : Disk)
    → count (has_name other) (disk.entries ++ new_entry disk path ∷ [])
      ≡ count (has_name other) disk.entries + (if str_eq path other then 1 else 0)
count_created path other disk =
    ground (arith, count-append (has_name other) disk.entries (new_entry disk path ∷ []))

pub open_append-IsDirectory : (path : String) → Preserves IsDirectory (open_append path)
unfolding open_append create_or
open_append-IsDirectory path =
    system_call-Preserves IsDirectory _ IsDirectory-IsSteady
      (record { at = λ disk p. go disk p (find (has_name path) disk.entries) refl })
  where
    go :
        (disk : Disk)
        → IsDirectory disk
        → (o : Option LogEntry) → find (has_name path) disk.entries ≡ o
        → IsDirectory (create_or path o disk).1
    go disk p (some e) h = p
    go disk p none h = record {
      names = λ other. ground (
        arith,
        p.names other,
        count_created path other disk,
        find-count path disk.entries h,
        eq_iff path other,
      );
      inodes =
          All-append (IsBelow (suc disk.next_inode)) disk.entries (new_entry disk path ∷ [])
            (All-weaken (IsBelow disk.next_inode) (IsBelow (suc disk.next_inode)) disk.entries
              (λ e small. omega arith) p.inodes)
            (omega arith, tt);
    }

names-map :
    (path : String) (f : LogEntry → LogEntry) (entries : List LogEntry)
    → ((e : LogEntry) → (f e).name ≡ e.name)
    → count (has_name path) (map f entries) ≡ count (has_name path) entries
names-map path f [] h = refl
names-map path f (e ∷ entries) h = ground (arith, h e, names-map path f entries h)

pub file_write-IsDirectory :
    (handle : ℕ) (bytes : List ℕ) → Preserves IsDirectory (file_write handle bytes)
unfolding file_write append_to
file_write-IsDirectory handle bytes =
    system_call-Preserves IsDirectory _ IsDirectory-IsSteady (record {
      at = λ disk p. record {
        names = λ path.
            omega (arith, p.names path, names-map path (f disk) disk.entries (λ e. ground arith));
        inodes = inodes-map (f disk) disk.next_inode disk.entries (λ e. ground arith) p.inodes;
      };
    })
  where
    f : Disk → LogEntry → LogEntry
    f disk =
        let n = taken disk.caps (length bytes) in
        append_to handle (take n bytes) (disk.clock disk.reads)
