-- ===== src/Host/Logs/Disk.antt =====
-- The part of std::fs that crates/keyro-core/src/logging.rs calls, on one directory, as documented. A
-- file that is no longer linked stays as long as a handle is open, without a name. Each call may
-- fail, with no effect, as the environment chooses; the clock is read at each `SystemTime::now` and
-- at each change of a file; a write may take only a part of its bytes.
use keyro_core.Common.{
  ℕ, suc, String, str_eq, Bool, false, List, [], ◌∷◌, ◌++◌, Option, none, some, ok, err, map, find,
  length, take, ◌==◌, if◌then◌else◌, any, min,
}
use keyro_core.Common.Exec.{Exec}

-- `modified` is none where the time cannot be read.
pub record LogEntry : Type 0 where
  pub inode : ℕ
  pub name : Option String
  pub content : List ℕ
  pub modified : Option ℕ

-- The directory, and the handle that the `LogState` on it keeps in `file`.
pub record Disk : Type 0 where
  pub file : ℕ
  pub entries : List LogEntry
  pub next_inode : ℕ
  pub faults : List (Option String)
  pub caps : List ℕ
  pub clock : ℕ → ℕ
  pub reads : ℕ

abbrev pub Io : Type 0 → Type 0
Io A = Exec Disk String A

module _ {A : Type 0} where
  abbrev pub unless_failed : List (Option String) → Io A → Io A
  unless_failed [] call disk = call disk
  unless_failed (none ∷ rest) call disk = call (record disk { faults = rest })
  unless_failed (some text ∷ rest) call disk = (err text, record disk { faults = rest })

  -- One call of the system.
  abbrev pub system_call : Io A → Io A
  system_call call disk = unless_failed disk.faults call disk

-- A call that changes no file: `create_dir_all`, `flush`, the next entry of a `read_dir`.
unfoldable pub harmless : Io (Unit {0})
harmless = system_call (λ disk. (ok tt, disk))

-- `SystemTime::now`
abbrev pub system_time : Io ℕ
system_time disk = (ok (disk.clock disk.reads), record disk { reads = suc disk.reads })

abbrev pub is_named : String → Option String → Bool
is_named path none = false
is_named path (some name) = str_eq name path

abbrev pub unlink : String → LogEntry → LogEntry
unlink path e = if is_named path e.name then record e { name = none } else e

abbrev pub relink : String → String → LogEntry → LogEntry
relink source target e = if is_named source e.name then record e { name = some target } else e

-- `Path::exists`
abbrev pub exists : String → Disk → Bool
exists path disk = any (λ (e : LogEntry). is_named path e.name) disk.entries

-- `fs::remove_file`
unfoldable pub remove_file : String → Io (Unit {0})
remove_file path = system_call λ disk.
    if exists path disk
    then (ok tt, record disk { entries = map (unlink path) disk.entries })
    else (err "entity not found", disk)

-- `fs::rename` of two different paths: it replaces the target.
unfoldable pub rename_file : String → String → Io (Unit {0})
rename_file source target = system_call λ disk.
    if exists source disk
    then (
      ok tt,
      record disk { entries = map (λ e. relink source target (unlink target e)) disk.entries },
    )
    else (err "entity not found", disk)

-- What `read_dir` lists, with the metadata of each entry.
pub record DirEntry : Type 0 where
  pub path : String
  pub len : ℕ
  pub modified : Option ℕ

abbrev pub with_entry : LogEntry → Option String → List DirEntry → List DirEntry
with_entry e none rest = rest
with_entry e (some path) rest =
    record { path = path; len = length e.content; modified = e.modified } ∷ rest

abbrev pub listed : List LogEntry → List DirEntry
listed [] = []
listed (e ∷ entries) = with_entry e e.name (listed entries)

-- `fs::read_dir`
unfoldable pub read_dir : Io (List DirEntry)
read_dir = system_call (λ disk. (ok (listed disk.entries), disk))

abbrev pub new_entry : Disk → String → LogEntry
new_entry disk path = record {
  inode = disk.next_inode;
  name = some path;
  content = [];
  modified = some (disk.clock disk.reads);
}

unfoldable pub create_or : String → Option LogEntry → Io ℕ
create_or path (some e) disk = (ok e.inode, disk)
create_or path none disk = (
  ok disk.next_inode,
  record disk {
    entries = disk.entries ++ new_entry disk path ∷ [];
    next_inode = suc disk.next_inode;
    reads = suc disk.reads;
  },
)

-- `OpenOptions::new().create(true).append(true).open(..)`, the handle as its inode.
unfoldable pub open_append : String → Io ℕ
unfolding create_or
open_append path =
    system_call
      λ disk. create_or path (find (λ (e : LogEntry). is_named path e.name) disk.entries) disk

abbrev pub is_inode : ℕ → LogEntry → Bool
is_inode handle e = e.inode == handle

unfoldable pub found_or : Option LogEntry → Io LogEntry
found_or none disk = (err "bad file descriptor", disk)
found_or (some e) disk = (ok e, disk)

-- `File::metadata`
unfoldable pub file_metadata : ℕ → Io LogEntry
unfolding found_or
file_metadata handle = system_call (λ disk. found_or (find (is_inode handle) disk.entries) disk)

unfoldable pub append_to : ℕ → List ℕ → ℕ → LogEntry → LogEntry
append_to handle bytes now e =
    if is_inode handle e then record e { content = e.content ++ bytes; modified = some now } else e

-- How many bytes the next write takes: at least one of those that there are.
abbrev pub taken : List ℕ → ℕ → ℕ
taken [] n = n
taken (cap ∷ _) n = min n (suc cap)

abbrev pub later_caps : List ℕ → List ℕ
later_caps [] = []
later_caps (_ ∷ rest) = rest

-- `File::write` on a file opened for appending.
unfoldable pub file_write : ℕ → List ℕ → Io ℕ
unfolding append_to
file_write handle bytes = system_call λ disk.
    let n = taken disk.caps (length bytes) in
    (
      ok n,
      record disk {
        entries = map (append_to handle (take n bytes) (disk.clock disk.reads)) disk.entries;
        caps = later_caps disk.caps;
        reads = suc disk.reads;
      },
    )
