-- ===== src/Host/Logs/Renaming.antt =====
-- What a rename does to the names of the directory of crates/keyro-core/src/logging.rs.
use keyro_core.Common.{
  ◌≤◌, ◌≡◌, refl, String, str_eq, eq_iff, Bool-cases, inl, inr, true, false, List, [], ◌∷◌, Option,
  none, some, map, count, subst, ◌⊎◌, arith, if◌then◌else◌,
}
use keyro_core.Common.Ensures.{Preserves}
use keyro_core.Host.Logs.Keeping.{system_call-Preserves}
use keyro_core.Host.Logs.Disk.{Disk, LogEntry, unlink, relink, exists, rename_file}
use keyro_core.Host.Logs.Directory.{
  IsDirectory, IsDirectory-IsSteady, has_name, count-map_le, inodes-map,
}

-- After a rename the source is nobody's name, and the target is the source's.
unfoldable pub moved : String → String → LogEntry → LogEntry
moved source target e = relink source target (unlink target e)

has_name-moved :
    (source target path : String) (e : LogEntry)
    → str_eq source target ≡ false
    → has_name path (moved source target e) ≡ (
        if str_eq target path
        then has_name source e
        else if str_eq source path
        then false
        else has_name path e)
unfolding moved
has_name-moved source target path e h = named e.name refl
  where
    named :
        (name : Option String)
        → e.name ≡ name
        → has_name path (moved source target e) ≡ (
            if str_eq target path
            then has_name source e
            else if str_eq source path
            then false
            else has_name path e)
    named none here = ground (arith, here)
    named (some n) here = ground (
      arith,
      here,
      eq_iff n source,
      eq_iff n target,
      eq_iff n path,
      eq_iff source path,
      eq_iff target path,
      eq_iff source target,
    )

pub count-moved :
    (source target path : String) (entries : List LogEntry)
    → str_eq source target ≡ false
    → count (has_name path) (map (moved source target) entries) ≡ (
        if str_eq target path
        then count (has_name source) entries
        else if str_eq source path
        then 0
        else count (has_name path) entries)
count-moved source target path [] h = ground arith
count-moved source target path (e ∷ entries) h =
    ground (arith, count-moved source target path entries, has_name-moved source target path e)

moved-same :
    (path other : String) (e : LogEntry)
    → has_name other (moved path path e) ≡ true
    → has_name other e ≡ true
unfolding moved
moved-same path other e h = ground arith

pub rename_file-IsDirectory :
    (source target : String) → Preserves IsDirectory (rename_file source target)
unfolding rename_file moved
rename_file-IsDirectory source target =
    system_call-Preserves IsDirectory _ IsDirectory-IsSteady (record {
      at = λ disk p. elim (Bool-cases (exists source disk)) [
        | inl e ↦ rw e (record {
          names = λ other. at_most disk p other (Bool-cases (str_eq source target));
          inodes =
              inodes-map (moved source target) disk.next_inode disk.entries (λ e. ground arith)
                p.inodes;
        })
        | inr e ↦ rw e p
      ];
    })
  where
    at_most :
        (disk : Disk)
        → IsDirectory disk
        → (other : String) → (str_eq source target ≡ true) ⊎ (str_eq source target ≡ false)
        → count (has_name other) (map (moved source target) disk.entries) ≤ 1
    at_most disk p other (inl e) =
        let same : source ≡ target = ground (arith, eq_iff source target) in
        omega (
          arith,
          p.names other,
          count-map_le (has_name other) (moved source target) disk.entries (
              subst
                (λ t.
                  (e : LogEntry)
                  → has_name other (moved source t e) ≡ true
                  → has_name other e ≡ true)
                same (moved-same source other)),
        )
    at_most disk p other (inr e) =
        ground
          (arith, count-moved source target other disk.entries e, p.names other, p.names source)
