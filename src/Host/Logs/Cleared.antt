-- ===== src/Host/Logs/Cleared.antt =====
-- How a rotation of crates/keyro-core/src/logging.rs clears the name of the current log.
use keyro_core.Common.{
  ℕ, zero, suc, ◌≡◌, refl, String, str_eq, eq_iff, eq_refl, Bool-cases, inl, inr, false, true, List,
  [], ◌∷◌, Option, none, some, ok, count, any, ◌⊎◌, map, arith,
}
use keyro_core.Common.Decimal.{decimal}
use keyro_core.Common.Ensures.{Ensures, Ensures-bind, Preserves, Preserves-both, Ensures-Preserves}
use keyro_core.Host.Logs.Disk.{
  Disk, LogEntry, Io, unless_failed, system_call, exists, is_named, unlink, remove_file,
  rename_file,
}
use keyro_core.Host.Logs.Retention as Retention
use keyro_core.Host.Logs.Retention.{
  LogRetention, log_file_name, rotated_log_path, if_exists, shift_logs, cleanup_logs, rotate_logs,
}
use keyro_core.Host.Logs.Directory.{IsDirectory, IsDirectory-IsSteady, has_name, count-map_le}
use keyro_core.Host.Logs.Renaming.{rename_file-IsDirectory, count-moved, moved}
use keyro_core.Host.Logs.Keeping.{
  IsSteady, IsCleanable, system_call-Preserves, harmless-Preserves, read_dir-Preserves,
  cleanup_logs-Preserves,
}
use keyro_core.Host.Logs.Foreign.{rotated_log_path-is_keyro_log}
use keyro_core.Host.Logs.Rotating.{
  log_file_name-is_keyro_log, if_exists-Preserves, shift_logs-Preserves, removing,
}
use keyro_core.Host.Logs.Ownership.{IsDirectory-IsCleanable, IsDirectory-IsRotatable}

-- The condition of a call as that of the system call.
pub system_call-Ensures :
    {A : Type 0}
    → (P : Disk → Type 0) (call : Io A) (Q : A → Disk → Type 0) → IsSteady P
    → Ensures P call Q
    → Ensures P (system_call call) Q
system_call-Ensures {A} P call Q steady h = record { at = λ disk p a e. go disk disk.faults p a e }
  where
    go :
        (disk : Disk) (faults : List (Option String))
        → P disk
        → (a : A) → (unless_failed faults call disk).0 ≡ ok a
        → Q a (unless_failed faults call disk).1
    go disk [] p a e = h.at disk p a e
    go disk (none ∷ rest) p a e = h.at (record disk { faults = rest }) (steady disk rest p) a e
    go disk (some text ∷ rest) p a e = absurd (ground arith)

-- No file is named as the current log.
pub record IsAbsent (disk : Disk) : Type 0 where
  pub none_named : count (has_name log_file_name) disk.entries ≡ 0

count-exists :
    (path : String) (entries : List LogEntry)
    → any (λ (e : LogEntry). is_named path e.name) entries ≡ false
    → count (has_name path) entries ≡ 0
count-exists path [] h = refl
count-exists path (e ∷ entries) h = ground (arith, count-exists path entries)

count-unlinked :
    (path : String) (entries : List LogEntry)
    → count (has_name path) (map (unlink path) entries) ≡ 0
count-unlinked path [] = refl
count-unlinked path (e ∷ entries) = ground (arith, count-unlinked path entries)

IsAbsent-IsCleanable : IsCleanable IsAbsent
unfolding remove_file
IsAbsent-IsCleanable = record {
  time = record { at = λ disk p. record { none_named = p.none_named } };
  idle = harmless-Preserves IsAbsent steady;
  listing = read_dir-Preserves IsAbsent steady;
  removal = λ path _. system_call-Preserves IsAbsent _ steady (record {
    at = λ disk p. elim (Bool-cases (exists path disk)) [
      | inl e ↦ rw e (record {
        none_named = omega (
          arith,
          p.none_named,
          count-map_le (has_name log_file_name) (unlink path) disk.entries (λ e h. ground arith),
        );
      })
      | inr e ↦ rw e p
    ];
  });
}
  where
    steady : IsSteady IsAbsent
    steady disk faults p = record { none_named = p.none_named }

-- A step that clears the name of the current log, if it succeeds.
abbrev Clears : Io (Unit {0}) → Type 0
Clears m = Ensures IsDirectory m (λ _ disk. IsAbsent disk)

if_exists-Clears : (call : Io (Unit {0})) → Clears call → Clears (if_exists log_file_name call)
unfolding if_exists
if_exists-Clears call h = record {
  at = λ disk p a r. go disk p a r (Bool-cases (exists log_file_name disk));
}
  where
    go :
        (disk : Disk)
        → IsDirectory disk
        → (a : Unit {0}) → (if_exists log_file_name call disk).0 ≡ ok a
        → (exists log_file_name disk ≡ true) ⊎ (exists log_file_name disk ≡ false)
        → IsAbsent (if_exists log_file_name call disk).1
    go disk p a r (inl e) = rw e (h.at disk p a (rw e at r))
    go disk p a r (inr e) = rw e (record { none_named = count-exists log_file_name disk.entries e })

remove_file-Clears : Clears (remove_file log_file_name)
unfolding remove_file
remove_file-Clears = system_call-Ensures IsDirectory _ _ IsDirectory-IsSteady (record {
  at = λ disk p a r. elim (Bool-cases (exists log_file_name disk)) [
    | inl e ↦ rw e (record { none_named = count-unlinked log_file_name disk.entries })
    | inr e ↦ rw e (record { none_named = count-exists log_file_name disk.entries e })
  ];
})

current_differs : str_eq log_file_name (rotated_log_path 0) ≡ false
unfolding rotated_log_path decimal
current_differs = refl

count-renamed :
    (entries : List LogEntry)
    → count (has_name log_file_name) (map (moved log_file_name (rotated_log_path 0)) entries) ≡ 0
count-renamed entries = ground (
  arith,
  current_differs,
  eq_iff log_file_name (rotated_log_path 0),
  eq_iff (rotated_log_path 0) log_file_name,
  eq_refl log_file_name,
  count-moved log_file_name (rotated_log_path 0) log_file_name entries current_differs,
)

rename_file-Clears : Clears (rename_file log_file_name (rotated_log_path 0))
unfolding rename_file moved
rename_file-Clears = system_call-Ensures IsDirectory _ _ IsDirectory-IsSteady (record {
  at = λ disk p a r. elim (Bool-cases (exists log_file_name disk)) [
    | inl e ↦ rw e (record { none_named = count-renamed disk.entries })
    | inr e ↦ rw e (record { none_named = count-exists log_file_name disk.entries e })
  ];
})

abbrev pub IsCleared : Disk → Type 0
IsCleared disk = IsDirectory disk × IsAbsent disk

Clears-both :
    (m : Io (Unit {0}))
    → Preserves IsDirectory m
    → Clears m
    → Ensures IsDirectory m (λ _ disk. IsCleared disk)
Clears-both m keep clear = record { at = λ disk p a r. (keep.at disk p, clear.at disk p a r) }

module _ (retention : LogRetention) where
  cleanup_logs-IsCleared : Preserves IsCleared (cleanup_logs retention)
  cleanup_logs-IsCleared =
      Preserves-both IsDirectory IsAbsent (cleanup_logs retention)
        (cleanup_logs-Preserves IsDirectory IsDirectory-IsCleanable retention)
        (cleanup_logs-Preserves IsAbsent IsAbsent-IsCleanable retention)

  pub rotate-Clears :
      (max_rotated_files : ℕ)
      → Ensures IsDirectory
          (Retention.rotate retention max_rotated_files)
          (λ _ disk. IsCleared disk)
  unfolding Retention.rotate
  rotate-Clears zero =
      Clears-both (if_exists log_file_name (remove_file log_file_name))
        (removing IsDirectory IsDirectory-IsRotatable log_file_name log_file_name-is_keyro_log)
        (if_exists-Clears (remove_file log_file_name) remove_file-Clears)
  rotate-Clears (suc last) =
      let path = rotated_log_path last in
      let move = rename_file log_file_name (rotated_log_path 0) in
      Ensures-bind IsDirectory (λ _. IsDirectory) _ (if_exists path (remove_file path)) _
        (Ensures-Preserves IsDirectory (if_exists path (remove_file path))
          (removing IsDirectory IsDirectory-IsRotatable path (rotated_log_path-is_keyro_log last)))
        λ _.
          Ensures-bind IsDirectory (λ _. IsDirectory) _ (shift_logs last) _
            (Ensures-Preserves IsDirectory (shift_logs last)
              (shift_logs-Preserves IsDirectory IsDirectory-IsRotatable last))
            λ _.
              Ensures-bind IsDirectory (λ _. IsCleared) _ (if_exists log_file_name move) _
                (Clears-both (if_exists log_file_name move)
                  (if_exists-Preserves IsDirectory IsDirectory-IsRotatable log_file_name move
                    (rename_file-IsDirectory log_file_name (rotated_log_path 0)))
                  (if_exists-Clears move rename_file-Clears))
                λ _. Ensures-Preserves IsCleared (cleanup_logs retention) cleanup_logs-IsCleared
