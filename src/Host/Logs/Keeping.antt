-- ===== src/Host/Logs/Keeping.antt =====
-- What a cleanup of crates/keyro-core/src/logging.rs keeps, whatever it finds and whatever fails: it
-- changes the directory by removals of log files alone.
use keyro_core.Common.{
  ℕ, suc, ◌≡◌, refl, String, Bool-cases, inl, inr, true, List, [], ◌∷◌, ◌++◌, find, Option, none,
  some, ok, err, All, All-append, arith, is_none, position, if◌then◌else◌, leb, ◌-◌,
}
use keyro_core.Common.Exec.{pure, ◌>>◌, ◌>>=◌}
use keyro_core.Common.Ensures.{
  Preserves, Preserves-bind, Preserves-lift, Yields, Yields-Preserves-bind, Yields-bind,
  Yields-pure,
}
use keyro_core.Common.Ordered.{sort_by, All-sort_by}
use keyro_core.Host.Logs.Disk.{
  Disk, LogEntry, DirEntry, Io, unless_failed, system_call, file_metadata, found_or, is_inode,
  system_time, harmless, remove_file, read_dir,
}
use keyro_core.Host.Logs.Retention.{
  LogRetention, LogFile, is_keyro_log, retention_cutoff, dated, is_expired, retain, scan, is_index,
  is_over, enforce, enforce_limits, newest_first, size_at, is_current_log, cleanup_logs,
  saturating_add,
}
use keyro_core.Host.Logs.Enforce.{enforce_current, enforce_over, enforce_kept}

-- A condition that is not about the failures to come.
abbrev pub IsSteady : (Disk → Type 0) → Type 0
IsSteady P =
    (disk : Disk) (faults : List (Option String)) → P disk → P (record disk { faults = faults })

pub system_call-Preserves :
    {A : Type 0}
    → (P : Disk → Type 0) (call : Io A) → IsSteady P
    → Preserves P call
    → Preserves P (system_call call)
system_call-Preserves {A} P call steady h = record { at = λ disk p. go disk disk.faults p }
  where
    go :
        (disk : Disk) (faults : List (Option String))
        → P disk
        → P (unless_failed faults call disk).1
    go disk [] p = h.at disk p
    go disk (none ∷ rest) p = h.at (record disk { faults = rest }) (steady disk rest p)
    go disk (some text ∷ rest) p = steady disk rest p

pub harmless-Preserves : (P : Disk → Type 0) → IsSteady P → Preserves P harmless
unfolding harmless
harmless-Preserves P steady = system_call-Preserves P _ steady (record { at = λ disk p. p })

pub read_dir-Preserves : (P : Disk → Type 0) → IsSteady P → Preserves P read_dir
unfolding read_dir
read_dir-Preserves P steady = system_call-Preserves P _ steady (record { at = λ disk p. p })

pub file_metadata-Preserves :
    (P : Disk → Type 0) → IsSteady P → (handle : ℕ) → Preserves P (file_metadata handle)
unfolding file_metadata found_or
file_metadata-Preserves P steady handle =
    system_call-Preserves P _ steady
      (record { at = λ disk p. go disk (find (is_inode handle) disk.entries) p })
  where
    go : (disk : Disk) (o : Option LogEntry) → P disk → P (found_or o disk).1
    go disk none p = p
    go disk (some e) p = p

-- A condition that the calls of a cleanup keep.
pub record IsCleanable (P : Disk → Type 0) : Type 0 where
  pub time : Preserves P system_time
  pub idle : Preserves P harmless
  pub listing : Preserves P read_dir
  pub removal : (path : String) → is_keyro_log path ≡ true → Preserves P (remove_file path)

abbrev IsLog : LogFile → Type 0
IsLog f = is_keyro_log f.path ≡ true

pub retention_cutoff-Preserves :
    (P : Disk → Type 0)
    → IsCleanable P
    → (retention : LogRetention) → Preserves P (retention_cutoff retention)
unfolding retention_cutoff
retention_cutoff-Preserves P keep retention = Preserves-bind P system_time _ keep.time λ now.
    Preserves-lift P (
      if leb retention.max_age now
      then ok (now - retention.max_age)
      else err "invalid log retention age")

module _ (P : Disk → Type 0) (keep : IsCleanable P) (retention : LogRetention) where
  removal-Preserves :
      {A : Type 0}
      → (f : LogFile) (rest : Io A) → IsLog f
      → Preserves P rest
      → Preserves P (remove_file f.path >> rest)
  removal-Preserves f rest log h =
      Preserves-bind P (remove_file f.path) (λ _. rest) (keep.removal f.path log) (λ _. h)

  dated-IsLog :
      (entry : DirEntry) (modified : Option ℕ) (f : LogFile)
      → dated entry modified ≡ some f
      → IsLog f
  dated-IsLog entry none f h = absurd (ground arith)
  dated-IsLog entry (some modified) f h = ground arith

  retain-Yields :
      (cutoff : ℕ) (retained : List LogFile) (found : Option LogFile)
      → ((f : LogFile) → found ≡ some f → IsLog f)
      → All IsLog retained
      → Yields P (All IsLog) (retain retention cutoff retained found)
  unfolding retain
  retain-Yields cutoff retained none log h = Yields-pure P (All IsLog) retained h
  retain-Yields cutoff retained (some f) log h = elim (Bool-cases (is_expired retention cutoff f)) [
    | inl e ↦ rw e (
        Yields-bind P (λ _. Unit {0}) (All IsLog) (remove_file f.path) (λ _. pure retained)
          (record { keeps = keep.removal f.path (log f refl); result = λ _ _ _ _. tt })
          (λ _ _. Yields-pure P (All IsLog) retained h))
    | inr e ↦ rw e (
        Yields-pure P (All IsLog) (retained ++ f ∷ [])
          (All-append IsLog retained (f ∷ []) h (log f refl, tt)))
  ]

  scan-Yields :
      (cutoff : ℕ) (retained : List LogFile) (entries : List DirEntry)
      → All IsLog retained
      → Yields P (All IsLog) (scan retention cutoff retained entries)
  unfolding scan
  scan-Yields cutoff retained [] h = Yields-pure P (All IsLog) retained h
  scan-Yields cutoff retained (entry ∷ entries) h =
      Yields-bind P (λ _. Unit {0}) (All IsLog) harmless _
        (record { keeps = keep.idle; result = λ _ _ _ _. tt })
        λ _ _.
          Yields-bind P (All IsLog) (All IsLog)
            (retain retention cutoff retained (dated entry entry.modified)) _
            (retain-Yields cutoff retained (dated entry entry.modified)
              (dated-IsLog entry entry.modified) h)
            (λ retained'. scan-Yields cutoff retained' entries)

  enforce-Preserves :
      (files : List LogFile) (current : Option ℕ) (index kept_files total_bytes : ℕ)
      → All IsLog files
      → Preserves P (enforce retention current index kept_files total_bytes files)
  unfolding enforce
  enforce-Preserves [] current index kept_files total_bytes h = Preserves-lift P (ok tt)
  enforce-Preserves (f ∷ files) current index kept_files total_bytes h =
      elim (Bool-cases (is_index current index)) [
        | inl e ↦
            rw (enforce_current retention current index kept_files total_bytes f files e)
              (enforce-Preserves files current (suc index) kept_files total_bytes h.1)
        | inr e ↦ elim (Bool-cases (is_over retention kept_files total_bytes f)) [
          | inl over ↦
              rw (enforce_over retention current index kept_files total_bytes f files e over) (
                removal-Preserves f _ h.0
                  (enforce-Preserves files current (suc index) kept_files total_bytes h.1))
          | inr over ↦
              rw (enforce_kept retention current index kept_files total_bytes f files e over) (
                enforce-Preserves files current (suc index) (suc kept_files)
                  (saturating_add total_bytes f.size) h.1)
        ]
      ]

  enforce_limits-Preserves :
      (retained : List LogFile)
      → All IsLog retained
      → Preserves P (enforce_limits retention retained)
  unfolding enforce_limits
  enforce_limits-Preserves retained h =
      let files = sort_by newest_first retained in
      let current = position is_current_log files in
      enforce-Preserves files current 0 (if is_none current then 0 else 1) (size_at files current)
        (All-sort_by newest_first IsLog retained h)

  -- What `cleanup_logs` does once it has its cutoff.
  pub after_cutoff-Preserves :
      (cutoff : ℕ)
      → Preserves P (
          read_dir >>= λ entries.
          scan retention cutoff [] entries >>= λ retained. enforce_limits retention retained)
  after_cutoff-Preserves cutoff = Preserves-bind P read_dir _ keep.listing λ entries.
      Yields-Preserves-bind P (All IsLog) (scan retention cutoff [] entries) _
        (scan-Yields cutoff [] entries tt) enforce_limits-Preserves

  pub cleanup_logs-Preserves : Preserves P (cleanup_logs retention)
  unfolding cleanup_logs
  cleanup_logs-Preserves =
      Preserves-bind P (retention_cutoff retention) _ (retention_cutoff-Preserves P keep retention)
        after_cutoff-Preserves
