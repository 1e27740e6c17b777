-- ===== src/Host/Logs/Scanning.antt =====
-- The scan of `cleanup_logs` of crates/keyro-core/src/logging.rs succeeds where no call fails: each
-- file that it removes is there.
use keyro_core.Common.{
  ℕ, ◌≡◌, ◌≤◌, String, Bool-cases, inl, inr, eq_refl, true, List, [], ◌∷◌, ◌++◌, Option, none, some,
  any, count, arith,
}
use keyro_core.Common.Exec.{pure}
use keyro_core.Common.Ensures.{Ensures-weaken}
use keyro_core.Common.Outcomes.{Runs, Runs-bind, Runs-pure, Runs-and, Runs-weaken}
use keyro_core.Common.Totals.{SameElements, marks, total-append}
use keyro_core.Host.Logs.Disk.{Disk, LogEntry, DirEntry, is_named, exists, remove_file, harmless}
use keyro_core.Host.Logs.Retention.{LogRetention, LogFile, dated, is_expired, retain, scan}
use keyro_core.Host.Logs.Contents.{add_dated, logs_of, disk_logs, has_path}
use keyro_core.Host.Logs.Scan.{IsScanned, harmless-keep, retain-Ensures}
use keyro_core.Host.Logs.Directory.{has_name}
use keyro_core.Host.Logs.Handle.{total-logs_of}
use keyro_core.Host.Logs.Calm.{IsCalm, harmless-IsCalm, remove_file-IsCalm}

any_of_count :
    (path : String) (entries : List LogEntry)
    → 1 ≤ count (has_name path) entries
    → any (λ (e : LogEntry). is_named path e.name) entries ≡ true
any_of_count path [] h = absurd (omega arith)
any_of_count path (e ∷ entries) h = ground (arith, any_of_count path entries)

-- A log file that the directory is known to hold is there.
pub exists_of_logs :
    (before : List LogFile) (f : LogFile) (after : List LogFile) (disk : Disk)
    → SameElements (disk_logs disk) (before ++ f ∷ after)
    → exists f.path disk ≡ true
exists_of_logs before f after disk same = any_of_count f.path disk.entries (
    ground (
      arith,
      same (marks (has_path f.path)),
      total-append (marks (has_path f.path)) before (f ∷ after),
      eq_refl f.path,
      total-logs_of f.path disk.entries,
    ))

module _ (retention : LogRetention) where
  abbrev Calm : Disk → Type 0
  Calm = IsCalm retention.max_age

  module _ (cutoff : ℕ) where
    abbrev pub Scanned : List LogFile → List LogFile → Disk → Type 0
    Scanned retained rest disk = Calm disk × IsScanned retention cutoff retained rest disk

    retain-IsCalm :
        (retained rest : List LogFile) (found : Option LogFile)
        → Runs
            (Scanned retained (add_dated found rest))
            (retain retention cutoff retained found)
            (λ _. Calm)
    unfolding retain
    retain-IsCalm retained rest none = Runs-pure _ _ retained (λ disk h. h.0)
    retain-IsCalm retained rest (some f) = elim (Bool-cases (is_expired retention cutoff f)) [
      | inl e ↦ rw e (
          Runs-bind (Scanned retained (f ∷ rest)) (λ _. Calm) (λ _. Calm) (remove_file f.path)
            (λ _. pure retained)
            (Runs-weaken (Scanned retained (f ∷ rest)) _ (remove_file f.path) (λ _. Calm)
              (λ _. Calm) (λ disk (calm, s). (calm, exists_of_logs retained f rest disk s.same))
              (λ _ disk h. h) (remove_file-IsCalm retention.max_age f.path))
            (λ _. Runs-pure Calm _ retained (λ disk h. h)))
      | inr e ↦ rw e (Runs-pure _ _ (retained ++ f ∷ []) (λ disk h. h.0))
    ]

    pub scan-IsCalm :
        (entries : List DirEntry) (retained : List LogFile)
        → Runs
            (Scanned retained (logs_of entries))
            (scan retention cutoff retained entries)
            (λ files. Scanned files [])
    unfolding scan
    scan-IsCalm [] retained = Runs-pure _ _ retained (λ disk h. h)
    scan-IsCalm (entry ∷ entries) retained =
        let all = logs_of (entry ∷ entries) in
        Runs-bind (Scanned retained all) (λ _. Scanned retained all) (λ files. Scanned files [])
          harmless _
          (Runs-and (Scanned retained all) harmless (λ _. Calm)
            (λ _. IsScanned retention cutoff retained all)
            (Runs-weaken (Scanned retained all) Calm harmless (λ _. Calm) (λ _. Calm)
              (λ disk h. h.0) (λ _ disk h. h) (harmless-IsCalm retention.max_age))
            (Ensures-weaken (Scanned retained all) (IsScanned retention cutoff retained all) _ _
              harmless (λ disk h. h.1) (λ _ disk h. h)
              (harmless-keep retention cutoff (IsScanned retention cutoff retained all)
                (λ disk faults h. record {
                  same = h.same;
                  distinct = h.distinct;
                  fresh = h.fresh;
                }))))
          λ _.
            Runs-bind (Scanned retained all) (λ files. Scanned files (logs_of entries))
              (λ files. Scanned files [])
              (retain retention cutoff retained (dated entry entry.modified)) _
              (Runs-and (Scanned retained all) _ (λ _. Calm)
                (λ files. IsScanned retention cutoff files (logs_of entries))
                (retain-IsCalm retained (logs_of entries) (dated entry entry.modified))
                (Ensures-weaken (Scanned retained all) (IsScanned retention cutoff retained all) _ _
                  _ (λ disk h. h.1) (λ _ disk h. h)
                  (retain-Ensures retention cutoff retained (logs_of entries)
                    (dated entry entry.modified))))
              (scan-IsCalm entries)
