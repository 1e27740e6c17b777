-- ===== src/Host/Logs/Scan.antt =====
-- The loop of `cleanup_logs` over the directory in crates/keyro-core/src/logging.rs.
use keyro_core.Common.{
  ℕ, ◌≡◌, String, Bool-cases, inl, inr, List, [], ◌∷◌, ◌++◌, Option, none, some, ok, total, arith,
  append_assoc,
}
use keyro_core.Common.Exec.{pure}
use keyro_core.Common.Ensures.{Ensures, Ensures-bind, Ensures-pure}
use keyro_core.Common.Totals.{SameElements, marks, total-append}
use keyro_core.Host.Logs.Disk.{Disk, DirEntry, harmless, remove_file, unless_failed}
use keyro_core.Host.Logs.Retention.{LogRetention, LogFile, dated, is_expired, retain, scan}
use keyro_core.Host.Logs.Contents.{
  add_dated, logs_of, disk_logs, has_path, AreDistinct, remove_file-Ensures,
}

module _ (retention : LogRetention) (cutoff : ℕ) where
  abbrev pub expired : List LogFile → ℕ
  expired files = total (marks (is_expired retention cutoff)) files

  -- The directory holds the retained files and those still to be seen.
  pub record IsScanned (retained rest : List LogFile) (disk : Disk) : Type 0 where
    pub same : SameElements (disk_logs disk) (retained ++ rest)
    pub distinct : AreDistinct (retained ++ rest)
    pub fresh : expired retained ≡ 0

  pub harmless-keep :
      (P : Disk → Type 0)
      → ((disk : Disk) (faults : List (Option String))
          → P disk
          → P (record disk { faults = faults }))
      → Ensures P harmless (λ _ disk. P disk)
  unfolding harmless
  harmless-keep P h = record { at = λ disk p _ _. go disk disk.faults p }
    where
      go :
          (disk : Disk) (faults : List (Option String))
          → P disk
          → P (unless_failed faults (λ disk. (ok tt, disk)) disk).1
      go disk [] p = p
      go disk (none ∷ rest) p = h disk rest p
      go disk (some text ∷ rest) p = h disk rest p

  pub less_distinct :
      (before : List LogFile) (f : LogFile) (after : List LogFile)
      → AreDistinct (before ++ f ∷ after)
      → AreDistinct (before ++ after)
  less_distinct before f after h path = omega (
    arith,
    h path,
    total-append (marks (has_path path)) before (f ∷ after),
    total-append (marks (has_path path)) before after,
  )

  removed :
      (retained : List LogFile) (f : LogFile) (rest : List LogFile)
      → Ensures
          (IsScanned retained (f ∷ rest))
          (remove_file f.path)
          (λ _ disk. IsScanned retained rest disk)
  removed retained f rest = record {
    at = λ disk h _ e. record {
      same = (remove_file-Ensures retained f rest h.distinct).at disk h.same tt e;
      distinct = less_distinct retained f rest h.distinct;
      fresh = h.fresh;
    };
  }

  pub retain-Ensures :
      (retained rest : List LogFile) (found : Option LogFile)
      → Ensures
          (IsScanned retained (add_dated found rest))
          (retain retention cutoff retained found)
          (λ retained' disk. IsScanned retained' rest disk)
  unfolding retain
  retain-Ensures retained rest none = Ensures-pure _ _ retained (λ disk h. h)
  retain-Ensures retained rest (some f) = elim (Bool-cases (is_expired retention cutoff f)) [
    | inl e ↦ rw e (
        Ensures-bind _ (λ _ disk. IsScanned retained rest disk) _ (remove_file f.path)
          (λ _. pure retained) (removed retained f rest)
          (λ _. Ensures-pure _ _ retained (λ disk h. h)))
    | inr e ↦ rw e (
        Ensures-pure _ _ (retained ++ f ∷ []) (λ disk h. record {
          same = rw append_assoc h.same;
          distinct = rw append_assoc h.distinct;
          fresh = ground (
            arith,
            h.fresh,
            total-append (marks (is_expired retention cutoff)) retained (f ∷ []),
          );
        }))
  ]

  pub scan-Ensures :
      (entries : List DirEntry) (retained : List LogFile)
      → Ensures
          (IsScanned retained (logs_of entries))
          (scan retention cutoff retained entries)
          (λ files disk. IsScanned files [] disk)
  unfolding scan
  scan-Ensures [] retained = Ensures-pure _ _ retained (λ disk h. h)
  scan-Ensures (entry ∷ entries) retained =
      Ensures-bind _ (λ _ disk. IsScanned retained (logs_of (entry ∷ entries)) disk) _ harmless _
        (harmless-keep (IsScanned retained (logs_of (entry ∷ entries)))
          (λ disk faults h. record { same = h.same; distinct = h.distinct; fresh = h.fresh }))
        λ _.
          Ensures-bind _ (λ retained' disk. IsScanned retained' (logs_of entries) disk) _
            (retain retention cutoff retained (dated entry entry.modified)) _
            (retain-Ensures retained (logs_of entries) (dated entry entry.modified))
            (scan-Ensures entries)
