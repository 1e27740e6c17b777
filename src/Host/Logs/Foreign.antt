-- ===== src/Host/Logs/Foreign.antt =====
-- Whose files crates/keyro-core/src/logging.rs removes and renames: its own only.
use keyro_core.Common.{
  ℕ, ◌≡◌, refl, ◌∙◌, String, str_eq, eq_iff, Bool-cases, inl, inr, true, false, List, [], ◌∷◌,
  Option, none, some, filter, map, arith,
}
use Prim.Native.String.{◌++◌ as ◌<>◌}
use text.Mathlib.TextLemmas.{nil-append, cons-append, append_assoc}
use text.Mathlib.TextPositions.{starts_with-append}
use text.Mathlib.Text.{starts_with}
use keyro_core.Common.Decimal.{decimal}
use keyro_core.Common.Ensures.{Preserves}
use keyro_core.Host.Logs.Disk.{Disk, LogEntry, unlink, relink, exists, remove_file, rename_file}
use keyro_core.Host.Logs.Retention.{is_keyro_log, ends_with, rotated_log_path}
use keyro_core.Host.Logs.Directory.{has_name}
use keyro_core.Host.Logs.Keeping.{
  IsCleanable, IsSteady, system_call-Preserves, harmless-Preserves, read_dir-Preserves,
}

-- The files of a name, with what they hold.
abbrev pub files_named : String → Disk → List LogEntry
files_named path disk = filter (has_name path) disk.entries

abbrev pub Holds : String → List LogEntry → Disk → Type 0
Holds path files disk = files_named path disk ≡ files

-- A change of one file that leaves what is named the path as it is.
abbrev IsOff : String → (LogEntry → LogEntry) → LogEntry → Type 0
IsOff path f e = (has_name path (f e) ≡ has_name path e) × (has_name path e ≡ true → f e ≡ e)

filter-map_off :
    (path : String) (f : LogEntry → LogEntry) (entries : List LogEntry)
    → ((e : LogEntry) → IsOff path f e)
    → filter (has_name path) (map f entries) ≡ filter (has_name path) entries
filter-map_off path f [] h = refl
filter-map_off path f (e ∷ entries) h = ground (arith, h e, filter-map_off path f entries h)

unlink-IsOff :
    (path removed : String)
    → str_eq removed path ≡ false
    → (e : LogEntry) → IsOff path (unlink removed) e
unlink-IsOff path removed h e = go e.name refl
  where
    go : (name : Option String) → e.name ≡ name → IsOff path (unlink removed) e
    go none here = (ground (arith, here), λ named. ground (arith, here))
    go (some n) here = (
      ground (arith, here, eq_iff n path, eq_iff n removed, eq_iff removed path),
      λ named. ground (arith, here, eq_iff n path, eq_iff n removed, eq_iff removed path),
    )

relink-IsOff :
    (path source target : String)
    → str_eq source path ≡ false
    → str_eq target path ≡ false
    → (e : LogEntry) → IsOff path (relink source target) e
relink-IsOff path source target h h' e = go e.name refl
  where
    go : (name : Option String) → e.name ≡ name → IsOff path (relink source target) e
    go none here = (ground (arith, here), λ named. ground (arith, here))
    go (some n) here = (
      ground (arith, here, eq_iff n path, eq_iff n source, eq_iff source path, eq_iff target path),
      λ named. ground (arith, here, eq_iff n path, eq_iff n source, eq_iff source path),
    )

moved-IsOff :
    (path source target : String)
    → str_eq source path ≡ false
    → str_eq target path ≡ false
    → (e : LogEntry) → IsOff path (λ e. relink source target (unlink target e)) e
moved-IsOff path source target h h' e =
    let (same, kept) = unlink-IsOff path target h' e in
    let (same', kept') = relink-IsOff path source target h h' (unlink target e) in
    (same' ∙ same, λ named. kept' (same ∙ named) ∙ kept named)

ends_with_refl : (s : String) → ends_with s s ≡ true
unfolding ends_with
ends_with_refl String.[] = refl
ends_with_refl (String.◌∷◌ c s) = ground (arith, eq_iff (String.◌∷◌ c s) (String.◌∷◌ c s))

ends_with_append : (s suffix : String) → ends_with (s <> suffix) suffix ≡ true
unfolding ends_with
ends_with_append String.[] suffix = rw (nil-append suffix) (ends_with_refl suffix)
ends_with_append (String.◌∷◌ c s) suffix =
    rw (cons-append c s suffix) (ground (arith, ends_with_append s suffix))

pub rotated_log_path-is_keyro_log : (index : ℕ) → is_keyro_log (rotated_log_path index) ≡ true
unfolding is_keyro_log rotated_log_path
rotated_log_path-is_keyro_log index =
    let tail : ends_with (rotated_log_path index) ".log" ≡ true =
      rw (← append_assoc "keyro-core." (decimal index) ".log")
        (ends_with_append ("keyro-core." <> decimal index) ".log") in
    let front : starts_with (rotated_log_path index) "keyro-core." ≡ true =
      starts_with-append "keyro-core." (decimal index <> ".log") in
    ground (arith, tail, front)

pub differs :
    (path log : String)
    → is_keyro_log path ≡ false
    → is_keyro_log log ≡ true
    → str_eq log path ≡ false
differs path log h h' = ground (arith, eq_iff log path)

module _ (path : String) (foreign : is_keyro_log path ≡ false) (files : List LogEntry) where
  pub Holds-IsSteady : IsSteady (Holds path files)
  Holds-IsSteady disk faults p = p

  pub Holds-IsCleanable : IsCleanable (Holds path files)
  unfolding remove_file
  Holds-IsCleanable = record {
    time = record { at = λ disk p. p };
    idle = harmless-Preserves (Holds path files) Holds-IsSteady;
    listing = read_dir-Preserves (Holds path files) Holds-IsSteady;
    removal = λ removed log. system_call-Preserves (Holds path files) _ Holds-IsSteady (record {
      at = λ disk p. elim (Bool-cases (exists removed disk)) [
        | inl e ↦ rw e (
            filter-map_off path (unlink removed) disk.entries
              (unlink-IsOff path removed (differs path removed foreign log))
            ∙ p)
        | inr e ↦ rw e p
      ];
    });
  }

  pub rename_file-Holds :
      (source target : String)
      → is_keyro_log source ≡ true
      → is_keyro_log target ≡ true
      → Preserves (Holds path files) (rename_file source target)
  unfolding rename_file
  rename_file-Holds source target h h' =
      system_call-Preserves (Holds path files) _ Holds-IsSteady (record {
        at = λ disk p. elim (Bool-cases (exists source disk)) [
          | inl e ↦ rw e (
              filter-map_off path (λ e. relink source target (unlink target e)) disk.entries
                (moved-IsOff path source target (differs path source foreign h)
                  (differs path target foreign h'))
              ∙ p)
          | inr e ↦ rw e p
        ];
      })
