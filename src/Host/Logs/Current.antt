-- ===== src/Host/Logs/Current.antt =====
-- The counts that the loop of `cleanup_logs` starts with in crates/keyro-core/src/logging.rs: those of
-- the current log, which the loop skips at its index.
use keyro_core.Common.{
  ℕ, suc, ◌<◌, ◌≡◌, refl, ◌∙◌, sym, subst, Bool, Bool-cases, inl, inr, false, List, [], ◌∷◌, Option,
  none, some, arith, is_none, position, next_index, if◌then◌else◌,
}
use keyro_core.Host.Logs.Retention.{LogFile, is_index, size_at}

abbrev pub one : LogFile → ℕ
one f = 1

abbrev pub size : LogFile → ℕ
size f = f.size

-- What the current log, if it is still to come, adds to a sum.
abbrev pub owed : (LogFile → ℕ) → Option ℕ → ℕ → List LogFile → ℕ
owed w current index [] = 0
owed w current index (f ∷ files) =
    if is_index current index then w f else owed w current (suc index) files

pub owed_past :
    (w : LogFile → ℕ) (i index : ℕ) (files : List LogFile)
    → i < index
    → owed w (some i) index files ≡ 0
owed_past w i index [] h = refl
owed_past w i index (f ∷ files) h = ground (arith, owed_past w i (suc index) files)

owed_shift :
    (w : LogFile → ℕ) (current : Option ℕ) (index : ℕ) (files : List LogFile)
    → owed w (next_index current) (suc index) files ≡ owed w current index files
owed_shift w current index [] = refl
owed_shift w none index (f ∷ files) = owed_shift w none (suc index) files
owed_shift w (some i) index (f ∷ files) = ground (arith, owed_shift w (some i) (suc index) files)

owed-none : (w : LogFile → ℕ) (index : ℕ) (files : List LogFile) → owed w none index files ≡ 0
owed-none w index [] = refl
owed-none w index (f ∷ files) = owed-none w (suc index) files

owed_first :
    (w : LogFile → ℕ) (current : Option ℕ) (f : LogFile) (files : List LogFile)
    → owed w (next_index current) 0 (f ∷ files) ≡ owed w current 0 files
owed_first w none f files = owed-none w 1 files ∙ sym (owed-none w 0 files)
owed_first w (some i) f files = ground (arith, owed_shift w (some i) 0 files)

position_skip :
    (p : LogFile → Bool) (f : LogFile) (files : List LogFile)
    → p f ≡ false
    → position p (f ∷ files) ≡ next_index (position p files)
position_skip p f files e = rw e refl

is_none-next_index : (o : Option ℕ) → is_none (next_index o) ≡ is_none o
is_none-next_index none = refl
is_none-next_index (some i) = refl

size_at-next_index :
    (f : LogFile) (files : List LogFile) (o : Option ℕ)
    → size_at (f ∷ files) (next_index o) ≡ size_at files o
size_at-next_index f [] none = refl
size_at-next_index f (g ∷ files) none = refl
size_at-next_index f files (some i) = refl

-- The initial counts are those of the current log.
pub owed-one :
    (p : LogFile → Bool) (files : List LogFile)
    → owed one (position p files) 0 files ≡ (if is_none (position p files) then 0 else 1)
owed-one p [] = refl
owed-one p (f ∷ files) = elim (Bool-cases (p f)) [
  | inl e ↦ rw e refl
  | inr e ↦
      subst (λ o. owed one o 0 (f ∷ files) ≡ (if is_none o then 0 else 1))
        (sym (position_skip p f files e))
        (rw is_none-next_index (owed_first one (position p files) f files ∙ owed-one p files))
]

pub owed_size :
    (p : LogFile → Bool) (files : List LogFile)
    → owed size (position p files) 0 files ≡ size_at files (position p files)
owed_size p [] = refl
owed_size p (f ∷ files) = elim (Bool-cases (p f)) [
  | inl e ↦ rw e refl
  | inr e ↦
      subst (λ o. owed size o 0 (f ∷ files) ≡ size_at (f ∷ files) o)
        (sym (position_skip p f files e))
        (rw (size_at-next_index f files (position p files))
          (owed_first size (position p files) f files ∙ owed_size p files))
]
