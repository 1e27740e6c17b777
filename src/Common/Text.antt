-- ===== src/Common/Text.antt =====
-- `str::trim` of Rust's standard library, over the characters of a text.
use Prim.Native.Char.{code}
use Prim.Native.String.{String}
use Prim.Native.Nat.{ℕ}
use mathlib.Core.Path.{◌≡◌, refl}
use mathlib.Core.Bool.{Bool, true, false, ◌&&◌, ◌||◌, not}
use native.Mathlib.Omega.{arith}
use keyro_core.Common.Tests.{leb, ◌==◌, if◌then◌else◌}

-- `char::is_whitespace`: Unicode's White_Space property.
unfoldable pub is_whitespace : ℕ → Bool
is_whitespace c =
    (leb 9 c && leb c 13)
    || c == 0x20
    || c == 0x85
    || c == 0xa0
    || c == 0x1680
    || (leb 0x2000 c && leb c 0x200a)
    || c == 0x2028
    || c == 0x2029
    || c == 0x202f
    || c == 0x205f
    || c == 0x3000

abbrev pub is_empty : String → Bool
is_empty String.[] = true
is_empty (String.◌∷◌ _ _) = false

unfoldable pub trim_start : String → String
unfolding is_whitespace
trim_start String.[] = String.[]
trim_start (String.◌∷◌ c s) =
    let rest = trim_start s in if is_whitespace (code c) then rest else String.◌∷◌ c s

unfoldable pub trim_end : String → String
unfolding is_whitespace
trim_end String.[] = String.[]
trim_end (String.◌∷◌ c s) =
    let rest = trim_end s in
    if is_empty rest && is_whitespace (code c) then String.[] else String.◌∷◌ c rest

unfoldable pub trim : String → String
unfolding trim_start trim_end
trim s = trim_end (trim_start s)

-- Some character of the text is no white space.
unfoldable pub has_content : String → Bool
unfolding is_whitespace
has_content String.[] = false
has_content (String.◌∷◌ c s) = not (is_whitespace (code c)) || has_content s

is_empty-trim_end : (s : String) → is_empty (trim_end s) ≡ not (has_content s)
unfolding trim_end has_content
is_empty-trim_end String.[] = refl
is_empty-trim_end (String.◌∷◌ c s) = ground (arith, is_empty-trim_end s)

has_content-trim_start : (s : String) → has_content (trim_start s) ≡ has_content s
unfolding trim_start has_content
has_content-trim_start String.[] = refl
has_content-trim_start (String.◌∷◌ c s) = ground (arith, has_content-trim_start s)

-- Trimming leaves nothing exactly when there was white space only.
pub is_empty-trim : (s : String) → is_empty (trim s) ≡ not (has_content s)
unfolding trim
is_empty-trim s = rw (is_empty-trim_end (trim_start s), has_content-trim_start s)
