-- ===== src/Base/Text.antt =====
-- Go strings as lists of bytes, and what the program takes from `strings` and `unicode/utf8`.
-- `trim_space` cuts the runes for which `unicode.IsSpace` holds, in their UTF-8 encodings.
use Prim.Native.Nat.{ℕ, zero, suc, ◌-◌}
use mathlib.Core.Path.{◌≡◌, refl}
use mathlib.Core.Logic.{◌↔◌}
use mathlib.Core.Bool.{Bool, true, false, ◌&&◌, ◌||◌}
use mathlib.Core.List.{List, [], ◌∷◌, reverse}
use go_marketplace_backend.Base.Lists.{length}
use native.Mathlib.Omega.{arith}
use go_marketplace_backend.Base.Tests.{leb, ◌==◌, if◌then◌else◌}

abbrev pub Text : Type 0
Text = List ℕ

abbrev pub is_empty : Text → Bool
is_empty [] = true
is_empty (_ ∷ _) = false

unfoldable pub text_eq : Text → Text → Bool
text_eq [] [] = true
text_eq [] (_ ∷ _) = false
text_eq (_ ∷ _) [] = false
text_eq (a ∷ s) (b ∷ t) = (a == b) && text_eq s t

pub text_eq_iff : (s t : Text) → (text_eq s t ≡ true) ↔ (s ≡ t)
unfolding text_eq
text_eq_iff [] [] = ground arith
text_eq_iff [] (_ ∷ _) = ground arith
text_eq_iff (_ ∷ _) [] = ground arith
text_eq_iff (a ∷ s) (b ∷ t) = ground (arith, text_eq_iff s t)

pub text_eq_refl : (s : Text) → text_eq s s ≡ true
text_eq_refl s = (text_eq_iff s s).1 refl

abbrev in_range : ℕ → ℕ → ℕ → Bool
in_range lo hi b = leb lo b && leb b hi

-- '\t' '\n' '\v' '\f' '\r' and ' '
abbrev is_space_byte : ℕ → Bool
is_space_byte b = in_range 9 13 b || b == 32

-- U+0085 and U+00A0
abbrev is_space_2 : ℕ → ℕ → Bool
is_space_2 a b = a == 0xC2 && (b == 0x85 || b == 0xA0)

-- U+1680, U+2000 to U+200A, U+2028, U+2029, U+202F, U+205F and U+3000
abbrev is_space_3 : ℕ → ℕ → ℕ → Bool
is_space_3 a b c =
    (a == 0xE1 && b == 0x9A && c == 0x80)
    || (a == 0xE2 && b == 0x80 && (in_range 0x80 0x8A c || in_range 0xA8 0xA9 c || c == 0xAF))
    || (a == 0xE2 && b == 0x81 && c == 0x9F)
    || (a == 0xE3 && b == 0x80 && c == 0x80)

trim_left : Text → Text
trim_left [] = []
trim_left (a ∷ []) = if is_space_byte a then [] else a ∷ []
trim_left (a ∷ b ∷ []) =
    let short = trim_left (b ∷ []) in
    if is_space_byte a then short else if is_space_2 a b then [] else a ∷ b ∷ []
trim_left (a ∷ b ∷ c ∷ s) =
    let one = trim_left (b ∷ c ∷ s) in
    let two = trim_left (c ∷ s) in
    let three = trim_left s in
    if is_space_byte a
    then one
    else if is_space_2 a b
    then two
    else if is_space_3 a b c
    then three
    else a ∷ b ∷ c ∷ s

-- The same from the end, on the reversed bytes.
trim_right : Text → Text
trim_right [] = []
trim_right (a ∷ []) = if is_space_byte a then [] else a ∷ []
trim_right (a ∷ b ∷ []) =
    let short = trim_right (b ∷ []) in
    if is_space_byte a then short else if is_space_2 b a then [] else a ∷ b ∷ []
trim_right (a ∷ b ∷ c ∷ s) =
    let one = trim_right (b ∷ c ∷ s) in
    let two = trim_right (c ∷ s) in
    let three = trim_right s in
    if is_space_byte a
    then one
    else if is_space_2 b a
    then two
    else if is_space_3 c b a
    then three
    else a ∷ b ∷ c ∷ s

-- `strings.TrimSpace`
unfoldable pub trim_space : Text → Text
unfolding trim_left trim_right
trim_space s = reverse (trim_right (reverse (trim_left s)))

-- `strings.TrimSpace(s) == ""`
abbrev pub is_blank : Text → Bool
is_blank s = is_empty (trim_space s)

abbrev is_cont : ℕ → Bool
is_cont = in_range 0x80 0xBF

-- The number of bytes of the rune that a byte begins, from the bytes behind it; 1 for a byte that
-- begins no well-formed rune (`utf8.RuneError` has width 1).
abbrev rune_width : ℕ → Text → ℕ
rune_width a (b ∷ c ∷ d ∷ _) =
    if in_range 0xC2 0xDF a && is_cont b
    then 2
    else if ((a == 0xE0 && in_range 0xA0 0xBF b)
          || (in_range 0xE1 0xEC a && is_cont b)
          || (a == 0xED && in_range 0x80 0x9F b)
          || (in_range 0xEE 0xEF a && is_cont b))
        && is_cont c
    then 3
    else if ((a == 0xF0 && in_range 0x90 0xBF b)
          || (in_range 0xF1 0xF3 a && is_cont b)
          || (a == 0xF4 && in_range 0x80 0x8F b))
        && is_cont c
        && is_cont d
    then 4
    else 1
rune_width a (b ∷ c ∷ []) =
    if in_range 0xC2 0xDF a && is_cont b
    then 2
    else if ((a == 0xE0 && in_range 0xA0 0xBF b)
          || (in_range 0xE1 0xEC a && is_cont b)
          || (a == 0xED && in_range 0x80 0x9F b)
          || (in_range 0xEE 0xEF a && is_cont b))
        && is_cont c
    then 3
    else 1
rune_width a (b ∷ []) = if in_range 0xC2 0xDF a && is_cont b then 2 else 1
rune_width a [] = 1

-- The runes of a text, where the first `skip` bytes belong to a rune that is counted already.
rune_count_from : ℕ → Text → ℕ
rune_count_from skip [] = 0
rune_count_from zero (a ∷ s) = suc (rune_count_from (rune_width a s - 1) s)
rune_count_from (suc skip) (a ∷ s) = rune_count_from skip s

-- `utf8.RuneCountInString`
unfoldable pub rune_count : Text → ℕ
unfolding rune_count_from
rune_count s = rune_count_from 0 s

abbrev pub between : ℕ → ℕ → ℕ → Bool
between lo hi c = leb lo c && leb c hi

abbrev pub is_digit_byte : ℕ → Bool
is_digit_byte = between b'0' b'9'

abbrev pub is_letter_byte : ℕ → Bool
is_letter_byte c = between b'A' b'Z' c || between b'a' b'z' c

abbrev all_in : (ℕ → Bool) → Text → Bool
all_in class [] = true
all_in class (c ∷ s) = class c && all_in class s

-- A pattern `^[class]{lo,hi}$`.
unfoldable pub matches_class : (ℕ → Bool) → ℕ → ℕ → Text → Bool
matches_class class lo hi s = all_in class s && leb lo (length s) && leb (length s) hi

abbrev pub sku_byte : ℕ → Bool
sku_byte c = is_letter_byte c || is_digit_byte c || c == b'.' || c == b'_' || c == b':' || c == b'-'

abbrev pub capital_byte : ℕ → Bool
capital_byte c = between b'A' b'Z' c || is_digit_byte c || c == b'-'

trim_space_runs :
    trim_space (32 ∷ 0xC2 ∷ 0xA0 ∷ 65 ∷ 32 ∷ 66 ∷ 0xE3 ∷ 0x80 ∷ 0x80 ∷ 10 ∷ []) ≡ 65 ∷ 32 ∷ 66 ∷ []
unfolding trim_space
trim_space_runs = refl

rune_count_runs : rune_count (0xD0 ∷ 0x9F ∷ 65 ∷ 0xE2 ∷ 0x82 ∷ 0xAC ∷ 0xFF ∷ []) ≡ 4
unfolding rune_count
rune_count_runs = refl
