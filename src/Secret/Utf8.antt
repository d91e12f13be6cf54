-- ===== src/Secret/Utf8.antt =====
-- `std::str::from_utf8`: which byte sequences are well-formed UTF-8 (Unicode, table 3-7), and
-- `str::trim` on such a sequence.
use oo.Prelude.{
  ℕ, zero, suc, Bool, true, false, ◌&&◌, List, [], ◌∷◌, map, length, drop, leb, ◌==◌, if◌then◌else◌,
  Bytes, Option, none, some,
}
use mathlib.Core.List.{reverse}

abbrev between : ℕ → ℕ → ℕ → Bool
between lo hi b = leb lo b && leb b hi

is_tail : ℕ → Bool
is_tail = between 0x80 0xbf

-- The range of the second byte of a sequence of three or four bytes, by its first.
second_fits : ℕ → ℕ → Bool
second_fits a b =
    if a == 0xe0
    then between 0xa0 0xbf b
    else if a == 0xed
    then between 0x80 0x9f b
    else if a == 0xf0
    then between 0x90 0xbf b
    else if a == 0xf4
    then between 0x80 0x8f b
    else between 0x80 0xbf b

-- The bytes of the character at the front; 0 if there is none that is well-formed.
char_len : Bytes → ℕ
unfolding is_tail second_fits
char_len [] = 0
char_len (a ∷ []) = if leb a 0x7f then 1 else 0
char_len (a ∷ b ∷ []) = if leb a 0x7f then 1 else if between 0xc2 0xdf a && is_tail b then 2 else 0
char_len (a ∷ b ∷ c ∷ []) =
    if leb a 0x7f
    then 1
    else if between 0xc2 0xdf a && is_tail b
    then 2
    else if between 0xe0 0xef a && second_fits a b && is_tail c
    then 3
    else 0
char_len (a ∷ b ∷ c ∷ d ∷ s) =
    if leb a 0x7f
    then 1
    else if between 0xc2 0xdf a && is_tail b
    then 2
    else if between 0xe0 0xef a && second_fits a b && is_tail c
    then 3
    else if between 0xf0 0xf4 a && second_fits a b && is_tail c && is_tail d
    then 4
    else 0

-- A character takes a byte at least, so as many rounds as there are bytes are enough.
valid_from : ℕ → Bytes → Bool
unfolding char_len
valid_from fuel [] = true
valid_from zero (b ∷ s) = false
valid_from (suc fuel) (b ∷ s) =
    let rest = valid_from fuel (drop (char_len (b ∷ s)) (b ∷ s)) in
    if char_len (b ∷ s) == 0 then false else rest

unfoldable pub valid_utf8 : Bytes → Bool
unfolding valid_from
valid_utf8 s = valid_from (length s) s

-- The encodings of the characters with the property White_Space.
abbrev white_spaces : List Bytes
white_spaces =
    (0x09 ∷ [])
    ∷ (0x0a ∷ [])
    ∷ (0x0b ∷ [])
    ∷ (0x0c ∷ [])
    ∷ (0x0d ∷ [])
    ∷ (0x20 ∷ [])
    ∷ (0xc2 ∷ 0x85 ∷ [])
    ∷ (0xc2 ∷ 0xa0 ∷ [])
    ∷ (0xe1 ∷ 0x9a ∷ 0x80 ∷ [])
    ∷ (0xe2 ∷ 0x80 ∷ 0x80 ∷ [])
    ∷ (0xe2 ∷ 0x80 ∷ 0x81 ∷ [])
    ∷ (0xe2 ∷ 0x80 ∷ 0x82 ∷ [])
    ∷ (0xe2 ∷ 0x80 ∷ 0x83 ∷ [])
    ∷ (0xe2 ∷ 0x80 ∷ 0x84 ∷ [])
    ∷ (0xe2 ∷ 0x80 ∷ 0x85 ∷ [])
    ∷ (0xe2 ∷ 0x80 ∷ 0x86 ∷ [])
    ∷ (0xe2 ∷ 0x80 ∷ 0x87 ∷ [])
    ∷ (0xe2 ∷ 0x80 ∷ 0x88 ∷ [])
    ∷ (0xe2 ∷ 0x80 ∷ 0x89 ∷ [])
    ∷ (0xe2 ∷ 0x80 ∷ 0x8a ∷ [])
    ∷ (0xe2 ∷ 0x80 ∷ 0xa8 ∷ [])
    ∷ (0xe2 ∷ 0x80 ∷ 0xa9 ∷ [])
    ∷ (0xe2 ∷ 0x80 ∷ 0xaf ∷ [])
    ∷ (0xe2 ∷ 0x81 ∷ 0x9f ∷ [])
    ∷ (0xe3 ∷ 0x80 ∷ 0x80 ∷ [])
    ∷ []

strip_prefix : Bytes → Bytes → Option Bytes
strip_prefix [] s = some s
strip_prefix (p ∷ ps) [] = none
strip_prefix (p ∷ ps) (c ∷ s) = let rest = strip_prefix ps s in if p == c then rest else none

strip_first : List Bytes → Bytes → Option Bytes
unfolding strip_prefix
strip_first [] s = none
strip_first (p ∷ ps) s = elim (strip_prefix p s) [ some r ↦ some r | none ↦ strip_first ps s ]

strip_while : ℕ → List Bytes → Bytes → Bytes
unfolding strip_first
strip_while zero ps s = s
strip_while (suc fuel) ps s = elim (strip_first ps s) [ some r ↦ strip_while fuel ps r | none ↦ s ]

-- Each character that is stripped has a byte at least, so the length of the text is fuel enough. At
-- the end the text and the encodings are read backwards.
unfoldable pub trim : Bytes → Bytes
unfolding strip_while
trim s =
    let t = strip_while (length s) white_spaces s in
    reverse (strip_while (length t) (map reverse white_spaces) (reverse t))
