-- ===== src/Utf8.antt =====
-- How Go's `for _, r := range s` reads a string: UTF-8, with U+FFFD for each byte that begins no
-- valid sequence.
pub mod Ascii
use vecto.Base.{
  ℕ, zero, suc, ◌+◌, ◌-◌, ◌*◌, ◌%◌, Bool, true, false, ◌&&◌, ◌||◌, Option, none, some, List, [],
  ◌∷◌, Bytes, codes, ltb, leb, ◌==◌, if◌then◌else◌, get_elem?, ◌≡◌, refl,
}

abbrev pub rune_error : ℕ
rune_error = 0xfffd

-- The next byte, if it lies in a range.
follows : Bytes → ℕ → ℕ → ℕ → Bool
follows s i lo hi = elim (get_elem? s i) [ none ↦ false | some b ↦ leb lo b && leb b hi ]

low_bits : Bytes → ℕ → ℕ
low_bits s i = elim (get_elem? s i) [ none ↦ 0 | some b ↦ b % 64 ]

-- The rune that begins with `a`, and how many of the bytes behind `a` belong to it.
unfoldable pub decode_rune : ℕ → Bytes → ℕ × ℕ
unfolding follows low_bits
decode_rune a s =
    if ltb a 0x80
    then (a, 0)
    else if ltb a 0xc2
    then (rune_error, 0)
    else if ltb a 0xe0
    then (if follows s 0 0x80 0xbf then (a % 32 * 64 + low_bits s 0, 1) else (rune_error, 0))
    else if ltb a 0xf0
    then (if follows s 0 (if a == 0xe0 then 0xa0 else 0x80) (if a == 0xed then 0x9f else 0xbf)
          && follows s 1 0x80 0xbf
        then (a % 16 * 4096 + low_bits s 0 * 64 + low_bits s 1, 2)
        else (rune_error, 0))
    else if ltb a 0xf5
    then (if follows s 0 (if a == 0xf0 then 0x90 else 0x80) (if a == 0xf4 then 0x8f else 0xbf)
          && follows s 1 0x80 0xbf
          && follows s 2 0x80 0xbf
        then (a % 8 * 262144 + low_bits s 0 * 4096 + low_bits s 1 * 64 + low_bits s 2, 3)
        else (rune_error, 0))
    else (rune_error, 0)

-- The number counts the bytes of the last rune that are still to be passed.
runes_from : ℕ → Bytes → List ℕ
runes_from k [] = []
runes_from (suc k) (a ∷ s) = runes_from k s
runes_from zero (a ∷ s) = (decode_rune a s).0 ∷ runes_from (decode_rune a s).1 s

unfoldable pub runes : Bytes → List ℕ
unfolding runes_from
runes s = runes_from 0 s

runes_test :
    runes (0x61 ∷ 0xc3 ∷ 0xa9 ∷ 0xe2 ∷ 0x82 ∷ 0xac ∷ 0xff ∷ 0x0d ∷ [])
    ≡ 0x61 ∷ 0xe9 ∷ 0x20ac ∷ rune_error ∷ 0x0d ∷ []
unfolding runes decode_rune
runes_test = refl
