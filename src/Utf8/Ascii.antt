-- ===== src/Utf8/Ascii.antt =====
-- An ASCII byte of a string is one of its runes: no multi-byte sequence takes it.
use vecto.Base.{ℕ, zero, suc, ◌≤◌, ◌<◌, ◌≡◌, [], ◌∷◌, Bytes, take, All, arith}
use vecto.Utf8.{decode_rune, runes_from, runes}

abbrev pub IsHigh : ℕ → Type 0
IsHigh b = 128 ≤ b

decode_rune-IsHigh : (a : ℕ) (s : Bytes) → All IsHigh (take (decode_rune a s).1 s)
unfolding decode_rune
decode_rune-IsHigh a [] = ground arith
decode_rune-IsHigh a (b ∷ []) = ground arith
decode_rune-IsHigh a (b ∷ c ∷ []) = ground arith
decode_rune-IsHigh a (b ∷ c ∷ d ∷ s) = ground arith

decode_rune-ascii : (a : ℕ) (s : Bytes) → a < 128 → (decode_rune a s).0 ≡ a
unfolding decode_rune
decode_rune-ascii a s h = ground arith

-- A property of all runes holds of every ASCII byte.
module _ (P : ℕ → Type 0) where
  abbrev pub IfAscii : ℕ → Type 0
  IfAscii b = (128 ≤ b → ⊥) → P b

  All-runes_from :
      (k : ℕ) (s : Bytes) → All IsHigh (take k s) → All P (runes_from k s) → All IfAscii s
  unfolding runes_from
  All-runes_from zero [] h p = tt
  All-runes_from (suc k) [] h p = tt
  All-runes_from (suc k) (a ∷ s) (high, h) p = ((λ low. absurd (low high)), All-runes_from k s h p)
  All-runes_from zero (a ∷ s) h (p, ps) = (
    (λ low. rw (decode_rune-ascii a s (omega arith)) at p),
    All-runes_from (decode_rune a s).1 s (decode_rune-IsHigh a s) ps,
  )

  pub All-runes : (s : Bytes) → All P (runes s) → All IfAscii s
  unfolding runes
  All-runes s p = All-runes_from 0 s tt p
