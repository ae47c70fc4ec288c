-- ===== src/Base64/RoundTrip.antt =====
-- Decoding what was encoded gives the bytes back.
use vecto.Base.{
  ℕ, ◌<◌, ◌≡◌, refl, ◌∙◌, ap, Bool, true, false, some, [], ◌∷◌, Bytes, ◌==◌, keep, All, arith,
}
use vecto.Base64.{
  letter, value, padding, part0, part1, part2, part3, encode, one_byte, two_bytes, three_bytes,
  decode_last, decode_quads, decode, is_text,
}

abbrev pub AreBytes : Bytes → Type 0
AreBytes = All (λ b. b < 256)

value-letter : (n : ℕ) → n < 64 → value (letter n) ≡ some n
unfolding value letter
value-letter n h = ground arith

letter-ne-padding : (n : ℕ) → n < 64 → (letter n == padding) ≡ false
unfolding letter
letter-ne-padding n h = ground arith

letter-is_text : (n : ℕ) → n < 64 → is_text (letter n) ≡ true
unfolding letter is_text
letter-is_text n h = ground arith

padding-is_text : is_text padding ≡ true
unfolding is_text
padding-is_text = refl

keep-kept : (p : ℕ → Bool) (c : ℕ) (s : Bytes) → p c ≡ true → keep p (c ∷ s) ≡ c ∷ keep p s
keep-kept p c s h = ground arith

keep-letter : (n : ℕ) (s : Bytes) → n < 64 → keep is_text (letter n ∷ s) ≡ letter n ∷ keep is_text s
keep-letter n s h = keep-kept is_text (letter n) s (letter-is_text n h)

keep-padding : (s : Bytes) → keep is_text (padding ∷ s) ≡ padding ∷ keep is_text s
keep-padding s = keep-kept is_text padding s padding-is_text

-- No letter is a line break, so there is nothing to skip.
keep-encode : (s : Bytes) → AreBytes s → keep is_text (encode s) ≡ encode s
unfolding encode
keep-encode [] h = refl
keep-encode (a ∷ []) (ha, h) = cc (
  keep-letter (part0 a) (letter (part1 a 0) ∷ padding ∷ padding ∷ []) (omega arith),
  keep-letter (part1 a 0) (padding ∷ padding ∷ []) (omega arith),
  keep-padding (padding ∷ []),
  keep-padding [],
)
keep-encode (a ∷ b ∷ []) (ha, (hb, h)) = cc (
  keep-letter (part0 a) (letter (part1 a b) ∷ letter (part2 b 0) ∷ padding ∷ []) (omega arith),
  keep-letter (part1 a b) (letter (part2 b 0) ∷ padding ∷ []) (omega arith),
  keep-letter (part2 b 0) (padding ∷ []) (omega arith),
  keep-padding [],
)
keep-encode (a ∷ b ∷ c ∷ s) (ha, (hb, (hc, h))) = cc (
  keep-letter (part0 a) (letter (part1 a b) ∷ letter (part2 b c) ∷ letter (part3 c) ∷ encode s)
      (omega arith),
  keep-letter (part1 a b) (letter (part2 b c) ∷ letter (part3 c) ∷ encode s) (omega arith),
  keep-letter (part2 b c) (letter (part3 c) ∷ encode s) (omega arith),
  keep-letter (part3 c) (encode s) (omega arith),
  keep-encode s h,
)

-- Three letters decode to their bytes, whatever follows.
three_bytes-letter :
    (a b c : ℕ) (rest : Bytes)
    → a < 256
    → b < 256
    → c < 256
    → three_bytes
        (letter (part0 a))
        (letter (part1 a b))
        (letter (part2 b c))
        (letter (part3 c))
        (some rest)
      ≡ some (a ∷ b ∷ c ∷ rest)
unfolding three_bytes
three_bytes-letter a b c rest ha hb hc =
    rw
      (
        value-letter (part0 a) (omega arith),
        value-letter (part1 a b) (omega arith),
        value-letter (part2 b c) (omega arith),
        value-letter (part3 c) (omega arith),
      )
      (ground arith)

one_byte-letter :
    (a : ℕ) → a < 256 → one_byte (letter (part0 a)) (letter (part1 a 0)) ≡ some (a ∷ [])
unfolding one_byte
one_byte-letter a ha =
    rw (value-letter (part0 a) (omega arith), value-letter (part1 a 0) (omega arith)) (ground arith)

two_bytes-letter :
    (a b : ℕ)
    → a < 256
    → b < 256
    → two_bytes (letter (part0 a)) (letter (part1 a b)) (letter (part2 b 0)) ≡ some (a ∷ b ∷ [])
unfolding two_bytes
two_bytes-letter a b ha hb =
    rw
      (
        value-letter (part0 a) (omega arith),
        value-letter (part1 a b) (omega arith),
        value-letter (part2 b 0) (omega arith),
      )
      (ground arith)

decode_last-letter :
    (a b c d : ℕ)
    → (c == padding) ≡ false
    → (d == padding) ≡ false
    → decode_last a b c d ≡ three_bytes a b c d (some [])
unfolding decode_last
decode_last-letter a b c d h k = ground arith

decode_last-one : (a b : ℕ) → decode_last a b padding padding ≡ one_byte a b
unfolding decode_last
decode_last-one a b = refl

decode_last-two : (a b c : ℕ) → (c == padding) ≡ false → decode_last a b c padding ≡ two_bytes a b c
unfolding decode_last
decode_last-two a b c h = ground arith

-- A group of four letters is read in front of whatever was encoded.
decode_quads-more :
    (a b c d : ℕ) (s : Bytes) (rest : Bytes)
    → (c == padding) ≡ false
    → (d == padding) ≡ false
    → decode_quads s ≡ some rest
    → decode_quads (a ∷ b ∷ c ∷ d ∷ s) ≡ three_bytes a b c d (some rest)
unfolding decode_quads
decode_quads-more a b c d [] rest h k e =
    decode_last-letter a b c d h k ∙ ap (three_bytes a b c d) e
decode_quads-more a b c d (x ∷ s) rest h k e = rw e

decode_quads-encode : (s : Bytes) → AreBytes s → decode_quads (encode s) ≡ some s
unfolding encode
decode_quads-encode [] h = unfold decode_quads in refl
decode_quads-encode (a ∷ []) (ha, h) =
    unfold decode_quads in decode_last-one _ _ ∙ one_byte-letter a ha
decode_quads-encode (a ∷ b ∷ []) (ha, (hb, h)) =
    unfold decode_quads in
    decode_last-two _ _ _ (letter-ne-padding (part2 b 0) (omega arith)) ∙ two_bytes-letter a b ha hb
decode_quads-encode (a ∷ b ∷ c ∷ s) (ha, (hb, (hc, h))) =
    decode_quads-more _ _ _ _ (encode s) s (letter-ne-padding (part2 b c) (omega arith))
      (letter-ne-padding (part3 c) (omega arith)) (decode_quads-encode s h)
    ∙ three_bytes-letter a b c s ha hb hc

-- Decoding the encoding of any bytes gives them back.
pub decode-encode : (s : Bytes) → AreBytes s → decode (encode s) ≡ some s
unfolding decode
decode-encode s h = rw (keep-encode s h) (decode_quads-encode s h)
