-- ===== src/Validation/Headers.antt =====
-- validation.go: a header that passes validation cannot smuggle in another one.
use vecto.Base.{
  ℕ, ◌≤◌, ◌<◌, ◌≡◌, refl, ◌≢◌, Bool, ◌==◌, codes, true, ◌||◌, ◌&&◌, none, List, [], ◌∷◌, Bytes,
  Dict, length, All, arith, leb,
}
use native.Mathlib.Decide.{dec_lt}
use vecto.Utf8.{runes, decode_rune}
use vecto.Utf8.Ascii.{All-runes, IfAscii}
use vecto.Validation.{
  Unicode, is_valid_header_name_char, check_name, check_value, validate_header_name,
  validate_header_value, validate_headers, max_header_name_len, max_header_value_len,
}

-- In ASCII the letters and digits of Unicode are the usual ones.
pub record IsAsciiCompatible (unicode : Unicode) : Type 0 where
  pub letters :
      (c : ℕ)
      → c < 128
      → unicode.is_letter c ≡ (leb b'a' c && leb c b'z' || leb b'A' c && leb c b'Z')
  pub digits : (c : ℕ) → c < 128 → unicode.is_digit c ≡ (leb b'0' c && leb c b'9')

-- No byte that ends a header line.
abbrev pub IsOneLine : Bytes → Type 0
IsOneLine = All (λ b. (b ≢ b'\r') × (b ≢ b'\n'))

-- Nor one that ends a header's name.
abbrev pub IsName : Bytes → Type 0
IsName = All (λ b. (b ≢ b'\r') × (b ≢ b'\n') × (b ≢ b':') × (b ≢ b' '))

check_value-All : (rs : List ℕ) → check_value rs ≡ none → All (λ r. (r ≢ b'\r') × (r ≢ b'\n')) rs
unfolding check_value
check_value-All [] h = tt
check_value-All (r ∷ rs) h = ground (arith, check_value-All rs)

check_name-All :
    (unicode : Unicode) (rs : List ℕ)
    → check_name unicode rs ≡ none
    → All (λ r. is_valid_header_name_char unicode r ≡ true) rs
unfolding check_name
check_name-All unicode [] h = tt
check_name-All unicode (r ∷ rs) h = ground (arith, check_name-All unicode rs)

IfAscii-IsOneLine : (s : Bytes) → All (IfAscii (λ r. (r ≢ b'\r') × (r ≢ b'\n'))) s → IsOneLine s
IfAscii-IsOneLine [] h = tt
IfAscii-IsOneLine (b ∷ s) (p, ps) = (
  ((λ e. (p (λ high. omega arith)).0 e), (λ e. (p (λ high. omega arith)).1 e)),
  IfAscii-IsOneLine s ps,
)

-- A valid ASCII character of a name is a letter, a digit, a dash or an underscore.
valid_ascii :
    (unicode : Unicode) (b : ℕ)
    → IsAsciiCompatible unicode
    → is_valid_header_name_char unicode b ≡ true
    → b < 128
    → (b ≢ b'\r') × (b ≢ b'\n') × (b ≢ b':') × (b ≢ b' ')
unfolding is_valid_header_name_char
valid_ascii unicode b ascii valid low = ground (arith, ascii.letters b, ascii.digits b)

name_char :
    (unicode : Unicode) (b : ℕ)
    → IsAsciiCompatible unicode
    → IfAscii (λ r. is_valid_header_name_char unicode r ≡ true) b
    → (b ≢ b'\r') × (b ≢ b'\n') × (b ≢ b':') × (b ≢ b' ')
name_char unicode b ascii p = elim (dec_lt b 128) [
  | yes low ↦ valid_ascii unicode b ascii (p (λ high. omega arith)) low
  | no high ↦ omega arith
]

IfAscii-IsName :
    (unicode : Unicode) (s : Bytes)
    → IsAsciiCompatible unicode
    → All (IfAscii (λ r. is_valid_header_name_char unicode r ≡ true)) s
    → IsName s
IfAscii-IsName unicode [] ascii h = tt
IfAscii-IsName unicode (b ∷ s) ascii (p, ps) =
    (name_char unicode b ascii p, IfAscii-IsName unicode s ascii ps)

-- A value that is accepted has at most 8192 bytes and no line break.
pub validate_header_value-IsOneLine :
    (value : Bytes)
    → validate_header_value value ≡ none
    → IsOneLine value × (length value ≤ max_header_value_len)
unfolding validate_header_value
validate_header_value-IsOneLine value h =
    let checked : check_value (runes value) ≡ none = ground arith in
    (
      IfAscii-IsOneLine value (All-runes _ value (check_value-All (runes value) checked)),
      ground arith,
    )

-- A name that is accepted has between 1 and 256 bytes, and no line break, colon or blank.
pub validate_header_name-IsName :
    (unicode : Unicode) (name : Bytes)
    → IsAsciiCompatible unicode
    → validate_header_name unicode name ≡ none
    → IsName name × (0 < length name) × (length name ≤ max_header_name_len)
unfolding validate_header_name
validate_header_name-IsName unicode [] ascii h = cc
validate_header_name-IsName unicode (b ∷ s) ascii h =
    let checked : check_name unicode (runes (b ∷ s)) ≡ none = ground arith in
    (
      IfAscii-IsName unicode (b ∷ s) ascii
          (All-runes _ (b ∷ s) (check_name-All unicode (runes (b ∷ s)) checked)),
      omega arith,
      ground arith,
    )

-- What validation guarantees of a header.
abbrev pub IsClean : Bytes × Bytes → Type 0
IsClean (name, value) = IsName name × IsOneLine value

-- A set of headers that is accepted holds clean headers only.
pub validate_headers-IsClean :
    (unicode : Unicode) (headers : Dict Bytes)
    → IsAsciiCompatible unicode
    → validate_headers unicode headers ≡ none
    → All IsClean headers
unfolding validate_headers
validate_headers-IsClean unicode [] ascii h = tt
validate_headers-IsClean unicode ((name, value) ∷ headers) ascii h =
    let name_ok : validate_header_name unicode name ≡ none = ground arith in
    let value_ok : validate_header_value value ≡ none = ground arith in
    let rest_ok : validate_headers unicode headers ≡ none = ground arith in
    (
      (
        (validate_header_name-IsName unicode name ascii name_ok).0,
        (validate_header_value-IsOneLine value value_ok).0,
      ),
      validate_headers-IsClean unicode headers ascii rest_ok,
    )

abbrev pub is_ascii_name_char : ℕ → Bool
is_ascii_name_char c =
    leb b'a' c && leb c b'z' || leb b'A' c && leb c b'Z' || leb b'0' c && leb c b'9' || c == b'-'

check_name-ascii :
    (unicode : Unicode) (rs : List ℕ)
    → IsAsciiCompatible unicode
    → All (λ r. (r < 128) × (is_ascii_name_char r ≡ true)) rs
    → check_name unicode rs ≡ none
unfolding check_name is_valid_header_name_char
check_name-ascii unicode [] ascii h = refl
check_name-ascii unicode (r ∷ rs) ascii ((low, valid), h) =
    ground (arith, ascii.letters r low, ascii.digits r low, check_name-ascii unicode rs ascii h)

pub content_type_valid :
    (unicode : Unicode)
    → IsAsciiCompatible unicode
    → validate_header_name unicode (codes "Content-Type") ≡ none
unfolding validate_header_name runes decode_rune
content_type_valid unicode ascii =
    check_name-ascii unicode (codes "Content-Type") ascii (ground arith)
