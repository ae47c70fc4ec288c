-- ===== src/Base64.antt =====
-- encoding/base64.StdEncoding of the Go standard library, which auth.go encodes and decodes with.
pub mod RoundTrip
use vecto.Base.{
  ℕ, suc, ◌+◌, ◌-◌, ◌*◌, ◌/◌, ◌%◌, ◌^◌, Bool, true, false, ◌&&◌, ◌||◌, not, Option, none, some,
  List, [], ◌∷◌, Bytes, codes, ltb, leb, ◌==◌, if◌then◌else◌, keep, ◌≡◌, refl,
}

-- The letter of a 6-bit value.
unfoldable pub letter : ℕ → ℕ
letter n =
    if ltb n 26
    then b'A' + n
    else if ltb n 52
    then b'a' + (n - 26)
    else if ltb n 62
    then b'0' + (n - 52)
    else if n == 62
    then b'+'
    else b'/'

unfoldable pub value : ℕ → Option ℕ
value c =
    if leb b'A' c && leb c b'Z'
    then some (c - b'A')
    else if leb b'a' c && leb c b'z'
    then some (c - b'a' + 26)
    else if leb b'0' c && leb c b'9'
    then some (c - b'0' + 52)
    else if c == b'+'
    then some 62
    else if c == b'/'
    then some 63
    else none

abbrev pub padding : ℕ
padding = b'='

-- The four 6-bit parts of three bytes.
abbrev pub part0 : ℕ → ℕ
part0 a = a / 4

abbrev pub part1 : ℕ → ℕ → ℕ
part1 a b = a % 4 * 16 + b / 16

abbrev pub part2 : ℕ → ℕ → ℕ
part2 b c = b % 16 * 4 + c / 64

abbrev pub part3 : ℕ → ℕ
part3 c = c % 64

-- EncodeToString.
unfoldable pub encode : Bytes → Bytes
encode [] = []
encode (a ∷ []) = letter (part0 a) ∷ letter (part1 a 0) ∷ padding ∷ padding ∷ []
encode (a ∷ b ∷ []) = letter (part0 a) ∷ letter (part1 a b) ∷ letter (part2 b 0) ∷ padding ∷ []
encode (a ∷ b ∷ c ∷ s) =
    letter (part0 a) ∷ letter (part1 a b) ∷ letter (part2 b c) ∷ letter (part3 c) ∷ encode s

infixl 5 ◌>>=◌
abbrev ◌>>=◌ {ℓ κ} : {A : Type ℓ} {B : Type κ} → Option A → (A → Option B) → Option B
none >>= f = none
some a >>= f = f a

-- The three bytes of four 6-bit parts; bits of the last part that no byte takes are dropped.
abbrev byte0 : ℕ → ℕ → ℕ
byte0 p q = p * 4 + q / 16

abbrev byte1 : ℕ → ℕ → ℕ
byte1 q r = q % 16 * 16 + r / 4

abbrev byte2 : ℕ → ℕ → ℕ
byte2 r s = r % 4 * 64 + s

one_byte : ℕ → ℕ → Option Bytes
one_byte a b = do p ← value a; q ← value b; some (byte0 p q ∷ [])

two_bytes : ℕ → ℕ → ℕ → Option Bytes
two_bytes a b c = do p ← value a; q ← value b; r ← value c; some (byte0 p q ∷ byte1 q r ∷ [])

three_bytes : ℕ → ℕ → ℕ → ℕ → Option Bytes → Option Bytes
three_bytes a b c d rest = do
  p ← value a
  q ← value b
  r ← value c
  s ← value d
  t ← rest
  some (byte0 p q ∷ byte1 q r ∷ byte2 r s ∷ t)

-- Padding may only end the text.
decode_last : ℕ → ℕ → ℕ → ℕ → Option Bytes
decode_last a b c d =
    if c == padding && d == padding
    then one_byte a b
    else if d == padding
    then two_bytes a b c
    else three_bytes a b c d (some [])

unfoldable pub decode_quads : Bytes → Option Bytes
unfolding decode_last one_byte two_bytes three_bytes
decode_quads [] = some []
decode_quads (a ∷ []) = none
decode_quads (a ∷ b ∷ []) = none
decode_quads (a ∷ b ∷ c ∷ []) = none
decode_quads (a ∷ b ∷ c ∷ d ∷ []) = decode_last a b c d
decode_quads (a ∷ b ∷ c ∷ d ∷ e ∷ s) = three_bytes a b c d (decode_quads (e ∷ s))

unfoldable pub is_text : ℕ → Bool
is_text c = not (c == 10 || c == 13)

-- DecodeString: line breaks are skipped wherever they stand.
unfoldable pub decode : Bytes → Option Bytes
unfolding is_text
decode s = decode_quads (keep is_text s)

encode_test : encode (codes "user:pa") ≡ codes "dXNlcjpwYQ=="
unfolding encode letter
encode_test = refl

decode_test : decode (codes "dXNlcjpwYQ==") ≡ some (codes "user:pa")
unfolding decode decode_quads value
decode_test = refl
