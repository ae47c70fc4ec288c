-- ===== src/HttpHeader.antt =====
-- What the sources use of Go's net/http.Header: the canonical key and Get.
use vecto.Base.{
  ℕ, ◌+◌, ◌-◌, Bool, true, ◌&&◌, ◌||◌, not, none, some, List, [], ◌∷◌, Bytes, Dict, lookup, leb,
  ◌==◌, if◌then◌else◌, all,
}

abbrev is_lower : ℕ → Bool
is_lower c = leb b'a' c && leb c b'z'

abbrev is_upper : ℕ → Bool
is_upper c = leb b'A' c && leb c b'Z'

abbrev is_digit : ℕ → Bool
is_digit c = leb b'0' c && leb c b'9'

-- The bytes of an RFC 7230 token.
is_field_byte : ℕ → Bool
is_field_byte c =
    is_lower c
    || is_upper c
    || is_digit c
    || c == b'!'
    || leb b'#' c && leb c b'\''
    || c == b'*'
    || c == b'+'
    || c == b'-'
    || c == b'.'
    || leb b'^' c && leb c b'`'
    || c == b'|'
    || c == b'~'

-- `upper`: the next letter is a capital.
capitalise : Bool → Bytes → Bytes
capitalise upper [] = []
capitalise upper (c ∷ s) =
    (if upper && is_lower c then c - 32 else if not upper && is_upper c then c + 32 else c)
    ∷ capitalise (c == b'-') s

unfoldable pub canonical_key : Bytes → Bytes
unfolding capitalise is_field_byte
canonical_key key = if all is_field_byte key then capitalise true key else key

-- The first value, or the empty text.
unfoldable pub header_get : Dict (List Bytes) → Bytes → Bytes
unfolding canonical_key
header_get header key = elim (lookup (canonical_key key) header) [
  | none ↦ []
  | some [] ↦ []
  | some (v ∷ vs) ↦ v
]
