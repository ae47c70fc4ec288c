-- ===== src/Validation.antt =====
-- validation.go.
pub mod Headers
use Prim.Native.String.{String}
use vecto.Base.{
  ℕ, Bool, true, false, ◌&&◌, ◌||◌, not, Option, none, some, List, [], ◌∷◌, Bytes, codes, Dict, ltb,
  ◌==◌, if◌then◌else◌, length, str_eq, leb, all, zero, suc, ◌++◌, ◌≡◌, refl,
}
use vecto.Http.{Err, message, wrapped}
use vecto.Substring.{is_empty}
use vecto.Urls.{UrlLib}
use vecto.Utf8.{runes, decode_rune}

abbrev pub max_url_length : ℕ
max_url_length = 2048

abbrev pub max_header_name_len : ℕ
max_header_name_len = 256

abbrev pub max_header_value_len : ℕ
max_header_value_len = 8192

abbrev pub invalid : String → Option Err
invalid reason = some (message (codes reason))

-- fmt.Errorf("…: %w", err), when there is an error.
abbrev pub wrap : Bytes → Option Err → Option Err
wrap reason none = none
wrap reason (some err) = some (wrapped reason err)

-- The first error, or the rest.
infixr 6 ◌or_else◌
abbrev pub ◌or_else◌ : Option Err → Option Err → Option Err
(some err) or_else rest = some err
none or_else rest = rest

unfoldable pub validate_url : UrlLib → Bytes → Option Err
validate_url lib url_str =
    if is_empty url_str
    then invalid "URL cannot be empty"
    else if ltb max_url_length (length url_str)
    then invalid "URL exceeds maximum length of 2048 characters"
    else elim (lib.parse url_str).1 [
      | some err ↦ some (wrapped (codes "invalid URL format") err)
      | none ↦ elim (lib.parse url_str).0 [
        | none ↦ none
        | some u ↦
            if is_empty (lib.scheme u)
              || str_eq (lib.scheme u) (codes "http")
              || str_eq (lib.scheme u) (codes "https")
            then none
            else some (message (codes "URL scheme must be http or https, got: " ++ lib.scheme u))
      ]
    ]

-- The tables of the package unicode, and how fmt quotes a text and a rune (%q), which reads them.
pub record Unicode : Type 0 where
  pub is_letter : ℕ → Bool
  pub is_digit : ℕ → Bool
  pub quote : Bytes → Bytes
  pub quote_rune : ℕ → Bytes

module _ (unicode : Unicode) where
  unfoldable pub is_valid_header_name_char : ℕ → Bool
  is_valid_header_name_char r = unicode.is_letter r || unicode.is_digit r || r == b'-' || r == b'_'

  check_name : List ℕ → Option Err
  check_name [] = none
  check_name (r ∷ rs) =
      if not (is_valid_header_name_char r)
      then some (message (codes "header name contains invalid character: " ++ unicode.quote_rune r))
      else check_name rs

  unfoldable pub validate_header_name : Bytes → Option Err
  unfolding check_name is_valid_header_name_char
  validate_header_name name =
      if is_empty name
      then invalid "header name cannot be empty"
      else if ltb max_header_name_len (length name)
      then invalid "header name exceeds maximum length of 256 characters"
      else check_name (runes name)

check_value : List ℕ → Option Err
check_value [] = none
check_value (r ∷ rs) =
    if r == b'\r' || r == b'\n'
    then invalid "header value cannot contain CR or LF characters"
    else check_value rs

unfoldable pub validate_header_value : Bytes → Option Err
unfolding check_value
validate_header_value value =
    if ltb max_header_value_len (length value)
    then invalid "header value exceeds maximum length of 8192 characters"
    else check_value (runes value)

module _ (unicode : Unicode) where
  -- A nil map has no entry.
  unfoldable pub validate_headers : Dict Bytes → Option Err
  validate_headers [] = none
  validate_headers ((name, value) ∷ headers) =
      wrap (codes "invalid header name " ++ unicode.quote name) (validate_header_name unicode name)
      or_else wrap (codes "invalid header value for " ++ unicode.quote name)
          (validate_header_value value)
      or_else validate_headers headers

-- unicode.IsSpace
unfoldable pub is_space : ℕ → Bool
is_space r =
    leb 9 r && leb r 13
    || r == b' '
    || r == 0x85
    || r == 0xa0
    || r == 0x1680
    || leb 0x2000 r && leb r 0x200a
    || r == 0x2028
    || r == 0x2029
    || r == 0x202f
    || r == 0x205f
    || r == 0x3000

-- The numbers count the bytes of the last rune that are still to be passed.
trim_left : ℕ → Bytes → Bytes
trim_left k [] = []
trim_left (suc k) (a ∷ s) = trim_left k s
trim_left zero (a ∷ s) =
    let rest = trim_left (decode_rune a s).1 s in
    if is_space (decode_rune a s).0 then rest else a ∷ s

trim_right : ℕ → Bytes → Bytes
trim_right k [] = []
trim_right (suc k) (a ∷ s) = a ∷ trim_right k s
trim_right zero (a ∷ s) =
    if all is_space (runes (a ∷ s)) then [] else a ∷ trim_right (decode_rune a s).1 s

-- strings.TrimSpace
unfoldable pub trim_space : Bytes → Bytes
unfolding trim_left trim_right is_space
trim_space s = trim_right 0 (trim_left 0 s)

trim_space_test :
    trim_space (0xc2 ∷ 0xa0 ∷ 9 ∷ codes "a b" ++ 0xe3 ∷ 0x80 ∷ 0x80 ∷ []) ≡ codes "a b"
unfolding trim_space runes decode_rune
trim_space_test = refl

unfoldable pub sanitize_url : Bytes → Bytes
unfolding trim_space
sanitize_url url_str = trim_space url_str
