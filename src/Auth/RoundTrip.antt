-- ===== src/Auth/RoundTrip.antt =====
-- auth.go: DecodeBasicAuth undoes encodeBasicAuth up to the first colon.
use vecto.Base.{
  ◌≡◌, ◌∙◌, ap, ◌≢◌, none, some, [], ◌∷◌, ◌++◌, Bytes, codes, str_eq, All, All-append, arith,
  append_assoc, append-nil, ◌<◌,
}
use vecto.Base64
use vecto.Base64.RoundTrip.{AreBytes, decode-encode}
use vecto.Auth.{split_at_colon, decode_basic_auth}
use vecto.Http.{Err}
use vecto.Request.{encode_basic_auth}

abbrev pub HasNoColon : Bytes → Type 0
HasNoColon = All (λ b. b ≢ b':')

split_at_colon-append :
    (before user rest : Bytes)
    → HasNoColon user
    → split_at_colon before (user ++ (b':' ∷ rest))
      ≡ record { username = before ++ user; password = rest; err = none }
unfolding split_at_colon
split_at_colon-append before [] rest h = rw append-nil
split_at_colon-append before (c ∷ user) rest (h, hs) = ground (
  arith,
  split_at_colon-append (before ++ c ∷ []) user rest hs,
  append_assoc before (c ∷ []) user,
)

decode_prefixed :
    (corrupt : Bytes → Err) (text decoded : Bytes)
    → Base64.decode text ≡ some decoded
    → decode_basic_auth corrupt (codes "Basic " ++ text) ≡ split_at_colon [] decoded
unfolding decode_basic_auth str_eq
decode_prefixed corrupt text decoded h = ground arith

-- Decoding an encoded pair gives it back, for any password and any user name without a colon.
pub decode-encode_basic_auth :
    (corrupt : Bytes → Err) (user password : Bytes)
    → AreBytes user
    → AreBytes password
    → HasNoColon user
    → decode_basic_auth corrupt (encode_basic_auth user password)
      ≡ record { username = user; password = password; err = none }
unfolding encode_basic_auth
decode-encode_basic_auth corrupt user password hu hp no_colon =
    decode_prefixed corrupt _ _ (
      decode-encode (user ++ (codes ":" ++ password))
        (All-append (λ b. b < 256) user _ hu (omega arith, hp)))
    ∙ split_at_colon-append [] user password no_colon

-- A user name with a colon is encoded all the same, and is decoded as its part before the colon; the
-- rest of it goes to the password.
pub decode-encode_basic_auth_colon :
    (corrupt : Bytes → Err) (user more password : Bytes)
    → AreBytes user
    → AreBytes more
    → AreBytes password
    → HasNoColon user
    → decode_basic_auth corrupt (encode_basic_auth (user ++ (codes ":" ++ more)) password)
      ≡ record { username = user; password = more ++ (codes ":" ++ password); err = none }
unfolding encode_basic_auth
decode-encode_basic_auth_colon corrupt user more password hu hm hp no_colon =
    ap (λ t. decode_basic_auth corrupt (codes "Basic " ++ Base64.encode t))
      (append_assoc user (codes ":" ++ more) (codes ":" ++ password))
    ∙ decode_prefixed corrupt _ _ (
        decode-encode (user ++ (codes ":" ++ (more ++ (codes ":" ++ password)))) (
          All-append (λ b. b < 256) user _ hu
            (omega arith, All-append (λ b. b < 256) more _ hm (omega arith, hp))))
    ∙ split_at_colon-append [] user _ no_colon
