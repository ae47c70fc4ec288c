-- ===== src/Auth.antt =====
-- auth.go: Basic and Bearer credentials in headers; the methods on a request are in Request.
pub mod RoundTrip
use vecto.Base.{
  ℤ, ℕ, zero, suc, Bool, true, false, Option, none, some, List, [], ◌∷◌, ◌++◌, Bytes, codes, Dict,
  insert, delete, ltb, ◌==◌, not, length, take, drop, str_eq, if◌then◌else◌,
}
use vecto.Base64
use vecto.Http.{Err, message, wrapped}
use vecto.Request.{authorization, encode_basic_auth}
use vecto.Substring.{is_empty}

-- An int; `other` is one without a constant.
pub data AuthType : Type 0 where
  basic bearer digest : AuthType
  other : ℤ → AuthType

unfoldable pub auth_type_string : AuthType → Bytes
auth_type_string basic = codes "Basic"
auth_type_string bearer = codes "Bearer"
auth_type_string digest = codes "Digest"
auth_type_string (other n) = codes "Unknown"

-- (*Vecto).SetBasicAuth and the others, on `v.config.Headers`; a nil map is made first.
unfoldable pub set_basic_auth : Dict Bytes → Bytes → Bytes → Dict Bytes
set_basic_auth headers username password =
    if is_empty username
    then headers
    else insert authorization (encode_basic_auth username password) headers

unfoldable pub set_bearer_token : Dict Bytes → Bytes → Dict Bytes
set_bearer_token headers token =
    if is_empty token then headers else insert authorization (codes "Bearer " ++ token) headers

-- (*Vecto).SetAuthToken
unfoldable pub set_auth_token : Dict Bytes → Bytes → Dict Bytes
set_auth_token = set_bearer_token

unfoldable pub clear_auth : Dict Bytes → Dict Bytes
clear_auth headers = delete authorization headers

abbrev pub prefix : Bytes
prefix = codes "Basic "

pub record Credentials : Type 0 where
  pub username : Bytes
  pub password : Bytes
  pub err : Option Err

abbrev refused : Err → Credentials
refused err = record { username = []; password = []; err = some err }

-- The loop over `decodedStr`: `before` is what it has passed.
split_at_colon : Bytes → Bytes → Credentials
split_at_colon before [] = refused (message (codes "invalid basic auth format"))
split_at_colon before (c ∷ s) =
    let rest = split_at_colon (before ++ c ∷ []) s in
    if c == b':' then record { username = before; password = s; err = none } else rest

-- `corrupt` is the error of base64 for a text that does not decode.
module _ (corrupt : Bytes → Err) where
  unfoldable pub decode_basic_auth : Bytes → Credentials
  unfolding split_at_colon
  decode_basic_auth auth_header =
      if ltb (length auth_header) (length prefix)
      then refused (message (codes "invalid basic auth header"))
      else if not (str_eq (take (length prefix) auth_header) prefix)
      then refused (message (codes "not a basic auth header"))
      else elim (Base64.decode (drop (length prefix) auth_header)) [
        | none ↦ refused (
            wrapped (codes "failed to decode basic auth")
              (corrupt (drop (length prefix) auth_header)))
        | some decoded ↦ split_at_colon [] decoded
      ]
