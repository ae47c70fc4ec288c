-- ===== src/Urls.antt =====
-- url.go, and what the library uses of net/url: a parsed URL is the library's own value.
use vecto.Base.{Option, none, some, List, [], ◌∷◌, ◌++◌, Bytes, Dict, lookup, insert, get_or}
use vecto.Http.{Any, text, Err}

-- net/url and fmt: `parse` is url.Parse, `query` reads the query as url.Values, `with_query` sets
-- RawQuery to the encoding of such values, `to_string` is (*URL).String, `path_escape` is PathEscape,
-- `encode_query` is (url.Values).Encode, and `show` prints a value by `%v`.
pub record UrlLib : Type 1 where
  pub Url : Type 0
  pub parse : Bytes → (Option Url) × (Option Err)
  pub scheme : Url → Bytes
  pub host : Url → Bytes
  pub path : Url → Bytes
  pub query : Url → Dict (List Bytes)
  pub with_query : Dict (List Bytes) → Url → Url
  pub to_string : Url → Bytes
  pub path_escape : Bytes → Bytes
  pub encode_query : Dict (List Bytes) → Bytes
  pub show : Any → Bytes

-- `%v` writes a string as it is.
unfoldable pub format_value : (Any → Bytes) → Any → Bytes
format_value show (text s) = s
format_value show v = show v

-- (url.Values).Add
unfoldable pub add_value : Bytes → Bytes → Dict (List Bytes) → Dict (List Bytes)
add_value key value query = insert key (get_or (lookup key query) [] ++ value ∷ []) query

unfoldable pub add_params : (Any → Bytes) → Dict Any → Dict (List Bytes) → Dict (List Bytes)
unfolding add_value format_value
add_params show [] query = query
add_params show ((key, value) ∷ params) query =
    add_params show params (add_value key (format_value show value) query)

-- A parse that fails returns no URL; one that succeeds returns one.
module _ (lib : UrlLib) where
  open lib use {Url, parse, query, with_query, show}

  unfoldable pub get_url_instance : Bytes → Dict Any → Option Url × Option Err
  unfolding add_params
  get_url_instance req_url params =
      let (parsed, err) = parse req_url in
      elim err [
        | some e ↦ (none, some e)
        | none ↦ elim parsed [
          | none ↦ (none, none)
          | some u ↦ (some (with_query (add_params show params (query u)) u), none)
        ]
      ]
