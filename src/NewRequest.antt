-- ===== src/NewRequest.antt =====
-- vecto.go and definitions.go: newRequest, which makes a request from the configuration and the options
-- of a call.
pub mod Clean
pub mod Sendable
use vecto.Base.{
  ℤ, Option, none, some, [], ◌++◌, Bytes, codes, Dict, insert, copy_into, get_or, if◌then◌else◌,
}
use vecto.Config.{Config}
use vecto.Http.{Any, text, Transform, json, Request, Err, message, wrapped}
use vecto.PathParams.{replace_path_params, encode_form_data}
use vecto.QueryStruct.{Value, FloatLib, struct_to_query_params}
use vecto.Request.{HttpLib}
use vecto.Request.Builder.{
  RequestBuilder, new_request_builder, with_headers, with_params, with_data, with_transform, build,
}
use vecto.Substring.{is_empty}
use vecto.Urls.{UrlLib}
use vecto.Validation.{Unicode, validate_url, sanitize_url, invalid}

-- A nil FormData and an empty one are told apart.
pub record RequestOptions : Type 0 where
  pub body : Option Any
  pub headers : Dict Bytes
  pub params : Dict Any
  pub request_transform : Option Transform
  pub max_retries : Option ℤ
  pub path_params : Option (Dict Bytes)
  pub form_data : Option (Dict Bytes)
  pub query_struct : Option Value

abbrev pub no_options : RequestOptions
no_options = record {
  body = none;
  headers = [];
  params = [];
  request_transform = none;
  max_retries = none;
  path_params = none;
  form_data = none;
  query_struct = none;
}

abbrev pub transform_of : Option Transform → Option Transform → Transform
transform_of configured (some transform) = transform
transform_of (some transform) none = transform
transform_of none none = json

abbrev pub content_type : Bytes
content_type = codes "Content-Type"

-- A form sets its own content type.
abbrev pub set_form_type : Option (Dict Bytes) → Dict Bytes → Dict Bytes
set_form_type none headers = headers
set_form_type (some form) headers =
    insert content_type (codes "application/x-www-form-urlencoded") headers

unfoldable pub request_headers : Config → RequestOptions → Dict Bytes
request_headers config options =
    set_form_type options.form_data (copy_into (copy_into [] config.headers) options.headers)

module _ (lib : HttpLib) (floats : FloatLib) where
  -- From the builder on. The parameters of the struct come before those of the options.
  unfoldable pub finish : RequestBuilder → RequestOptions → Option Request × Option Err
  finish b options =
      let (query, err) = struct_to_query_params floats options.query_struct in
      elim err [
        | some e ↦ (none, some (wrapped (codes "failed to parse query struct") e))
        | none ↦ build lib (with_params lib (with_params lib b (get_or query [])) options.params)
      ]

module _ (lib : HttpLib) (floats : FloatLib) (unicode : Unicode) (config : Config) where
  open lib use {urls}

  abbrev body_of : RequestOptions → Option Any
  body_of options = elim options.form_data [
    | none ↦ options.body
    | some form ↦ some (text (encode_form_data urls form))
  ]

  abbrev pub path_of : Option (Dict Bytes) → Bytes → Bytes
  path_of none url_str = url_str
  path_of (some params) url_str = replace_path_params urls url_str params

  unfoldable pub started : Bytes → Bytes → RequestOptions → RequestBuilder
  unfolding with_data with_transform request_headers
  started full_url method options =
      with_transform
        (with_data
          (with_headers unicode (new_request_builder full_url method)
            (request_headers config options))
          (body_of options))
        (some (transform_of config.request_transform options.request_transform))

  unfoldable pub new_request_with : Bytes → Bytes → RequestOptions → Option Request × Option Err
  unfolding finish started
  new_request_with url_str method options =
      let url = sanitize_url url_str in
      if is_empty url
      then (none, invalid "URL cannot be empty")
      else elim (validate_url urls (config.base_url ++ url)) [
        | some e ↦ (none, some (wrapped (codes "invalid URL") e))
        | none ↦
            finish lib floats
              (started (path_of options.path_params (config.base_url ++ url)) method options)
              options
      ]

  unfoldable pub new_request : Bytes → Bytes → Option RequestOptions → Option Request × Option Err
  unfolding new_request_with
  new_request url_str method options = new_request_with url_str method (get_or options no_options)
