-- ===== src/Instance/Made.antt =====
-- vecto.go: what holds of a Vecto that New has made.
use vecto.Base.{◌≡◌, refl, true, none, some, List, arith, is_some, Option-cases, inl, inr}
use vecto.Breaker.{CircuitBreaker}
use vecto.Config.{
  Config, default_config, merge_config, validate_config, validate_size, validate_base_url,
}
use vecto.Config.Merge.{validate-merge_config}
use vecto.Instance.{Vecto, new}
use vecto.Transport.{TlsLib}
use vecto.Urls.{UrlLib}
use vecto.Utf8.{runes, decode_rune}
use vecto.Validation.{Unicode, validate_headers, validate_header_value}
use vecto.Validation.Headers.{IsAsciiCompatible, content_type_valid}

validate-default_config :
    (urls : UrlLib) (unicode : Unicode)
    → IsAsciiCompatible unicode
    → validate_config urls unicode default_config ≡ none
unfolding validate_config validate_size validate_base_url default_config validate_headers
    validate_header_value runes decode_rune
validate-default_config urls unicode ascii = rw (content_type_valid unicode ascii)

pub merged-validate_status :
    (config : Config) → is_some (merge_config config default_config).validate_status ≡ true
unfolding merge_config default_config
merged-validate_status config = ground arith

pub merged_fields :
    (config : Config)
    → ((merge_config config default_config).circuit_breaker ≡ config.circuit_breaker)
      × ((merge_config config default_config).logger ≡ config.logger)
unfolding merge_config default_config
merged_fields config = (refl, ground arith)

pub new-config :
    (urls : UrlLib) (unicode : Unicode) (tls : TlsLib) (heap : List CircuitBreaker)
    (config : Config) (v : Vecto)
    → (new urls unicode tls heap config).0 ≡ some v
    → (validate_config urls unicode config ≡ none)
      × (v.config ≡ merge_config config default_config)
      × (v.logger ≡ v.config.logger)
      × (is_some v.circuit_breaker_mgr ≡ is_some v.config.circuit_breaker)
unfolding new
new-config urls unicode tls heap config v h =
    elim (Option-cases (validate_config urls unicode config)) [
      | inl valid ↦ (valid, ground arith, ground arith, ground arith)
      | inr (e, bad) ↦ absurd (ground arith)
    ]

-- A Vecto that New has made has a configuration that passes validation and checks the status of
-- responses, has circuit breakers exactly if the caller configured them, and has the caller's logger.
pub new-validate_config :
    (urls : UrlLib) (unicode : Unicode) (tls : TlsLib) (heap : List CircuitBreaker)
    (config : Config) (v : Vecto)
    → IsAsciiCompatible unicode
    → (new urls unicode tls heap config).0 ≡ some v
    → (validate_config urls unicode v.config ≡ none)
      × (is_some v.config.validate_status ≡ true)
      × (is_some v.circuit_breaker_mgr ≡ is_some config.circuit_breaker)
      × (v.logger ≡ config.logger)
new-validate_config urls unicode tls heap config v ascii h =
    let (valid, same, logs, breaks) = new-config urls unicode tls heap config v h in
    let (cb, logger) = merged_fields config in
    (
      rw same (
          validate-merge_config urls unicode config default_config valid
            (validate-default_config urls unicode ascii)),
      rw same (merged-validate_status config),
      rw (breaks, same, cb),
      rw (logs, same, logger),
    )
