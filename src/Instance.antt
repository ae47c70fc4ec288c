-- ===== src/Instance.antt =====
-- vecto.go, logger.go: a Vecto and how New makes one.
pub mod Made
use vecto.Base.{ℕ, Bool, Option, none, some, List, [], Bytes, codes}
use vecto.Breaker.{CircuitBreakerConfig, CircuitBreaker}
use vecto.Breaker.Manager.{CircuitBreakerManager, new_circuit_breaker_manager}
use vecto.Config.{Config, default_config, merge_config, validate_config}
use vecto.Http.{Err, wrapped}
use vecto.Transport.{TlsLib, HttpClient, make_client}
use vecto.Urls.{UrlLib}
use vecto.Validation.{Unicode}

-- newNoopLogger is `none`: its methods do nothing, and its IsNoop is true. The middleware, which the
-- caller adds later, is an argument of `request`; the dispatcher and the handler hold nothing but the
-- logger and the Vecto itself.
pub record Vecto : Type 0 where
  pub config : Config
  pub http_client : HttpClient
  pub logger : Option ℕ
  pub circuit_breaker_mgr : Option CircuitBreakerManager

abbrev or_logger : Option ℕ → Option ℕ → Option ℕ
or_logger none fallback = fallback
or_logger (some l) fallback = some l

-- `heap` holds the breakers that other managers have made.
abbrev manager_for :
    List CircuitBreaker → Option ℕ → Option CircuitBreakerConfig → Option CircuitBreakerManager
manager_for heap logger none = none
manager_for heap logger (some config) = some (
    new_circuit_breaker_manager heap (record config { logger = or_logger config.logger logger })
      logger)

abbrev made_with :
    List CircuitBreaker → Config → Option HttpClient × Option Err → Option Vecto × Option Err
made_with heap config (client, some err) = (none, some err)
made_with heap config (none, none) = (none, none)
made_with heap config (some client, none) = (
  some (record {
    config = config;
    http_client = client;
    logger = config.logger;
    circuit_breaker_mgr = manager_for heap config.logger config.circuit_breaker;
  }),
  none,
)

unfoldable pub new :
    UrlLib → Unicode → TlsLib → List CircuitBreaker → Config → Option Vecto × Option Err
new urls unicode tls heap config = elim (validate_config urls unicode config) [
  | some err ↦ (none, some (wrapped (codes "invalid config") err))
  | none ↦
      let merged = merge_config config default_config in
      made_with heap merged (make_client tls merged)
]
