-- ===== src/Lib.antt =====
-- vecto, an HTTP client library in Go: circuit breakers, retries, authentication, validation of
-- requests and configurations, tracing, and the client that sends one request.
--
-- The parts and how they interact. New (vecto.go) validates a configuration (config.go,
-- definitions.go), merges it with the defaults and makes the HTTP client (factory.go). Each call of
-- Vecto.Request makes a request from the configuration and the options of the call (newRequest, with
-- enhanced_request.go for path parameters, forms and query structs). The caller and the middleware
-- change it by methods (request.go, request_builder.go, auth.go) that validate the headers that they
-- set (validation.go). The request handler (request_handler.go) finds
-- the key of the request's circuit breaker, and the manager gives it the breaker
-- (circuit_breaker.go). An admitted request goes to the client (client.go), once or in the loop of
-- retry.go, and the client makes a response (response.go, response_helpers.go) with its timings
-- (trace.go). The result is reported to the breaker, goes through the response middleware, is offered
-- to the channels of the request (channels.go) and recorded as metrics (metrics.go).
--
-- Base                   what all files share: Go's strings as lists of bytes (codes gives those of a
--                        literal), integers as ℤ over the native numbers, maps as association
--                        lists (Dict), decimal numerals.
-- Http                   Request, Response, RawRequest, RawResponse, TraceInfo, error values and the
--                        pair Result that a Go function returns as (res, err).
-- BreakerState, BreakerConfig, Breaker
--                        circuit_breaker.go. One function for each method, from the receiver and
--                        the instant that time.Now returns to the new receiver: allow_request,
--                        record_result, execute, get_stats, the transitions. Breaker.Manager is
--                        CircuitBreakerManager over a heap of breakers.
-- Retry                  retry.go: backoffs, conditions, parse_retry_after_header,
--                        get_retry_wait_time, validate_retry_config. Retry.Execute is
--                        executeWithRetry.
-- Auth, Base64           auth.go, with encoding/base64 as far as it is used.
-- Request, Urls          request.go, auth.go, enhanced_request.go (SetPathParam, SetPathParams),
--                        url.go; Request.Builder is request_builder.go.
-- Validation, Utf8       validation.go, with the decoding that a Go range over a string makes.
-- Config                 config.go, the Config of definitions.go, the defaults of vecto.go.
-- Handler                request_handler.go and the helpers of vecto.go that it calls, with the
--                        sync.RWMutex of the request as state; Handler.Getters has the getters of
--                        request.go under that lock.
-- Response, HttpHeader, Substring, Errors
--                        response.go, response_helpers.go, errors.go, with http.Header.
-- Trace, Client          trace.go and client.go.
-- Middleware             middleware.go, and interceptRequest and interceptResponse of vecto.go.
-- Channels               channels.go.
-- Pipeline               Vecto.Request of vecto.go, from the circuit breaker to the checked status.
-- PathParams, QueryStruct
--                        enhanced_request.go: placeholders of a URL, forms, and structs as query
--                        parameters, with a struct as a list of its fields.
-- NewRequest             newRequest of vecto.go and RequestOptions of definitions.go.
-- Transport, Instance    factory.go; Vecto and New of vecto.go.
-- Metrics, Logger, Debug metrics.go; logger.go; the debug output of vecto.go and TraceInfo.String of trace.go.
-- Call, Service          Vecto.Request of vecto.go and the methods of HTTP that call it, over a store
--                        of requests and responses (Objects), since middleware shares them with the
--                        caller, and what the call meets (CallEnv). It calls the parts above.
-- Network                the client of a Vecto (factory.go, client.go) as what its calls meet.
-- Transformers, Pool     request_transformers.go; pool.go, which nothing in the library uses.
-- Tests                  the theorems applied to concrete values.
--
-- State and failure. A Go error is a value of Err; an operation that can fail returns an Option or a
-- pair with one. A method that holds a lock throughout is one step, and interleavings are lists of
-- steps; the lock of a request is explicit where it is taken twice. A nil pointer is none, also as
-- the result of a model whose code would panic or block for ever.
--
-- Bounds and fuel. Durations of products wrap around at 64 bits (Retry.int64); counters are
-- unbounded integers, since they change by one in a call. retry_loop runs on fuel, one unit for each
-- attempt: with MaxAttempts positive, that many units are enough, and else as many as attempts are
-- made until one that nothing follows. Service takes its fuel as a parameter and comes to
-- none with too little of it; the theorems on it speak of calls that return, or hold whatever the
-- fuel is, or ask for fuel for MaxAttempts attempts.
--
-- Parameters. net/url and http.NewRequest (UrlLib, HttpLib), Unicode classes and the quoting of fmt
-- (Unicode, with the ASCII part as the hypothesis IsAsciiCompatible), time.ParseDuration and the
-- dates of http (TimeLib), the JSON and XML decoders (Unmarshal), the network (RetryEnv,
-- HttpAnswer), the conversion of floats too large for an int64 (float_to_duration), the error that
-- base64 reports, the texts and zeros of floats (FloatLib), the loading of certificates (TlsLib),
-- json.Marshal, the choices of sync.Pool, the printing of durations and of values of any type
-- (Printing), and the store of requests and responses (Objects).
--
-- Not modelled: the fields of log lines, with formatErrorForLog of retry.go that makes one of them;
-- examples/, programs that call the library; and what a caller's logger, collector or callback does
-- with what it is told. The request of a response is the request as the client answered for it, so
-- channels that are registered between that and the dispatch of the response are not seen.
pub mod Base
pub mod BreakerConfig
pub mod BreakerState
pub mod Http
pub mod Breaker
pub mod Substring
pub mod HttpHeader
pub mod Response
pub mod Errors
pub mod Retry
pub mod Base64
pub mod Utf8
pub mod Urls
pub mod Validation
pub mod Request
pub mod Auth
pub mod Config
pub mod Handler
pub mod Trace
pub mod Client
pub mod Middleware
pub mod Channels
pub mod Pipeline
pub mod PathParams
pub mod QueryStruct
pub mod NewRequest
pub mod Transport
pub mod Logger
pub mod Metrics
pub mod Debug
pub mod Instance
pub mod Call
pub mod Network
pub mod Pool
pub mod Transformers
pub mod Service
mod Tests
