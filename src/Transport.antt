-- ===== src/Transport.antt =====
-- factory.go: the http.Client that Vecto sends its requests with.
pub mod Certificates
use vecto.Base.{
  ℕ, ℤ, pos, Bool, not, Option, none, some, List, [], ◌∷◌, Bytes, codes, if◌then◌else◌,
}
use vecto.Breaker.{Duration}
use vecto.Config.{Config, CertificateConfig}
use vecto.Http.{Err, message, wrapped}

-- crypto/tls and crypto/x509: whether AppendCertsFromPEM takes a certificate, and the error of
-- X509KeyPair for one and its key.
pub record TlsLib : Type 0 where
  pub append_certs : Bytes → Bool
  pub key_pair_error : Bytes → Bytes → Option Err

pub record TlsConfig : Type 0 where
  pub root_cas : List Bytes
  pub certificates : List CertificateConfig
  pub insecure_skip_verify : Bool

-- A *http.Transport of the caller, by its identity, or one that is made here.
pub data Transport : Type 0 where
  given : ℕ → Transport
  made : Option TlsConfig → Duration → Transport

pub record HttpClient : Type 0 where
  pub transport : Transport
  pub timeout : Duration

abbrev pub default_idle_conn_timeout : Duration
default_idle_conn_timeout = pos 50_000_000_000

module _ (lib : TlsLib) where
  -- The error of the first certificate that is not accepted.
  unfoldable pub load_certificates : List CertificateConfig → Option Err
  load_certificates [] = none
  load_certificates (c ∷ cs) =
      if not (lib.append_certs c.cert)
      then some (message (codes "failed to append certificate to pool"))
      else elim (lib.key_pair_error c.cert c.key) [
        | some err ↦ some (wrapped (codes "failed to load X509 key pair") err)
        | none ↦ load_certificates cs
      ]

  pool_of : List CertificateConfig → List Bytes
  pool_of [] = []
  pool_of (c ∷ cs) = c.cert ∷ pool_of cs

  -- Without certificates the transport has no TLS configuration.
  unfoldable pub transport_for : Bool → List CertificateConfig → Option Transport × Option Err
  unfolding pool_of
  transport_for skip_verify [] = (some (made none default_idle_conn_timeout), none)
  transport_for skip_verify (c ∷ cs) =
      let tls : TlsConfig = record {
        root_cas = pool_of (c ∷ cs);
        certificates = c ∷ cs;
        insecure_skip_verify = skip_verify;
      } in
      elim (load_certificates (c ∷ cs)) [
        | some err ↦ (none, some err)
        | none ↦ (some (made (some tls) default_idle_conn_timeout), none)
      ]

  abbrev get_transport_config : Config → Option Transport × Option Err
  get_transport_config config = transport_for config.insecure_skip_verify config.certificates

  abbrev client_with : Duration → Option Transport → Option HttpClient
  client_with timeout none = none
  client_with timeout (some transport) = some (record { transport = transport; timeout = timeout })

  unfoldable pub make_client : Config → Option HttpClient × Option Err
  unfolding transport_for
  make_client config = elim config.http_transport [
    | some transport ↦ (client_with config.timeout (some (given transport)), none)
    | none ↦
        let (transport, err) = get_transport_config config in
        (client_with config.timeout transport, err)
  ]
