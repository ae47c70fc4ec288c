-- ===== src/Transport/Certificates.antt =====
-- factory.go: what a client trusts and presents.
use vecto.Base.{◌≡◌, ◌↔◌, refl, Bool, true, none, List, [], ◌∷◌, All, arith, sym}
use mathlib.Core.Path.{subst}
use vecto.Config.{Config, CertificateConfig}
use vecto.Transport.{TlsLib, load_certificates, transport_for, make_client}

abbrev pub IsLoadable : TlsLib → CertificateConfig → Type 0
IsLoadable lib c = (lib.append_certs c.cert ≡ true) × (lib.key_pair_error c.cert c.key ≡ none)

load_certificates_iff :
    (lib : TlsLib) (cs : List CertificateConfig)
    → (load_certificates lib cs ≡ none) ↔ All (IsLoadable lib) cs
unfolding load_certificates
load_certificates_iff lib [] = ((λ h. tt), λ h. refl)
load_certificates_iff lib (c ∷ cs) = ground (arith, load_certificates_iff lib cs)

err-make_client :
    (lib : TlsLib) (config : Config)
    → config.http_transport ≡ none
    → (make_client lib config).1
      ≡ (transport_for lib config.insecure_skip_verify config.certificates).1
unfolding make_client
err-make_client lib config h = ground arith

err-transport_for :
    (lib : TlsLib) (skip_verify : Bool) (c : CertificateConfig) (cs : List CertificateConfig)
    → (transport_for lib skip_verify (c ∷ cs)).1 ≡ load_certificates lib (c ∷ cs)
unfolding transport_for
err-transport_for lib skip_verify c cs = ground arith

transport_for_iff :
    (lib : TlsLib) (skip_verify : Bool) (cs : List CertificateConfig)
    → ((transport_for lib skip_verify cs).1 ≡ none) ↔ All (IsLoadable lib) cs
unfolding transport_for
transport_for_iff lib skip_verify [] = ((λ h. tt), λ h. refl)
transport_for_iff lib skip_verify (c ∷ cs) =
    subst (λ e. (e ≡ none) ↔ All (IsLoadable lib) (c ∷ cs))
      (sym (err-transport_for lib skip_verify c cs)) (load_certificates_iff lib (c ∷ cs))

-- If the caller brings no transport, a client is made exactly if each certificate is accepted for the
-- pool and goes with its key.
pub make_client-IsLoadable :
    (lib : TlsLib) (config : Config)
    → config.http_transport ≡ none
    → ((make_client lib config).1 ≡ none) ↔ All (IsLoadable lib) config.certificates
make_client-IsLoadable lib config h =
    rw (err-make_client lib config h)
      (transport_for_iff lib config.insecure_skip_verify config.certificates)
