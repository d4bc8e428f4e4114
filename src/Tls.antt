-- ===== src/Tls.antt =====
-- tls.rs: the files of a mutual TLS set-up. The file system, the PEM parser and rustls are
-- arguments.
use nomad_rs.Base.{ℕ, Bool, true, false, not, String, Option, none, some, List, [], ◌∷◌, is_empty}
use nomad_rs.Error.{
  Error, runtime, validation, Result, ok, err, ◌>>◌, ◌>>=◌, refuse, tls_path_empty,
  tls_file_missing, no_certificates, no_private_key, no_ca_certificates, certificates_unparsed,
  private_key_unparsed, ca_certificates_unparsed, client_verifier_failed, server_certificate_unset,
  client_auth_unset,
}

pub record TlsConfig : Type 0 where
  pub cert_path : String
  pub key_path : String
  pub ca_path : String

unfoldable pub new : String → String → String → TlsConfig
new cert_path key_path ca_path = record {
  cert_path = cert_path;
  key_path = key_path;
  ca_path = ca_path;
}

-- `Path::try_exists` and `fs::read`, with `Error::Io`, and `str::trim`.
pub record Files : Type 0 where
  pub trim : String → String
  pub try_exists : String → Result Bool
  pub read : String → Result (List ℕ)

-- rustls_pemfile, and the builders of rustls; `none` is an error.
pub record Rustls : Type 1 where
  pub Cert : Type 0
  pub Key : Type 0
  pub Roots : Type 0
  pub Verifier : Type 0
  pub ServerConfig : Type 0
  pub ClientConfig : Type 0
  pub certs : List ℕ → Option (List Cert)
  pub private_key : List ℕ → Option (Option Key)
  pub roots : List Cert → Roots
  pub verifier : Roots → Option Verifier
  pub server : Verifier → List Cert → Key → Option ServerConfig
  pub with_alpn : List String → ServerConfig → ServerConfig
  pub client : Roots → List Cert → Key → Option ClientConfig

-- `map_err(..)?`.
abbrev pub or_err {ℓ} : {A : Type ℓ} → Option A → Error → Result A
or_err none x = err x
or_err (some a) x = ok a

abbrev pub is_nil {ℓ} : {A : Type ℓ} → List A → Bool
is_nil [] = true
is_nil (x ∷ xs) = false

module _ (files : Files) where
  unfoldable pub validate_path : String → String → Result (Unit {0})
  validate_path path label = do
    refuse (is_empty (files.trim path)) (validation (tls_path_empty label))
    exists ← files.try_exists path
    refuse (not exists) (validation (tls_file_missing label path))

  unfoldable pub validate_tls : TlsConfig → Result (Unit {0})
  unfolding validate_path
  validate_tls c = do
    validate_path c.cert_path "cert_path"
    validate_path c.key_path "key_path"
    validate_path c.ca_path "ca_path"

  module _ (tls : Rustls) where
    unfoldable pub load_certs : String → Result (List tls.Cert)
    load_certs path = do
      bytes ← files.read path
      certs ← or_err (tls.certs bytes) (runtime certificates_unparsed)
      refuse (is_nil certs) (validation (no_certificates path))
      ok certs

    unfoldable pub load_private_key : String → Result tls.Key
    load_private_key path = do
      bytes ← files.read path
      found ← or_err (tls.private_key bytes) (runtime private_key_unparsed)
      or_err found (validation (no_private_key path))

    unfoldable pub load_ca : String → Result tls.Roots
    load_ca path = do
      bytes ← files.read path
      certs ← or_err (tls.certs bytes) (runtime ca_certificates_unparsed)
      refuse (is_nil certs) (validation (no_ca_certificates path))
      ok (tls.roots certs)

    unfoldable pub server_config : TlsConfig → Result tls.ServerConfig
    unfolding validate_tls load_certs load_private_key load_ca
    server_config c = do
      validate_tls c
      certs ← load_certs c.cert_path
      key ← load_private_key c.key_path
      roots ← load_ca c.ca_path
      verifier ← or_err (tls.verifier roots) (runtime client_verifier_failed)
      built ← or_err (tls.server verifier certs key) (runtime server_certificate_unset)
      ok (tls.with_alpn ("h2" ∷ "http/1.1" ∷ []) built)

    unfoldable pub client_config : TlsConfig → Result tls.ClientConfig
    unfolding validate_tls load_certs load_private_key load_ca
    client_config c = do
      validate_tls c
      certs ← load_certs c.cert_path
      key ← load_private_key c.key_path
      roots ← load_ca c.ca_path
      or_err (tls.client roots certs key) (runtime client_auth_unset)
