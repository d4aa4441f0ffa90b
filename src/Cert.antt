-- ===== src/Cert.antt =====
-- internal/cert/cert.go: self-signed certificates that carry a peer id, and the check of them.
-- X.509, PEM, ECDSA, the paths of package filepath and the ids of libp2p are parameters; randomness
-- is the number of the draw, and a time is an argument, in nanoseconds.
pub mod Verify
pub mod Store
pub mod Samples
mod Runs
use token_go.Base.{
  ℕ, ◌+◌, ◌*◌, ◌^◌, Bytes, text, List, [], ◌∷◌, Option, none, some, Bool, true, false, Result, ok,
  err, ◌>>=◌, bytes_discrete, ite, if◌then◌else◌, ◌≡◌, ◌≢◌, ◌&&◌,
}
use token_go.Net.{is_empty}
use token_go.Files.{Access, Files, read_file, write_file, exists}

abbrev pub cert_file_name : Bytes
cert_file_name = text "relay-cert.pem"

abbrev pub key_file_name : Bytes
key_file_name = text "relay-key.pem"

-- `x509.Certificate` as a template, with the fields that are set.
pub record Template : Type 0 where
  pub serial_number : ℕ
  pub common_name : Bytes
  pub organization : List Bytes
  pub not_before : ℕ
  pub not_after : ℕ
  pub key_encipherment : Bool
  pub digital_signature : Bool
  pub server_auth : Bool
  pub basic_constraints_valid : Bool
  pub dns_names : List Bytes

-- A parsed certificate, with the fields that are read.
pub record Certificate : Type 0 where
  pub common_name : Bytes
  pub dns_names : List Bytes

-- `tls.Certificate`
pub record TlsCertificate (Key : Type 0) : Type 0 where
  pub certificate : List Bytes
  pub private_key : Key

-- What the file calls. `none` is an error.
pub record X509 (PrivKey Key : Type 0) : Type 0 where
  pub id_from_private_key : PrivKey → Option Bytes
  -- `peer.ID.String`
  pub to_string : Bytes → Bytes
  -- `ecdsa.GenerateKey(elliptic.P256(), rand.Reader)`
  pub generate_key : ℕ → Option Key
  -- Signed by the key itself.
  pub create_certificate : Template → Key → Option Bytes
  pub parse_certificate : Bytes → Option Certificate
  pub marshal_ec_private_key : Key → Option Bytes
  pub pem_encode : Bytes → Bytes → Bytes
  -- `tls.LoadX509KeyPair` on the contents of its two files.
  pub x509_key_pair : Bytes → Bytes → Option (TlsCertificate Key)
  pub mkdir_all : Bytes → Bool
  pub join : Bytes → Bytes → Bytes

-- Its documented behaviour.
pub record Laws {PrivKey Key : Type 0} (x : X509 PrivKey Key) : Type 0 where
  pub to_string_inj : (a b : Bytes) → x.to_string a ≡ x.to_string b → a ≡ b
  pub parse-create :
      (t : Template) (k : Key) (der : Bytes)
      → x.create_certificate t k ≡ some der
      → x.parse_certificate der
        ≡ some (record { common_name = t.common_name; dns_names = t.dns_names })
  pub key_pair-pem :
      (t : Template) (k : Key) (der key : Bytes)
      → x.create_certificate t k ≡ some der
      → x.marshal_ec_private_key k ≡ some key
      → x.x509_key_pair
          (x.pem_encode (text "CERTIFICATE") der)
          (x.pem_encode (text "EC PRIVATE KEY") key)
        ≡ some (record { certificate = der ∷ []; private_key = k })
  pub join-apart : (dir : Bytes) → x.join dir cert_file_name ≢ x.join dir key_file_name

pub data CertError : Type 0 where
  no_certificate parse_failed peer_id_mismatch : CertError
  key_failed peer_id_failed create_failed save_failed : CertError

abbrev pub or_fail {ℓ} : {A : Type ℓ} → CertError → Option A → Result CertError A
or_fail e none = err e
or_fail e (some a) = ok a

-- The loop over the DNS names.
unfoldable pub names_match : Bytes → List Bytes → Bool
unfolding bytes_discrete
names_match id [] = false
names_match id (name ∷ names) =
    let rest = names_match id names in ite (bytes_discrete name id) true rest

module _ {PrivKey Key : Type 0} (x : X509 PrivKey Key) where
  abbrev pub template : ℕ → ℕ → Bytes → Template
  template serial_number now peer_id = record {
    serial_number = serial_number;
    common_name = x.to_string peer_id;
    organization = text "TokenGo" ∷ [];
    not_before = now;
    not_after = now + 365 * 24 * 3600 * 10 ^ 9;
    key_encipherment = true;
    digital_signature = true;
    server_auth = true;
    basic_constraints_valid = true;
    dns_names = x.to_string peer_id ∷ [];
  }

  -- The TLS key is a new one, whatever the node's key is.
  unfoldable pub extract_ecdsa_priv_key : ℕ → PrivKey → Option Key
  extract_ecdsa_priv_key draw priv_key = x.generate_key draw

  -- The files are changed up to the call that fails; `false` is an error.
  unfoldable pub save_cert_files : Access → Bytes → Bytes → Key → Files → Files × Bool
  unfolding write_file
  save_cert_files access dir der k files =
      if x.mkdir_all dir
      then (elim (write_file access (x.join dir cert_file_name)
          (x.pem_encode (text "CERTIFICATE") der) files) [
            | none ↦ (files, false)
            | some files' ↦ (elim (x.marshal_ec_private_key k) [
              | none ↦ (files', false)
              | some key ↦
                  (elim (write_file access (x.join dir key_file_name)
                    (x.pem_encode (text "EC PRIVATE KEY") key) files') [
                      | none ↦ (files', false)
                      | some files'' ↦ (files'', true)
                    ])
            ])
          ])
      else (files, false)

  -- The certificate and its key, before they are saved.
  unfoldable pub new_cert : ℕ → ℕ → ℕ → PrivKey → Result CertError (Bytes × Key)
  unfolding extract_ecdsa_priv_key
  new_cert draw serial now priv_key =
      or_fail CertError.key_failed (extract_ecdsa_priv_key draw priv_key) >>= λ k.
      or_fail CertError.peer_id_failed (x.id_from_private_key priv_key) >>= λ id.
      or_fail CertError.create_failed (x.create_certificate (template serial now id) k) >>= λ der.
      ok (der, k)

  abbrev tls_certificate : Bytes → Key → TlsCertificate Key
  tls_certificate der k = record { certificate = der ∷ []; private_key = k }

  unfoldable pub generate_peer_id_cert :
      Access → ℕ → ℕ → ℕ → PrivKey → Bytes → Files → Files × Result CertError (TlsCertificate Key)
  unfolding new_cert save_cert_files
  generate_peer_id_cert access draw serial now priv_key dir files =
      elim (new_cert draw serial now priv_key) [
        | err e ↦ (files, err e)
        | ok (der, k) ↦
            if is_empty dir
            then (files, ok (tls_certificate der k))
            else (let (files', written) = save_cert_files access dir der k files in
                (files', if written then ok (tls_certificate der k) else err CertError.save_failed))
      ]

  -- A pair of files that exists and can be loaded.
  unfoldable pub load_cert : Access → Bytes → Files → Option (TlsCertificate Key)
  unfolding read_file exists
  load_cert access dir files =
      if exists (x.join dir cert_file_name) files && exists (x.join dir key_file_name) files
      then (elim (read_file access (x.join dir cert_file_name) files) [
        | none ↦ none
        | some cert ↦ (elim (read_file access (x.join dir key_file_name) files) [
          | none ↦ none
          | some key ↦ x.x509_key_pair cert key
        ])
      ])
      else none

  unfoldable pub load_or_generate_cert :
      Access → ℕ → ℕ → ℕ → Bytes → PrivKey → Files → Files × Result CertError (TlsCertificate Key)
  unfolding load_cert generate_peer_id_cert
  load_or_generate_cert access draw serial now dir priv_key files =
      elim (load_cert access dir files) [
        | some cert ↦ (files, ok cert)
        | none ↦ generate_peer_id_cert access draw serial now priv_key dir files
      ]

  -- `none` means that the check passed.
  unfoldable pub verify_peer_id : List Bytes → Bytes → Option CertError
  unfolding names_match
  verify_peer_id [] expected = some CertError.no_certificate
  verify_peer_id (raw ∷ raws) expected = elim (x.parse_certificate raw) [
    | none ↦ some CertError.parse_failed
    | some cert ↦ ite (bytes_discrete cert.common_name (x.to_string expected)) none (
        if names_match (x.to_string expected) cert.dns_names
        then none
        else some CertError.peer_id_mismatch)
  ]

  -- `tls.Config`
  pub record TlsConfig : Type 0 where
    pub certificates : List (TlsCertificate Key)
    pub insecure_skip_verify : Bool
    pub next_protos : List Bytes
    -- 0x0304 is TLS 1.3.
    pub min_version : ℕ
    pub verify_peer_certificate : Option (List Bytes → Option CertError)

  unfoldable pub create_peer_id_verify_tls_config : Bytes → TlsConfig
  unfolding verify_peer_id
  create_peer_id_verify_tls_config expected = record {
    certificates = [];
    insecure_skip_verify = true;
    next_protos = text "tokengo-relay" ∷ [];
    min_version = 772;
    verify_peer_certificate = some (λ raws. verify_peer_id raws expected);
  }

  unfoldable pub create_exit_tls_config : Bytes → TlsConfig
  unfolding verify_peer_id
  create_exit_tls_config expected = record {
    certificates = [];
    insecure_skip_verify = true;
    next_protos = text "tokengo-exit" ∷ [];
    min_version = 772;
    verify_peer_certificate = some (λ raws. verify_peer_id raws expected);
  }

  unfoldable pub create_server_tls_config : TlsCertificate Key → TlsConfig
  create_server_tls_config cert = record {
    certificates = cert ∷ [];
    insecure_skip_verify = false;
    next_protos = text "tokengo-relay" ∷ text "tokengo-exit" ∷ [];
    min_version = 772;
    verify_peer_certificate = none;
  }
