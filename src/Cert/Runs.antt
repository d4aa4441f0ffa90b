-- ===== src/Cert/Runs.antt =====
-- internal/cert/cert.go at concrete inputs.
use mathlib.Core.Logic.{◌↔◌}
use token_go.Base.{
  ℕ, Bytes, text, [], ◌∷◌, Option, none, some, bytes_discrete, ok, ◌≡◌, refl, insert, lookup,
}
use token_go.Files.{Files}
use token_go.Cert.{TlsCertificate, generate_peer_id_cert, load_or_generate_cert, verify_peer_id}
use token_go.Cert.Verify.{Accepts, verify_peer_id_lem, verify_peer_id-generate}
use token_go.Cert.Store.{load_or_generate_cert-generate}
use token_go.Identity.Samples.{all_access}
use token_go.Cert.Samples.{plain_x509, plain_x509-Laws}

abbrev no_files : Files
no_files = []

abbrev tls_cert : TlsCertificate ℕ
tls_cert = record { certificate = (9 ∷ 7 ∷ []) ∷ []; private_key = 3 }

abbrev cert_files : Files
cert_files = (text "relay-cert.pem.", 9 ∷ 7 ∷ []) ∷ (text "relay-key.pem.", 3 ∷ []) ∷ []

made :
    generate_peer_id_cert plain_x509 all_access 3 1 0 (7 ∷ []) (text ".") no_files
    ≡ (cert_files, ok tls_cert)
unfolding generate_peer_id_cert insert lookup bytes_discrete
made = refl

verify_peer_id-generate_example :
    (id : Bytes) × (◌≡◌ {A = Option Bytes} (some (9 ∷ 7 ∷ [])) (some id))
    × ((expected : Bytes)
        → (verify_peer_id plain_x509 tls_cert.certificate expected ≡ none) ↔ (expected ≡ id))
verify_peer_id-generate_example =
    verify_peer_id-generate plain_x509 plain_x509-Laws all_access 3 1 0 (7 ∷ []) (text ".") no_files
      cert_files tls_cert made

verify_peer_id_lem_example :
    (verify_peer_id plain_x509 ((9 ∷ 7 ∷ []) ∷ []) (9 ∷ 7 ∷ []) ≡ none)
    ↔ Accepts plain_x509 ((9 ∷ 7 ∷ []) ∷ []) (9 ∷ 7 ∷ [])
verify_peer_id_lem_example = verify_peer_id_lem plain_x509 ((9 ∷ 7 ∷ []) ∷ []) (9 ∷ 7 ∷ [])

load_or_generate_cert-generate_example :
    load_or_generate_cert plain_x509 all_access 4 2 5 (text ".") (8 ∷ []) cert_files
    ≡ (cert_files, ok tls_cert)
load_or_generate_cert-generate_example =
    load_or_generate_cert-generate plain_x509 plain_x509-Laws all_access (text ".") 3 1 0 (7 ∷ [])
      no_files cert_files tls_cert 4 2 5 (8 ∷ []) refl refl refl made
