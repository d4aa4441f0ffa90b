-- ===== src/Cert/Samples.antt =====
-- An X.509 that writes the names in plain, for theorems at concrete inputs.
use token_go.Base.{
  ℕ, Bytes, List, [], ◌∷◌, ◌++◌, Option, none, some, true, ite, bytes_discrete, ◌≡◌, ap, arith,
}
use token_go.Cert.{X509, Laws, Certificate, TlsCertificate}

-- A certificate is its common name, which must be its one DNS name too.
abbrev pub plain_names : Bytes → List Bytes → Option Bytes
plain_names cn [] = none
plain_names cn (n ∷ []) = ite (bytes_discrete n cn) (some cn) none
plain_names cn (n ∷ n' ∷ ns) = none

abbrev pub plain_pair : Bytes → Bytes → Option (TlsCertificate ℕ)
plain_pair c [] = none
plain_pair c (k ∷ ks) = some (record { certificate = c ∷ []; private_key = k })

abbrev pub plain_x509 : X509 Bytes ℕ
plain_x509 = record {
  id_from_private_key = λ k. some (9 ∷ k);
  to_string = λ b. b;
  generate_key = some;
  create_certificate = λ t k. plain_names t.common_name t.dns_names;
  parse_certificate = λ b. some (record { common_name = b; dns_names = b ∷ [] });
  marshal_ec_private_key = λ k. some (k ∷ []);
  pem_encode = λ kind b. b;
  x509_key_pair = plain_pair;
  mkdir_all = λ dir. true;
  join = λ dir name. name ++ dir;
}

plain_names_lem :
    (cn : Bytes) (ns : List Bytes) (der : Bytes)
    → plain_names cn ns ≡ some der
    → ◌≡◌ {A = Certificate}
        (record { common_name = der; dns_names = der ∷ [] })
        (record { common_name = cn; dns_names = ns })
plain_names_lem cn [] der h = absurd cc
plain_names_lem cn (n ∷ []) der h = ground arith
plain_names_lem cn (n ∷ n' ∷ ns) der h = absurd cc

pub plain_x509-Laws : Laws plain_x509
plain_x509-Laws = record {
  to_string_inj = λ a b e. e;
  parse-create = λ t k der h. ap some (plain_names_lem t.common_name t.dns_names der h);
  key_pair-pem = λ t k der key h m. ground arith;
  join-apart = λ dir e. ground arith;
}
