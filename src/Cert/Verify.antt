-- ===== src/Cert/Verify.antt =====
-- Which certificates `VerifyPeerID` of internal/cert/cert.go accepts.
use token_go.Base.{
  ℕ, Bytes, List, [], ◌∷◌, Option, none, some, true, false, Result, ok, err, >>=-ok, ◌≡◌, refl, sym,
  ap, arith, Among, ◌⊎◌, inl, inr, Result-cases, Option-cases, subst, Bool, if◌then◌else◌,
}
use mathlib.Core.Logic.{◌↔◌}
use token_go.Net.{is_empty}
use token_go.Files.{Access, Files}
use token_go.Cert.{
  X509, Laws, Certificate, TlsCertificate, CertError, or_fail, template, new_cert,
  generate_peer_id_cert, names_match, verify_peer_id, extract_ecdsa_priv_key, save_cert_files,
}

abbrev pub Carries : Bytes → Certificate → Type 0
Carries id cert = (cert.common_name ≡ id) ⊎ Among id cert.dns_names

names_match_sound : (id : Bytes) (names : List Bytes) → names_match id names ≡ true → Among id names
unfolding names_match
names_match_sound id [] h = absurd cc
names_match_sound id (name ∷ names) h = ground (arith, names_match_sound id names)

names_match_complete :
    (id : Bytes) (names : List Bytes) → Among id names → names_match id names ≡ true
unfolding names_match
names_match_complete id [] h = absurd h
names_match_complete id (name ∷ names) h = ground (arith, names_match_complete id names)

pub or_fail-ok {ℓ} :
    {A : Type ℓ} (e : CertError) (o : Option A) (a : A) → or_fail e o ≡ ok a → o ≡ some a
or_fail-ok e none a h = cc
or_fail-ok e (some b) a h = cc

same_pair {ℓ} :
    {Key : Type 0} (P : Key → Bytes → Type ℓ) (a b : Bytes) (c d : Key)
    → P c a
    → ◌≡◌ {A = Result CertError (Bytes × Key)} (ok (a, c)) (ok (b, d))
    → P d b
same_pair {Key = Key} P a b c d p h =
    let e : ◌≡◌ {A = Bytes × Key} (a, c) (b, d) = cc in subst (λ z. P z.1 z.0) e p

module _ {PrivKey Key : Type 0} (x : X509 PrivKey Key) where
  abbrev pub Accepts : List Bytes → Bytes → Type 0
  Accepts raws expected =
      (raw : Bytes) × (rest : List Bytes) × (cert : Certificate) × (raws ≡ raw ∷ rest)
      × (x.parse_certificate raw ≡ some cert)
      × Carries (x.to_string expected) cert

  accept_parsed :
      (raw : Bytes) (raws : List Bytes) (expected : Bytes) (cert : Certificate)
      → x.parse_certificate raw ≡ some cert
      → (verify_peer_id x (raw ∷ raws) expected ≡ none) ↔ Carries (x.to_string expected) cert
  unfolding verify_peer_id
  accept_parsed raw raws expected cert e = ground (
    arith,
    names_match_sound (x.to_string expected) cert.dns_names,
    names_match_complete (x.to_string expected) cert.dns_names,
  )

  verify_sound :
      (raws : List Bytes) (expected : Bytes)
      → verify_peer_id x raws expected ≡ none
      → Accepts raws expected
  unfolding verify_peer_id
  verify_sound [] expected h = absurd cc
  verify_sound (raw ∷ raws) expected h = elim (Option-cases (x.parse_certificate raw)) [
    | inl e ↦ absurd (ground arith)
    | inr (cert, e) ↦ (raw, raws, cert, refl, e, (accept_parsed raw raws expected cert e).0 h)
  ]

  verify_complete :
      (raws : List Bytes) (expected : Bytes)
      → Accepts raws expected
      → verify_peer_id x raws expected ≡ none
  verify_complete raws expected (raw, rest, cert, same, e, h) =
      rw same ((accept_parsed raw rest expected cert e).1 h)

  -- The check passes exactly if there is a first certificate, it can be parsed, and it carries the
  -- expected peer id as its common name or as one of its DNS names. Neither its key nor who signed
  -- it is looked at, nor any other certificate.
  pub verify_peer_id_lem :
      (raws : List Bytes) (expected : Bytes)
      → (verify_peer_id x raws expected ≡ none) ↔ Accepts raws expected
  verify_peer_id_lem raws expected = (verify_sound raws expected, verify_complete raws expected)

  -- What a successful call has made.
  pub new_cert-ok :
      (draw serial now : ℕ) (priv_key : PrivKey) (der : Bytes) (k : Key)
      → new_cert x draw serial now priv_key ≡ ok (der, k)
      → (id : Bytes) × (x.id_from_private_key priv_key ≡ some id)
        × (x.create_certificate (template x serial now id) k ≡ some der)
  unfolding new_cert
  new_cert-ok draw serial now priv_key der k h =
      let (k', drawn, h') =
        >>=-ok (or_fail CertError.key_failed (extract_ecdsa_priv_key x draw priv_key)) _ h in
      let (id, known, h'') =
        >>=-ok (or_fail CertError.peer_id_failed (x.id_from_private_key priv_key)) _ h' in
      let (der', made, last) =
        >>=-ok
          (or_fail CertError.create_failed (x.create_certificate (template x serial now id) k')) _
          h'' in
      (
        id,
        or_fail-ok _ _ _ known,
        same_pair (λ k der. x.create_certificate (template x serial now id) k ≡ some der) der' der
            k' k (or_fail-ok _ _ _ made) last,
      )

  clash :
      (f g : Files) (e : CertError) (c : TlsCertificate Key)
      → ¬ (◌≡◌ {A = Files × Result CertError (TlsCertificate Key)} (f, err e) (g, ok c))
  clash f g e c h = cc

  -- The end of `GeneratePeerIDCert`.
  issued :
      (alone written : Bool) (files fs files' : Files) (t cert : TlsCertificate Key)
      → ◌≡◌ {A = Files × Result CertError (TlsCertificate Key)}
          (if alone
            then (files, ok t)
            else (fs, if written then ok t else err CertError.save_failed))
          (files', ok cert)
      → (cert ≡ t) × (alone ≡ false → (written ≡ true) × (fs ≡ files'))
  issued true written files fs files' t cert h = (cc, λ e. absurd cc)
  issued false true files fs files' t cert h = (cc, λ e. (refl, cc))
  issued false false files fs files' t cert h = absurd cc

  pub generated :
      (access : Access) (draw serial now : ℕ) (priv_key : PrivKey) (dir : Bytes)
      (files files' : Files) (cert : TlsCertificate Key)
      → generate_peer_id_cert x access draw serial now priv_key dir files ≡ (files', ok cert)
      → (der : Bytes) × (k : Key) × (new_cert x draw serial now priv_key ≡ ok (der, k))
        × (cert ≡ record { certificate = der ∷ []; private_key = k })
        × (is_empty dir ≡ false → save_cert_files x access dir der k files ≡ (files', true))
  unfolding generate_peer_id_cert
  generated access draw serial now priv_key dir files files' cert h =
      elim (Result-cases (new_cert x draw serial now priv_key)) [
        | inr (e, failed) ↦ absurd (clash _ _ _ _ (rw (failed, generate_peer_id_cert) at h))
        | inl ((der, k), made) ↦
            let (same, kept) =
              issued (is_empty dir) _ files _ files' _ cert
                (rw (made, generate_peer_id_cert) at h) in
            (der, k, made, same, λ e i. ((kept e).1 i, (kept e).0 i))
      ]

  module _ (laws : Laws x) where
    -- A certificate made for a peer id is accepted for that id, and for no other.
    template_accepted :
        (serial now : ℕ) (id : Bytes) (k : Key) (der : Bytes) (expected : Bytes)
        → x.create_certificate (template x serial now id) k ≡ some der
        → (verify_peer_id x (der ∷ []) expected ≡ none) ↔ (expected ≡ id)
    template_accepted serial now id k der expected made =
        let (sound, complete) = accept_parsed der [] expected _ (laws.parse-create _ k der made) in
        (λ h. carried (sound h), λ h. complete (inl (ap x.to_string (sym h))))
      where
        carried :
            Carries
              (x.to_string expected)
              (record { common_name = x.to_string id; dns_names = x.to_string id ∷ [] })
            → expected ≡ id
        carried (inl e) = laws.to_string_inj expected id (sym e)
        carried (inr (inl e)) = laws.to_string_inj expected id (sym e)
        carried (inr (inr e)) = absurd e

    -- The certificate that a node makes with its key is accepted for the peer id of that key, and for
    -- no other.
    pub verify_peer_id-generate :
        (access : Access) (draw serial now : ℕ) (priv_key : PrivKey) (dir : Bytes)
        (files files' : Files) (cert : TlsCertificate Key)
        → generate_peer_id_cert x access draw serial now priv_key dir files ≡ (files', ok cert)
        → (id : Bytes) × (x.id_from_private_key priv_key ≡ some id)
          × ((expected : Bytes)
              → (verify_peer_id x cert.certificate expected ≡ none) ↔ (expected ≡ id))
    verify_peer_id-generate access draw serial now priv_key dir files files' cert h =
        let (der, k, new, same, kept) =
          generated access draw serial now priv_key dir files files' cert h in
        let (id, known, made) = new_cert-ok draw serial now priv_key der k new in
        (
          id,
          known,
          λ expected.
              subst (λ c. (verify_peer_id x c.certificate expected ≡ none) ↔ (expected ≡ id))
                (sym same) (template_accepted serial now id k der expected made),
        )
