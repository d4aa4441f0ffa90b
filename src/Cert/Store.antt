-- ===== src/Cert/Store.antt =====
-- The certificate files of internal/cert/cert.go.
use token_go.Base.{
  ℕ, Bytes, text, [], ◌∷◌, some, true, false, Bool, ok, ◌≡◌, ◌≢◌, refl, sym, ap, ◌∙◌, Bool-cases,
  Option-cases, inl, inr,
}
use token_go.Net.{is_empty}
use token_go.Files.{
  Access, Files, read_file, write_file, exists, read_file-write_file, read_file-other,
}
use token_go.Cert.{
  X509, Laws, TlsCertificate, generate_peer_id_cert, load_or_generate_cert, load_cert,
  save_cert_files, cert_file_name, key_file_name, template,
}
use token_go.Cert.Verify.{generated, new_cert-ok}

module _ {PrivKey Key : Type 0} (x : X509 PrivKey Key) where
  saved_files :
      (access : Access) (dir der : Bytes) (k : Key) (files files' : Files)
      → save_cert_files x access dir der k files ≡ (files', true)
      → (files₁ : Files) × (key : Bytes) × (x.marshal_ec_private_key k ≡ some key)
        × (write_file access
              (x.join dir cert_file_name)
              (x.pem_encode (text "CERTIFICATE") der)
              files
            ≡ some files₁)
        × (write_file access
              (x.join dir key_file_name)
              (x.pem_encode (text "EC PRIVATE KEY") key)
              files₁
            ≡ some files')
  unfolding save_cert_files
  saved_files access dir der k files files' h = elim (Bool-cases (x.mkdir_all dir)) [
    | inr e ↦ absurd (no_pair _ _ (rw (e, save_cert_files) at h))
    | inl e ↦
        elim (Option-cases (
          write_file access (x.join dir cert_file_name) (x.pem_encode (text "CERTIFICATE") der)
            files)) [
              | inl w ↦ absurd (no_pair _ _ (rw (e, w, save_cert_files) at h))
              | inr (files₁, w) ↦ elim (Option-cases (x.marshal_ec_private_key k)) [
                | inl m ↦ absurd (no_pair _ _ (rw (e, w, m, save_cert_files) at h))
                | inr (key, m) ↦
                    elim (Option-cases (
                      write_file access (x.join dir key_file_name)
                        (x.pem_encode (text "EC PRIVATE KEY") key) files₁)) [
                          | inl w' ↦ absurd (no_pair _ _ (rw (e, w, m, w', save_cert_files) at h))
                          | inr (files₂, w') ↦ (
                            files₁,
                            key,
                            m,
                            w,
                            w' ∙ ap some (ap (λ z. z.0) (rw (e, w, m, w', save_cert_files) at h)),
                          )
                        ]
              ]
            ]
  ]
    where
      no_pair : (f g : Files) → ¬ (◌≡◌ {A = Files × Bool} (f, false) (g, true))
      no_pair f g e = cc

  -- Making a certificate in a directory changes no file but the two of the certificate.
  pub generate-other :
      (access : Access) (draw serial now : ℕ) (priv_key : PrivKey) (dir path : Bytes)
      (files files' : Files) (cert : TlsCertificate Key)
      → is_empty dir ≡ false
      → x.join dir cert_file_name ≢ path
      → x.join dir key_file_name ≢ path
      → generate_peer_id_cert x access draw serial now priv_key dir files ≡ (files', ok cert)
      → (read_file access path files' ≡ read_file access path files)
        × (exists path files' ≡ exists path files)
  generate-other access draw serial now priv_key dir path files files' cert named nc nk h =
      let (der, k, new, same, kept) =
        generated x access draw serial now priv_key dir files files' cert h in
      let (files₁, key, m, w₁, w₂) = saved_files access dir der k files files' (kept named) in
      let (read₁, there₁) = read_file-other access _ path _ files files₁ nc w₁ in
      let (read₂, there₂) = read_file-other access _ path _ files₁ files' nk w₂ in
      (read₂ ∙ read₁, there₂ ∙ there₁)

  module _ (laws : Laws x) (access : Access) (dir : Bytes) where
    load_cert-save :
        (serial now : ℕ) (id : Bytes) (der : Bytes) (k : Key) (files files' : Files)
        → access.can_read (x.join dir cert_file_name) ≡ true
        → access.can_read (x.join dir key_file_name) ≡ true
        → x.create_certificate (template x serial now id) k ≡ some der
        → save_cert_files x access dir der k files ≡ (files', true)
        → load_cert x access dir files' ≡ some (record { certificate = der ∷ []; private_key = k })
    unfolding load_cert
    load_cert-save serial now id der k files files' rc rk made s =
        let (files₁, key, m, w₁, w₂) = saved_files access dir der k files files' s in
        let (cert₁, there₁) = read_file-write_file access _ _ files files₁ rc w₁ in
        let (key₂, there₂) = read_file-write_file access _ _ files₁ files' rk w₂ in
        let (same, still) =
          read_file-other access _ (x.join dir cert_file_name) _ files₁ files'
            (λ e. laws.join-apart dir (sym e)) w₂ in
        rw (still ∙ there₁, there₂, same ∙ cert₁, key₂)
          (laws.key_pair-pem (template x serial now id) k der key made m)

    -- If the directory is named, its two files can be read, and `GeneratePeerIDCert` gives a
    -- certificate there, then every later `LoadOrGenerateCert` gives the same certificate and changes
    -- no file, whatever key it is called with.
    pub load_or_generate_cert-generate :
        (draw serial now : ℕ) (priv_key : PrivKey) (files files' : Files)
        (cert : TlsCertificate Key) (draw' serial' now' : ℕ) (priv_key' : PrivKey)
        → is_empty dir ≡ false
        → access.can_read (x.join dir cert_file_name) ≡ true
        → access.can_read (x.join dir key_file_name) ≡ true
        → generate_peer_id_cert x access draw serial now priv_key dir files ≡ (files', ok cert)
        → load_or_generate_cert x access draw' serial' now' dir priv_key' files' ≡ (files', ok cert)
    unfolding load_or_generate_cert
    load_or_generate_cert-generate draw serial now priv_key files files' cert draw' serial' now'
          priv_key' named rc rk h =
        let (der, k, new, same, kept) =
          generated x access draw serial now priv_key dir files files' cert h in
        let (id, known, made) = new_cert-ok x draw serial now priv_key der k new in
        rw
          (
            load_cert-save serial now id der k files files' rc rk made (kept named),
            same,
            load_or_generate_cert,
          )
          refl
