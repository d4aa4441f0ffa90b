-- ===== src/Exit/Node/Keys.antt =====
-- The keys of an Exit, from `ensureOHTTPKey` of cmd/tokengo/main.go over the files of
-- internal/crypto/keys.go to `newExitNode` of internal/exit/exit.go.
use token_go.Base.{
  ℕ, ◌+◌, ◌<◌, ◌^◌, Bytes, text, [], ◌++◌, length, length-append, Option, some, Bool, true, false,
  Result, ok, err, map_err, Option-cases, Bool-cases, Result-cases, inl, inr, ◌≡◌, ◌≢◌, refl, sym,
  ap, subst, ◌∙◌, arith, append-nil,
}
use token_go.Net.{is_empty}
use token_go.Files.{
  Access, Files, Base64, Base64Laws, read_file, write_file, exists, read_file-write_file,
  read_file-other,
}
use token_go.Config.{ExitConfig}
use token_go.Crypto.Interface.{Hpke, Gcm, Http}
use token_go.Crypto.Keys.{encode_key_config, decode_key_config}
use token_go.Crypto.Keys.RoundTrip.{decode_key_config-encode_key_config}
use token_go.Crypto.Keys.Stored.{
  KeyPair, Scheme, KeyError, generate_key_pair, save_key_pair, load_public_key_config,
}
use token_go.Exit.Handler.{HttpLib}
use token_go.Exit.Node.{
  new_exit_node, exit_node, ensure_ohttp_key, read_saved, read_public, EnsureError,
}

module _ (h : Hpke) (b64 : Base64) (b64_laws : Base64Laws b64) (access : Access) where
  -- A key's text form is read back.
  pub load_public_key_config-encode :
      (key_id : ℕ) (public_key : Bytes)
      → length public_key + 5 < 2 ^ 16
      → load_public_key_config b64 (b64.encode_to_string (encode_key_config h key_id public_key))
        ≡ ok (key_id, public_key)
  unfolding load_public_key_config
  load_public_key_config-encode key_id public_key fits =
      rw (b64_laws.decode_string-encode_to_string (encode_key_config h key_id public_key)) (
        ap (map_err KeyError.config_failed) (
          subst (λ z. decode_key_config z ≡ ok (key_id, public_key))
            (append-nil (encode_key_config h key_id public_key))
            (decode_key_config-encode_key_config h key_id public_key [] fits)))

  -- The two writes of a successful `SaveKeyPair`.
  save_key_pair-ok :
      (kp : KeyPair) (pub_path priv_path : Bytes) (files files' : Files)
      → save_key_pair h b64 access kp pub_path priv_path files ≡ (files', ok tt)
      → (files₁ : Files) × (write_file access pub_path
            (b64.encode_to_string (encode_key_config h kp.key_id kp.public_key))
            files
          ≡ some files₁)
        × (write_file access priv_path (b64.encode_to_string kp.private_key) files₁ ≡ some files')
  unfolding save_key_pair
  save_key_pair-ok kp pub_path priv_path files files' s =
      elim (Option-cases (
        write_file access pub_path
          (b64.encode_to_string (encode_key_config h kp.key_id kp.public_key)) files)) [
            | inl w ↦ absurd (clash _ _ _ (rw (w, save_key_pair) at s))
            | inr (files₁, w) ↦
                elim (Option-cases
                  (write_file access priv_path (b64.encode_to_string kp.private_key) files₁)) [
                    | inl w' ↦ absurd (clash _ _ _ (rw (w, w', save_key_pair) at s))
                    | inr (files₂, w') ↦
                        (files₁, w, w' ∙ ap some (ap (λ z. z.0) (rw (w, w', save_key_pair) at s)))
                  ]
          ]
    where
      clash :
          (f g : Files) (e : KeyError)
          → ¬ (◌≡◌ {A = Files × Result KeyError (Unit {0})} (f, err e) (g, ok tt))
      clash f g e h = cc

  pub read-save_key_pair :
      (kp : KeyPair) (pub_path priv_path : Bytes) (files files' : Files)
      → priv_path ≢ pub_path
      → access.can_read pub_path ≡ true
      → access.can_read priv_path ≡ true
      → save_key_pair h b64 access kp pub_path priv_path files ≡ (files', ok tt)
      → (read_file access pub_path files'
          ≡ some (b64.encode_to_string (encode_key_config h kp.key_id kp.public_key)))
        × (read_file access priv_path files' ≡ some (b64.encode_to_string kp.private_key))
  read-save_key_pair kp pub_path priv_path files files' ne rp rs s =
      let (files₁, w₁, w₂) = save_key_pair-ok kp pub_path priv_path files files' s in
      (
        (read_file-other access priv_path pub_path _ files₁ files' ne w₂).0
            ∙ (read_file-write_file access pub_path _ files files₁ rp w₁).0,
        (read_file-write_file access priv_path _ files₁ files' rs w₂).0,
      )

  module _ {Public Private : Type 0} (scheme : Scheme Public Private) where
    read_public-ok :
        (key_file : Bytes) (files : Files) (t : Bytes)
        → read_public h b64 access scheme key_file files ≡ ok t
        → read_file access (key_file ++ text ".pub") files ≡ some t
    read_public-ok key_file files t e =
        elim (Option-cases (read_file access (key_file ++ text ".pub") files)) [
          | inl missing ↦ absurd (no_error _ (rw (missing, read_public) at e))
          | inr (content, found) ↦ found ∙ ap some (the_ok _ _ (rw (found, read_public) at e))
        ]
      where
        no_error : (e : EnsureError) → ¬ (◌≡◌ {A = Result EnsureError Bytes} (err e) (ok t))
        no_error e h = cc

        the_ok : (a b : Bytes) → ◌≡◌ {A = Result EnsureError Bytes} (ok a) (ok b) → a ≡ b
        the_ok a b h = cc

    read_saved-ok :
        (key_file : Bytes) (o : Files × Result KeyError (Unit {0})) (files : Files) (t : Bytes)
        → read_saved h b64 access scheme key_file o ≡ (files, ok t)
        → (o ≡ (files, ok tt)) × (read_file access (key_file ++ text ".pub") files ≡ some t)
    read_saved-ok key_file (f, err e) files t e' = absurd cc
    read_saved-ok key_file (f, ok u) files t e =
        let same : f ≡ files = ap (λ z. z.0) e in
        (
          ap (λ f. (f, ok tt)) same,
          subst (λ f. read_file access (key_file ++ text ".pub") f ≡ some t) same
              (read_public-ok key_file f t (ap (λ z. z.1) e)),
        )

    made_key :
        (made : Bool) (draw : ℕ) (random : Option ℕ) (key_file : Bytes) (files files' : Files)
        (t : Bytes) (kp : KeyPair)
        → exists key_file files ≡ false
        → generate_key_pair scheme draw random ≡ ok kp
        → ensure_ohttp_key h b64 access scheme made draw random key_file files ≡ (files', ok t)
        → (save_key_pair h b64 access kp (key_file ++ text ".pub") key_file files ≡ (files', ok tt))
          × (read_file access (key_file ++ text ".pub") files' ≡ some t)
    unfolding ensure_ohttp_key
    made_key false draw random key_file files files' t kp missing gen e = absurd cc
    made_key true draw random key_file files files' t kp missing gen e =
        read_saved-ok key_file
          (save_key_pair h b64 access kp (key_file ++ text ".pub") key_file files) files' t
          (rw (missing, gen, ensure_ohttp_key) at e)

    -- The text that is given is the one in the file of the public key.
    pub read-ensure_ohttp_key :
        (made : Bool) (draw : ℕ) (random : Option ℕ) (key_file : Bytes) (files files' : Files)
        (t : Bytes)
        → ensure_ohttp_key h b64 access scheme made draw random key_file files ≡ (files', ok t)
        → read_file access (key_file ++ text ".pub") files' ≡ some t
    unfolding ensure_ohttp_key
    read-ensure_ohttp_key false draw random key_file files files' t e = absurd cc
    read-ensure_ohttp_key true draw random key_file files files' t e =
        elim (Bool-cases (exists key_file files)) [
          | inl there ↦ found (rw (there, ensure_ohttp_key) at e)
          | inr missing ↦ elim (Result-cases (generate_key_pair scheme draw random)) [
            | inl (kp, gen) ↦ (made_key true draw random key_file files files' t kp missing gen e).1
            | inr (e', gen) ↦ absurd (failed _ (rw (missing, gen, ensure_ohttp_key) at e))
          ]
        ]
      where
        found :
            ◌≡◌ {A = Files × Result EnsureError Bytes}
              (files, read_public h b64 access scheme key_file files)
              (files', ok t)
            → read_file access (key_file ++ text ".pub") files' ≡ some t
        found e =
            subst (λ f. read_file access (key_file ++ text ".pub") f ≡ some t) (ap (λ z. z.0) e)
              (read_public-ok key_file files t (ap (λ z. z.1) e))

        failed :
            (e : EnsureError)
            → ¬ (◌≡◌ {A = Files × Result EnsureError Bytes} (files, err e) (files', ok t))
        failed e h = cc

    module _ (g : Gcm) (w : Http) (lib : HttpLib w) (sum256 hex : Bytes → Bytes) where
      load_exit :
          (cfg : ExitConfig) (static_relay : Bytes) (kp : KeyPair) (files : Files)
          → is_empty cfg.ohttp_public_key_file ≡ true
          → length kp.public_key + 5 < 2 ^ 16
          → read_file access (cfg.ohttp_private_key_file ++ text ".pub") files
            ≡ some (b64.encode_to_string (encode_key_config h kp.key_id kp.public_key))
          → read_file access cfg.ohttp_private_key_file files
            ≡ some (b64.encode_to_string kp.private_key)
          → new_exit_node h g w lib b64 sum256 hex access cfg static_relay files
            ≡ ok (
                exit_node h g w lib b64 sum256 hex access cfg static_relay kp.private_key kp.key_id
                  kp.public_key)
      unfolding new_exit_node
      load_exit cfg static_relay kp files default fits public private =
          rw
            (
              default,
              private,
              public,
              new_exit_node,
              b64_laws.decode_string-encode_to_string kp.private_key,
              load_public_key_config-encode kp.key_id kp.public_key fits,
            )
            refl

      -- If an Exit has no key file yet, the paths of its keys can be read, the key has less than 65531
      -- bytes, and `ensureOHTTPKey` gives a text, then the text is the configuration of the generated
      -- key, and `newExitNode` gives the Exit that has this key, and registers with the key's hash and
      -- configuration.
      pub ensure_ohttp_key_lem :
          (made : Bool) (draw : ℕ) (random : Option ℕ) (cfg : ExitConfig) (static_relay : Bytes)
          (files files' : Files) (t : Bytes) (kp : KeyPair)
          → is_empty cfg.ohttp_public_key_file ≡ true
          → access.can_read (cfg.ohttp_private_key_file ++ text ".pub") ≡ true
          → access.can_read cfg.ohttp_private_key_file ≡ true
          → exists cfg.ohttp_private_key_file files ≡ false
          → generate_key_pair scheme draw random ≡ ok kp
          → length kp.public_key + 5 < 2 ^ 16
          → ensure_ohttp_key h b64 access scheme made draw random cfg.ohttp_private_key_file files
            ≡ (files', ok t)
          → (load_public_key_config b64 t ≡ ok (kp.key_id, kp.public_key))
            × (new_exit_node h g w lib b64 sum256 hex access cfg static_relay files'
                ≡ ok (
                    exit_node h g w lib b64 sum256 hex access cfg static_relay kp.private_key
                      kp.key_id kp.public_key))
      ensure_ohttp_key_lem made draw random cfg static_relay files files' t kp default rp rs missing
            gen fits e =
          let (saved, shown) =
            made_key made draw random cfg.ohttp_private_key_file files files' t kp missing gen e in
          let (public, private) =
            read-save_key_pair kp _ _ files files' (apart cfg.ohttp_private_key_file) rp rs saved in
          (
            subst (λ s. load_public_key_config b64 s ≡ ok (kp.key_id, kp.public_key))
                (the_some _ _ (sym public ∙ shown))
                (load_public_key_config-encode kp.key_id kp.public_key fits),
            load_exit cfg static_relay kp files' default fits public private,
          )
        where
          apart : (path : Bytes) → path ≢ path ++ text ".pub"
          apart path e = omega (arith, ap length e, length-append path (text ".pub"))

          the_some : (a b : Bytes) → ◌≡◌ {A = Option Bytes} (some a) (some b) → a ≡ b
          the_some a b e = cc
