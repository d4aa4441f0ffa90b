-- ===== src/Cmd/Serve/Agrees.antt =====
-- The three parts that `serve` makes belong together.
use token_go.Base.{
  ℕ, Bytes, text, ◌++◌, some, Bool-cases, Result-cases, Result, ok, err, >>=-ok, inl, inr, ◌≡◌, ◌≢◌,
  refl, sym, ap, subst, ◌∙◌,
}
use token_go.Net.{is_empty}
use token_go.Files.{Access, Files, Base64, Base64Laws, read_file}
use token_go.Identity.{KeyLibrary, Laws}
use token_go.Cert.{X509, Laws as CertLaws, cert_file_name, key_file_name}
use token_go.Crypto.Interface.{Hpke, Gcm, Http}
use token_go.Crypto.Ohttp.{new_ohttp_client}
use token_go.Crypto.Keys.Stored.{Scheme, load_public_key_config, pub_key_hash}
use token_go.LoadBalancer.Weighted.{Float}
use token_go.Exit.Handler.{HttpLib}
use token_go.Exit.Node.{ExitNode, ExitError, EnsureError, new_exit_node, exit_node, or_fail}
use token_go.Exit.Node.Keys.{read-ensure_ohttp_key}
use token_go.Relay.Node.{RelayNode, RelayError, certs_dir}
use token_go.Relay.Node.Writes.{new_relay-other}
use token_go.Client.Startup.{Client, new_client}
use token_go.Cmd.Configs.{default_key_file}
use token_go.Cmd.Serve.{
  Serving, ServeError, Flags, Chances, serve, with_exit, with_relay, with_key, with_pub_key,
  relay_addr, relay_cfg, exit_cfg,
}

abbrev pub public_file : Bytes
public_file = default_key_file ++ text ".pub"

module _ {PrivKey PubKey Key Public Private : Type 0} (keys : KeyLibrary PrivKey PubKey)
    (laws : Laws keys) (b64 : Base64) (b64_laws : Base64Laws b64) (x : X509 PrivKey Key)
    (cert_laws : CertLaws x) (access : Access) (h : Hpke) (g : Gcm) (w : Http) (lib : HttpLib w)
    (scheme : Scheme Public Private) (f : Float) (sum256 hex trim : Bytes → Bytes) where
  abbrev Exit : Type 0
  Exit = ExitNode h g w lib b64 sum256 hex access

  -- An Exit of a key, at the Relay of the process.
  abbrev IsOf : ℕ × Bytes → Exit → Type 0
  IsOf key e =
      (e.key_id ≡ key.0)
      × (e.public_key ≡ key.1)
      × (e.pub_key_hash ≡ pub_key_hash sum256 hex key.1)
      × (e.static_relay ≡ relay_addr)

  the_ok : {E A : Type 0} (a b : A) → ◌≡◌ {A = Result E A} (ok a) (ok b) → a ≡ b
  the_ok a b e = cc

  new_exit_node-IsOf :
      (flags : Flags) (files : Files) (t : Bytes) (key : ℕ × Bytes) (e : Exit)
      → read_file access public_file files ≡ some t
      → load_public_key_config b64 t ≡ ok key
      → new_exit_node h g w lib b64 sum256 hex access (exit_cfg trim flags) relay_addr files ≡ ok e
      → IsOf key e
  unfolding new_exit_node
  new_exit_node-IsOf flags files t key e shown loaded made =
      let (content, e₁, h₁) =
        >>=-ok (or_fail ExitError.read_private_failed (read_file access default_key_file files)) _
          made in
      let (private_key, e₂, h₂) =
        >>=-ok (or_fail ExitError.decode_private_failed (b64.decode_string content)) _ h₁ in
      the_exit private_key (rw (shown, loaded) at h₂)
    where
      the_exit :
          (private_key : Bytes)
          → ◌≡◌ {A = Result ExitError Exit}
              (ok (
                exit_node h g w lib b64 sum256 hex access
                  (exit_cfg trim flags)
                  relay_addr
                  private_key
                  key.0
                  key.1))
              (ok e)
          → IsOf key e
      the_exit private_key same = subst (IsOf key) (the_ok _ e same) (refl, refl, refl, refl)

  abbrev Made : Type 0
  Made = Serving keys b64 x access h g w lib scheme f sum256 hex trim

  -- The Client that is made of a key.
  abbrev client_of : ℕ × Bytes → Client f h sum256 hex
  client_of key = new_client f h sum256 hex relay_addr key.0 key.1

  exit_inv :
      (c : Chances) (flags : Flags) (key : ℕ × Bytes) (relay : RelayNode PrivKey PubKey Key)
      (r : Result ExitError Exit) (s : Made)
      → with_exit keys b64 x access h g w lib scheme f sum256 hex trim c flags key relay r ≡ ok s
      → (r ≡ ok s.exit) × (s.client ≡ client_of key)
  exit_inv c flags key relay (err e) s h = absurd cc
  exit_inv c flags key relay (ok e) s h = elim (Bool-cases c.exit_ready) [
    | inl ready ↦
        (let same = the_ok _ s (rw ready at h) in
          (ap (λ (m : Made). ok m.exit) same, ap (λ (m : Made). m.client) (sym same)))
    | inr late ↦ absurd (no_parts _ (rw late at h))
  ]
    where
      no_parts : (e : ServeError) → ¬ (◌≡◌ {A = Result ServeError Made} (err e) (ok s))
      no_parts e h = cc

  -- The file of the public key holds this text.
  abbrev Shows : Files → Bytes → Type 0
  Shows files t = read_file access public_file files ≡ some t

  relay_inv :
      (c : Chances) (flags : Flags) (key : ℕ × Bytes)
      (r : Files × Result RelayError (RelayNode PrivKey PubKey Key)) (files' : Files) (s : Made)
      → with_relay keys b64 x access h g w lib scheme f sum256 hex trim c flags key r
        ≡ (files', ok s)
      → (relay : RelayNode PrivKey PubKey Key) × (r ≡ (files', ok relay))
        × (new_exit_node h g w lib b64 sum256 hex access (exit_cfg trim flags) relay_addr files'
            ≡ ok s.exit)
        × (s.client ≡ client_of key)
  relay_inv c flags key (files, err e) files' s e' = absurd cc
  relay_inv c flags key (files, ok relay) files' s e =
      let same : files ≡ files' = ap (λ z. z.0) e in
      let (made, client) = exit_inv c flags key relay _ s (ap (λ z. z.1) e) in
      (
        relay,
        ap (λ z. (z, ok relay)) same,
        subst
            (λ z.
              new_exit_node h g w lib b64 sum256 hex access (exit_cfg trim flags) relay_addr z
              ≡ ok s.exit)
            same made,
        client,
      )

  module _ (nc : x.join certs_dir cert_file_name ≢ public_file)
      (nk : x.join certs_dir key_file_name ≢ public_file) where
    key_inv :
        (c : Chances) (flags : Flags) (files files' : Files) (t : Bytes) (s : Made)
        → Shows files t
        → with_key keys b64 x access h g w lib scheme f sum256 hex trim c flags files
            (load_public_key_config b64 t)
          ≡ (files', ok s)
        → (key : ℕ × Bytes) × IsOf key s.exit × (s.client ≡ client_of key)
    key_inv c flags files files' t s shown e = elim (Result-cases (load_public_key_config b64 t)) [
      | inr (e', failed) ↦ absurd (no_parts _ (rw failed at e))
      | inl (key, loaded) ↦
          (let (relay, made, exit, client) = relay_inv c flags key _ files' s (rw loaded at e) in
            let kept =
              new_relay-other keys laws b64 b64_laws x cert_laws access c.draw_identity c.draw_cert
                c.serial c.now c.draw_dht relay_cfg public_file files files' relay refl refl nc nk
                made in
            (key, new_exit_node-IsOf flags files' t key s.exit (kept ∙ shown) loaded exit, client))
    ]
      where
        no_parts :
            (e : ServeError)
            → ¬ (◌≡◌ {A = Files × Result ServeError Made} (files, err e) (files', ok s))
        no_parts e h = cc

    pub_key_inv :
        (c : Chances) (flags : Flags) (r : Files × Result EnsureError Bytes) (files' : Files)
        (s : Made)
        → ((files : Files) (t : Bytes) → r ≡ (files, ok t) → Shows files t)
        → with_pub_key keys b64 x access h g w lib scheme f sum256 hex trim c flags r
          ≡ (files', ok s)
        → (key : ℕ × Bytes) × IsOf key s.exit × (s.client ≡ client_of key)
    pub_key_inv c flags (files, err e) files' s shown e' = absurd cc
    pub_key_inv c flags (files, ok t) files' s shown e =
        key_inv c flags files files' t s (shown files t refl) e

    -- If `serve` gets as far as to wait for a signal, and no file of the Relay's certificate is that of
    -- the Exit's public key, then the Client sends to the hash under which the Exit registers, seals
    -- for the Exit's key, and both go to the same Relay's address.
    pub serve_agrees :
        (c : Chances) (flags : Flags) (files files' : Files) (s : Made)
        → serve keys b64 x access h g w lib scheme f sum256 hex trim c flags files ≡ (files', ok s)
        → (s.client.exit_pub_key_hash ≡ s.exit.pub_key_hash)
          × (s.client.ohttp_client ≡ some (new_ohttp_client h s.exit.key_id s.exit.public_key))
          × (s.client.state.relay_addr ≡ s.exit.static_relay)
    unfolding serve new_client
    serve_agrees c flags files files' s e = elim (Bool-cases (is_empty flags.backend)) [
      | inl missing ↦ absurd (no_parts (rw (missing, serve) at e))
      | inr given ↦
          (let (key, (key_id, public_key, hash, addr), client) =
              pub_key_inv c flags _ files' s
                (λ files₁ t.
                  read-ensure_ohttp_key h b64 b64_laws access scheme c.made c.draw_key c.key_id
                    default_key_file files files₁ t)
                (rw (given, serve) at e) in
            (
              ap (λ (z : Client f h sum256 hex). z.exit_pub_key_hash) client ∙ sym hash,
              rw (client, key_id, public_key) refl,
              ap (λ (z : Client f h sum256 hex). z.state.relay_addr) client ∙ sym addr,
            ))
    ]
      where
        no_parts : ¬ (
            ◌≡◌ {A = Files × Result ServeError Made}
              (files, err ServeError.no_backend)
              (files', ok s))
        no_parts h = cc
