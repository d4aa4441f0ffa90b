-- ===== src/Client/Startup/Chosen.antt =====
-- The Client sends to the Exit that it was told of.
use token_go.Base.{
  ℕ, ◌+◌, ◌<◌, ◌^◌, Bytes, List, [], ◌∷◌, length, some, Result, ok, map_err, >>=-ok, ◌≡◌, refl,
  subst, append-nil,
}
use token_go.Protocol.{ExitKeyEntry}
use token_go.Crypto.Interface.{Hpke}
use token_go.Crypto.Keys.{encode_key_config, decode_key_config}
use token_go.Crypto.Keys.RoundTrip.{decode_key_config-encode_key_config}
use token_go.Crypto.Keys.Stored.{pub_key_hash, load_public_key_config}
use token_go.LoadBalancer.Weighted.{Float}
use token_go.Config.{ExitConfig}
use token_go.Crypto.Interface.{Gcm, Http}
use token_go.Exit.Handler.{HttpLib}
use token_go.Files.{Access, Files, Base64, read_file}
use token_go.Exit.Node.{ExitNode, ExitError, new_exit_node, public_path, or_fail}
use token_go.Client.Connection.{ClientState, World, connect}
use token_go.Client.Proxy.{discover_exit}
use token_go.Client.Startup.{Client, discover_and_connect, set_exit}

discover_exit_key :
    (h : Hpke) (hash : Bytes) (xs : List ExitKeyEntry) (key_id : ℕ) (public_key : Bytes)
    → length public_key + 5 < 2 ^ 16
    → discover_exit (
        ok
          (record { pub_key_hash = hash; key_config = encode_key_config h key_id public_key } ∷ xs))
      ≡ ok (key_id, public_key)
unfolding discover_exit
discover_exit_key h hash xs key_id public_key fits =
    let decoded : decode_key_config (encode_key_config h key_id public_key)
        ≡ ok (key_id, public_key) =
      subst (λ z. decode_key_config z ≡ ok (key_id, public_key))
        (append-nil (encode_key_config h key_id public_key))
        (decode_key_config-encode_key_config h key_id public_key [] fits) in
    rw (decoded, discover_exit) refl

module _ (f : Float) (h : Hpke) (g : Gcm) (w : Http) (lib : HttpLib w) (b64 : Base64)
    (sum256 hex : Bytes → Bytes) (access : Access) where
  -- What an Exit registers belongs to its key.
  registered :
      (cfg : ExitConfig) (static_relay : Bytes) (files : Files)
      (e : ExitNode h g w lib b64 sum256 hex access)
      → new_exit_node h g w lib b64 sum256 hex access cfg static_relay files ≡ ok e
      → (e.pub_key_hash ≡ pub_key_hash sum256 hex e.public_key)
        × (e.key_config ≡ encode_key_config h e.key_id e.public_key)
  unfolding new_exit_node
  registered cfg static_relay files e made =
      let (content, e₁, h₁) =
        >>=-ok
          (or_fail ExitError.read_private_failed
            (read_file access cfg.ohttp_private_key_file files))
          _ made in
      let (private_key, e₂, h₂) =
        >>=-ok (or_fail ExitError.decode_private_failed (b64.decode_string content)) _ h₁ in
      let (pub_content, e₃, h₃) =
        >>=-ok (or_fail ExitError.read_public_failed (read_file access (public_path cfg) files)) _
          h₂ in
      let (key, e₄, h₄) =
        >>=-ok (map_err ExitError.public_config_failed (load_public_key_config b64 pub_content)) _
          h₃ in
      the_exit _ e h₄ (refl, refl)
    where
      the_exit :
          (a b : ExitNode h g w lib b64 sum256 hex access)
          → ◌≡◌ {A = Result ExitError (ExitNode h g w lib b64 sum256 hex access)} (ok a) (ok b)
          → (a.pub_key_hash ≡ pub_key_hash sum256 hex a.public_key)
            × (a.key_config ≡ encode_key_config h a.key_id a.public_key)
          → (b.pub_key_hash ≡ pub_key_hash sum256 hex b.public_key)
            × (b.key_config ≡ encode_key_config h b.key_id b.public_key)
      the_exit a b same fields =
          let e : a ≡ b = cc in
          subst
            (λ n.
              (n.pub_key_hash ≡ pub_key_hash sum256 hex n.public_key)
              × (n.key_config ≡ encode_key_config h n.key_id n.public_key))
            e fields

  -- If the Client connects, and the first Exit that the Relay lists is one that `newExitNode` has made,
  -- with the hash and the configuration that it registers, and whose key has less than 65531 bytes,
  -- then `discoverAndConnect` ends without an error, keeps the connection, and the Client has that
  -- Exit's key and key id, and sends to the hash under which that Exit has registered.
  pub discover_and_connect_lem :
      (world : World f) (c : Client f h sum256 hex) (s : ClientState f) (xs : List ExitKeyEntry)
      (cfg : ExitConfig) (static_relay : Bytes) (files : Files)
      (e : ExitNode h g w lib b64 sum256 hex access)
      → connect f world c.state ≡ (s, ok tt)
      → new_exit_node h g w lib b64 sum256 hex access cfg static_relay files ≡ ok e
      → length e.public_key + 5 < 2 ^ 16
      → discover_and_connect f h sum256 hex world
          (ok (record { pub_key_hash = e.pub_key_hash; key_config = e.key_config } ∷ xs))
          c
        ≡ (
          record {
            state = s;
            exit_pub_key_hash = e.pub_key_hash;
            ohttp_client = some (record { key_id = e.key_id; pub_key_raw = e.public_key });
          },
          ok tt,
        )
  unfolding discover_and_connect set_exit
  discover_and_connect_lem world c s xs cfg static_relay files e connected made fits =
      let (hash, config) = registered cfg static_relay files e made in
      rw
        (
          connected,
          discover_and_connect,
          config,
          discover_exit_key h e.pub_key_hash xs e.key_id e.public_key fits,
          hash,
        )
        refl
